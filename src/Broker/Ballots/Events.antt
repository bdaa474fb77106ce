-- ===== src/Broker/Ballots/Events.antt =====
-- What comes in at the broker (src/broker/broker_class.cpp), which handler gets it, and what it does to
-- the ballots.
use reliable_service_framewo.Prelude.{
  Bool, true, false, ℕ, ◌^◌, ◌<◌, ◌≡◌, Option, none, some, List, [], ◌∷◌, ◌++◌,
}
use reliable_service_framewo.Prelude.Int.{ℤ, IsInt32}
use reliable_service_framewo.Wire.{ServerReply, ByteOrder, IdFrame, Envelope, RequestModule}
use reliable_service_framewo.Time.{TimeSpec}
use reliable_service_framewo.Broker.Request.{get_request}
use reliable_service_framewo.Broker.Response.{get_response}
use reliable_service_framewo.Broker.Response.Collect.{reply_of}
use reliable_service_framewo.Broker.Step.{Handler, idle, ◌then_run◌}
use reliable_service_framewo.Broker.Ballots.{Answer, Election, Ballot, ask, cast}

-- What comes in, with the readings of the clock and the contents of variables that are not set.
pub data Event : Type 0 where
  request : Envelope RequestModule → TimeSpec → TimeSpec → ℕ → Event
  reply : IdFrame → ℕ → ℕ → ℤ → ℤ → Event
  -- A pong, and a request that a copy refused; the flag and the word are what no one has set.
  pong : IdFrame → ℕ → ℕ → Bool → ℕ → ℤ → Event
  refused : IdFrame → ℕ → ℕ → ℕ → ℤ → Event

-- A message of a copy that carries no result.
abbrev pub signal : ByteOrder → IdFrame → ℕ → ℕ → Bool → Bool → ℕ → Envelope ServerReply
signal bo id_frame service id heartbeat duplicated word = record {
  id_frame = id_frame;
  data_frame = record {
    heartbeat = heartbeat;
    duplicated = duplicated;
    result = word;
    service = bo.htonl service;
    id = id;
  };
}

abbrev pub UnknownOrFree : Option Ballot → ℕ → Type 0
UnknownOrFree none c = Unit
UnknownOrFree (some ballot) c = ballot c ≡ none

abbrev pub IsKnown : Option Ballot → Type 0
IsKnown none = ⊥
IsKnown (some ballot) = Unit

module _ (bo : ByteOrder) where
  -- The handler of `step` for the event.
  unfoldable pub handle : Event → Handler
  handle (request e pushed postponed uninit) = get_request bo e pushed postponed uninit
  handle (reply id_frame service id x uninit) =
      get_response bo (reply_of bo id_frame service id x) uninit
  handle (pong id_frame service id flag word uninit) =
      get_response bo (signal bo id_frame service id true flag word) uninit
  handle (refused id_frame service id word uninit) =
      get_response bo (signal bo id_frame service id false true word) uninit

  -- What the event does to the ballots.
  unfoldable pub elect : ℕ → Event → Election → Election × List (IdFrame × Answer)
  elect nmr (request e pushed postponed uninit) el =
      ask (bo.ntohl e.data_frame.service) e.id_frame.client_id e.id_frame el
  elect nmr (reply id_frame service id x uninit) el = cast nmr service id_frame x el
  elect nmr (pong id_frame service id flag word uninit) el = (el, [])
  elect nmr (refused id_frame service id word uninit) el = (el, [])

  -- A client asks again only behind its answer, copies of known services reply `int32_t` values, and
  -- the pongs are of their copies below `nmr`.
  abbrev pub IsPlausible : ℕ → Election → Event → Type 0
  IsPlausible nmr el (request e pushed postponed uninit) =
      UnknownOrFree (el (bo.ntohl e.data_frame.service)) e.id_frame.client_id
  IsPlausible nmr el (reply id_frame service id x uninit) =
      (service < 2 ^ 32) × IsInt32 x × IsKnown (el service)
  IsPlausible nmr el (pong id_frame service id flag word uninit) =
      (service < 2 ^ 32) × (id < nmr) × IsKnown (el service)
  IsPlausible nmr el (refused id_frame service id word uninit) = Unit

  -- Events in their order.
  unfoldable pub handle_all : List Event → Handler
  handle_all [] = idle
  handle_all (ev ∷ evs) = handle ev then_run handle_all evs

  unfoldable pub elect_all : ℕ → List Event → Election → Election × List (IdFrame × Answer)
  elect_all nmr [] el = (el, [])
  elect_all nmr (ev ∷ evs) el =
      let (el', told) = elect nmr ev el in
      let (el'', later) = elect_all nmr evs el' in (el'', told ++ later)

  abbrev pub ArePlausible : ℕ → Election → List Event → Type 0
  ArePlausible nmr el [] = Unit
  ArePlausible nmr el (ev ∷ evs) = IsPlausible nmr el ev × ArePlausible nmr (elect nmr ev el).0 evs
