-- ===== src/System.antt =====
-- One call of `request_service` through all processes: the client (include/rsf_api.hpp), the broker
-- (src/broker/broker_class.cpp) and the copies (src/server/server_class.cpp). What ZeroMQ does is an
-- argument: the copies stand in the order in which they get the messages of the dealer, and in which
-- their replies come in.
pub mod Replies
pub mod Ready
pub mod Masking
pub mod Unavailable
pub mod Trials
pub mod Session
use reliable_service_framewo.Prelude.{
  ℕ, ◌+◌, ◌==◌, if◌then◌else◌, List, [], ◌∷◌, ◌++◌, Outcome, ok, hangs, ◌>>=◌, Bool, map,
}
use reliable_service_framewo.Prelude.Int.{ℤ, pos_part}
use reliable_service_framewo.Wire.{
  ByteOrder, IdFrame, Envelope, RequestModule, ResponseModule, ServiceModule, ServerReply,
}
use reliable_service_framewo.Time.{TimeSpec}
use reliable_service_framewo.Database.{find_registration}
use reliable_service_framewo.Broker.{Broker, Output, to_client, to_server}
use reliable_service_framewo.Broker.Request.{get_request}
use reliable_service_framewo.Broker.Response.{get_response}
use reliable_service_framewo.Broker.Step.{Handler, idle, ◌then_run◌}
use reliable_service_framewo.Client.{make_request, read_response}
use reliable_service_framewo.Server.{Server, Action, send_reply, spawn, Uninit, on_message}
use reliable_service_framewo.Server.Task.{task}

-- What a copy, and the broker at its reply, read of the clock and of variables that are not set.
pub record Readings : Type 0 where
  pub handled : TimeSpec
  pub uninit : Uninit
  pub unread : ℤ
  pub result : ℤ

-- A copy that the request reaches: a server that is registered, unless it is down.
pub data Copy : Type 0 where
  running : Server → Copy
  silent : Copy

abbrev pub Part : Type 0
Part = Copy × Readings

-- What one call reads: `readings` goes by the place of the copy.
pub record Call : Type 0 where
  pub uninit_parameters : List ℕ
  pub pushed : TimeSpec
  pub postponed : TimeSpec
  pub uninit : ℕ
  pub readings : ℕ → Readings

abbrev pub with_readings : ℕ → (ℕ → Readings) → List Copy → List Part
with_readings i f [] = []
with_readings i f (c ∷ cs) = (c, f i) ∷ with_readings (i + 1) f cs

-- What the broker sends on the dealer `d`.
unfoldable pub on_dealer : ℕ → List Output → List Output
on_dealer d [] = []
on_dealer d (to_server i e ∷ os) =
    let rest = on_dealer d os in if i == d then to_server i e ∷ rest else rest
on_dealer d (_ ∷ os) = on_dealer d os

module _ (bo : ByteOrder) where
  -- The replies that the actions of a server lead to; a thread replies when it has served.
  unfoldable pub perform : Server → ℤ → List Action → Outcome (List ServerReply)
  perform s unread [] = ok []
  perform s unread (send_reply r ∷ actions) = do later ← perform s unread actions; ok (r ∷ later)
  perform s unread (spawn text ∷ actions) = do
    r ← task bo s.id s.service_type s.service text unread
    later ← perform s unread actions
    ok (r ∷ later)
  perform s unread (_ ∷ actions) = perform s unread actions

  -- A copy that gets the message, and what comes back.
  unfoldable pub exchange : ServiceModule → Part → Outcome (Copy × List ServerReply)
  exchange sm (silent, r) = ok (silent, [])
  exchange sm (running s, r) = do
    after ← on_message bo sm r.handled r.uninit s
    replies ← perform s r.unread after.1
    ok (running after.0, replies)

  -- The messages of the broker to the copies that are connected to their dealer: the copies afterwards, and the replies in the envelopes
  -- of the requests, each with what `result` of `get_response` holds.
  unfoldable pub deliver :
      List Output → List Part → Outcome (List Copy × List (Envelope ServerReply × ℤ))
  deliver [] parts = ok (map (λ p. p.0) parts, [])
  deliver (to_server i e ∷ os) [] = ok ([], [])
  deliver (to_server i e ∷ os) ((c, r) ∷ parts) = do
    first ← exchange e.data_frame (c, r)
    later ← deliver os parts
    ok (
      first.0 ∷ later.0,
      map (λ m. (record { id_frame = e.id_frame; data_frame = m }, r.result)) first.1 ++ later.1,
    )
  deliver (_ ∷ os) parts = deliver os parts

  unfoldable pub receive_all : List (Envelope ServerReply × ℤ) → Handler
  receive_all [] = idle
  receive_all ((e, uninit) ∷ later) = get_response bo e uninit then_run receive_all later

  -- The first message to the client; without one, `recv` does not come back.
  unfoldable pub first_response : ℕ → List Output → Outcome ResponseModule
  first_response client [] = hangs
  first_response client (to_client e ∷ os) =
      let later = first_response client os in
      if e.id_frame.client_id == client then ok e.data_frame else later
  first_response client (_ ∷ os) = first_response client os

  -- The copies are connected to the dealer of the service that the database names. The broker has handled all
  -- their replies when the call comes back. The broker and the copies after the call, the value that the client's function returns, and its `result`.
  module _ (id_frame : IdFrame) (uninit_parameters : List ℕ) (pushed postponed : TimeSpec)
      (uninit : ℕ) where
    unfoldable pub request_service :
        ℕ → List ℤ → ℤ → List Part → Broker → Outcome (Broker × List Copy × (Bool × ℤ))
    request_service service args result parts b = do
      rm ← make_request bo service args uninit_parameters
      asked ←
          get_request bo (record { id_frame = id_frame; data_frame = rm }) pushed postponed uninit b
      let dealer = pos_part (find_registration service b.db)
      delivered ← deliver (on_dealer dealer asked.1) parts
      answered ← receive_all delivered.1 asked.0
      response ← first_response id_frame.client_id (asked.1 ++ answered.1)
      ok (answered.0, delivered.0, read_response bo response result)

  -- The loop of `main` of the client (src/client/client_test.cpp), with the values that it prints. Each call
  -- starts when the broker has handled all replies to the one before.
  unfoldable pub call_all :
      IdFrame
      → ℕ
      → List ℤ
      → List Call
      → ℤ
      → List Copy
      → Broker
      → Outcome (Broker × List Copy × List (Bool × ℤ))
  call_all id_frame service args [] result copies b = ok (b, copies, [])
  call_all id_frame service args (k ∷ ks) result copies b = do
    first ←
        request_service id_frame k.uninit_parameters k.pushed k.postponed k.uninit service args
          result (with_readings 0 k.readings copies) b
    later ← call_all id_frame service args ks first.2.1 first.1 first.0
    ok (later.0, later.1, first.2 ∷ later.2)
