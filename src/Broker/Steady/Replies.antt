-- ===== src/Broker/Steady/Replies.antt =====
-- `get_request` and `get_response` (src/broker/broker_class.cpp) at a broker that is steady.
use reliable_service_framewo.Prelude.{
  ℕ, zero, suc, ◌^◌, ◌<◌, ◌≡◌, refl, true, false, Option, none, some, List, [], ◌∷◌, ok, Returns,
  arith, Bool-cases, inl, inr,
}
use reliable_service_framewo.Prelude.Int.{
  ℤ, IsInt32, to_int32, to_int32-IsInt32, to_uint32, to_uint32-lt, to_int32-to_uint32,
}
use reliable_service_framewo.Wire.{ByteOrder, Envelope, RequestModule, ServerReply}
use reliable_service_framewo.Time.{TimeSpec}
use reliable_service_framewo.Broker.{Broker}
use reliable_service_framewo.Broker.Request.{get_request}
use reliable_service_framewo.Broker.Response.{get_response}
use reliable_service_framewo.Broker.Response.Collect.{reply_of}
use reliable_service_framewo.Broker.Step.{get_responses}
use reliable_service_framewo.Broker.Ballots.View.{election_of}
use reliable_service_framewo.Broker.Ballots.Events.{IsKnown, UnknownOrFree, signal}
use reliable_service_framewo.Broker.Ballots.Asking.{request-Refines}
use reliable_service_framewo.Broker.Ballots.Refinement.{reply-Refines, pong-Refines}
use reliable_service_framewo.Broker.Steady.{IsSteady, Lasts, Quiet-refl, IsKnown-Kept}
use reliable_service_framewo.Broker.Steady.Tally.{one_of, same-Counts, ask-Counts, cast-Counts}
use reliable_service_framewo.Broker.Steady.Accounts.{
  Tallied, Quiet-Tallied, Refines-Tallied, then-Tallied,
}

-- The words of a message are words, and it is of a known service; a pong is of a copy below `nmr`.
abbrev pub IsPlausibleReply : ByteOrder → Envelope ServerReply → Broker → Type 0
IsPlausibleReply bo e b =
    (e.data_frame.service < 2 ^ 32)
    × (e.data_frame.result < 2 ^ 32)
    × (e.data_frame.heartbeat ≡ true → e.data_frame.id < b.nmr)
    × IsKnown (election_of b.db (bo.ntohl e.data_frame.service))

module _ (bo : ByteOrder) where
  pub request-Tallied :
      (e : Envelope RequestModule) (pushed postponed : TimeSpec) (uninit : ℕ) (b : Broker)
      → IsSteady b
      → UnknownOrFree (election_of b.db (bo.ntohl e.data_frame.service)) e.id_frame.client_id
      → Returns
          (Tallied bo (one_of e.id_frame.client_id) b)
          (get_request bo e pushed postponed uninit b)
  request-Tallied e pushed postponed uninit b h free =
      Refines-Tallied bo b (get_request bo e pushed postponed uninit b) _
        (one_of e.id_frame.client_id) (bo.ntohl e.data_frame.service) h
        (request-Refines bo e pushed postponed uninit b h.running free)
        (ask-Counts (bo.ntohl e.data_frame.service) e.id_frame (election_of b.db) free)

  module _ (e : Envelope ServerReply) (uninit : ℤ) (b : Broker) (h : IsSteady b)
      (plausible : IsPlausibleReply bo e b) where
    abbrev service : ℕ
    service = bo.ntohl e.data_frame.service

    abbrev value : ℤ
    value = to_int32 (bo.ntohl e.data_frame.result)

    service-lt : service < 2 ^ 32
    service-lt = bo.ntohl_lt e.data_frame.service plausible.0

    value-IsInt32 : IsInt32 value
    value-IsInt32 =
        to_int32-IsInt32 (bo.ntohl e.data_frame.result)
          (bo.ntohl_lt e.data_frame.result plausible.1)

    -- The handler reads the message as one that was written with the host's values.
    as_pong :
        e.data_frame.heartbeat ≡ true
        → get_response bo e uninit b
          ≡ get_response bo (signal bo e.id_frame service e.data_frame.id true false 0) uninit b
    unfolding get_response
    as_pong beat = rw (beat, bo.ntohl_htonl service service-lt) refl

    as_reply :
        e.data_frame.heartbeat ≡ false
        → e.data_frame.duplicated ≡ false
        → get_response bo e uninit b
          ≡ get_response bo (reply_of bo e.id_frame service e.data_frame.id value) uninit b
    unfolding get_response
    as_reply no_beat fresh =
        rw
          (
            no_beat,
            fresh,
            bo.ntohl_htonl service service-lt,
            bo.ntohl_htonl (to_uint32 value) (to_uint32-lt value value-IsInt32),
            to_int32-to_uint32 value value-IsInt32,
          )
          refl

    dropped :
        e.data_frame.heartbeat ≡ false
        → e.data_frame.duplicated ≡ true
        → get_response bo e uninit b ≡ ok (b, [])
    unfolding get_response
    dropped no_beat again = rw (no_beat, again) refl

    pub response-Tallied : Returns (Tallied bo (λ c. 0) b) (get_response bo e uninit b)
    response-Tallied = elim (Bool-cases e.data_frame.heartbeat) [
      | inl beat ↦ rw (as_pong beat) (
          Refines-Tallied bo b _ _ (λ c. 0) service h
            (pong-Refines bo e.id_frame service e.data_frame.id false 0 uninit b h.running
              service-lt (plausible.2 beat) (plausible.3))
            (same-Counts service e.id_frame (election_of b.db)))
      | inr no_beat ↦ elim (Bool-cases e.data_frame.duplicated) [
        | inl again ↦ rw (dropped no_beat again) (Quiet-Tallied bo b (b, []) h (Quiet-refl bo b h))
        | inr fresh ↦ rw (as_reply no_beat fresh) (
            Refines-Tallied bo b _ _ (λ c. 0) service h
              (reply-Refines bo e.id_frame service e.data_frame.id value uninit b h.running
                service-lt value-IsInt32 (plausible.3))
              (cast-Counts service e.id_frame (election_of b.db) b.nmr value))
      ]
    ]

  abbrev pub ArePlausibleReplies : List (Option (Envelope ServerReply)) → Broker → Type 0
  ArePlausibleReplies [] b = Unit
  ArePlausibleReplies (none ∷ es) b = ArePlausibleReplies es b
  ArePlausibleReplies (some e ∷ es) b = IsPlausibleReply bo e b × ArePlausibleReplies es b

  IsPlausibleReply-Lasts :
      (e : Envelope ServerReply) (b b' : Broker)
      → Lasts b b'
      → IsPlausibleReply bo e b
      → IsPlausibleReply bo e b'
  IsPlausibleReply-Lasts e b b' lasts (hs, hr, below, known) = (
    hs,
    hr,
    λ beat. omega (arith, below beat, lasts.kept.nmr),
    IsKnown-Kept b b' (bo.ntohl e.data_frame.service) lasts.kept known,
  )

  pub ArePlausibleReplies-Lasts :
      (es : List (Option (Envelope ServerReply))) (b b' : Broker)
      → Lasts b b'
      → ArePlausibleReplies es b
      → ArePlausibleReplies es b'
  ArePlausibleReplies-Lasts [] b b' lasts p = tt
  ArePlausibleReplies-Lasts (none ∷ es) b b' lasts p = ArePlausibleReplies-Lasts es b b' lasts p
  ArePlausibleReplies-Lasts (some e ∷ es) b b' lasts p =
      (IsPlausibleReply-Lasts e b b' lasts p.0, ArePlausibleReplies-Lasts es b b' lasts p.1)

  pub responses-Tallied :
      (n : ℕ) (es : List (Option (Envelope ServerReply))) (uninit : ℤ) (b : Broker)
      → IsSteady b
      → ArePlausibleReplies es b
      → Returns (Tallied bo (λ c. 0) b) (get_responses bo n es uninit b)
  unfolding get_responses
  responses-Tallied zero es uninit b h p = Quiet-Tallied bo b (b, []) h (Quiet-refl bo b h)
  responses-Tallied (suc n) [] uninit b h p = Quiet-Tallied bo b (b, []) h (Quiet-refl bo b h)
  responses-Tallied (suc n) (none ∷ es) uninit b h p =
      then-Tallied bo (λ c. 0) (λ c. 0) (λ c. 0) b (Tallied bo (λ c. 0) b) (ok (b, []))
        (get_responses bo n es uninit) (λ c. refl) (λ p t. t)
        (Quiet-Tallied bo b (b, []) h (Quiet-refl bo b h))
        λ first (lasts, books).
          responses-Tallied n es uninit first.0 lasts.steady
            (ArePlausibleReplies-Lasts es b first.0 lasts p)
  responses-Tallied (suc n) (some e ∷ es) uninit b h (p, ps) =
      then-Tallied bo (λ c. 0) (λ c. 0) (λ c. 0) b (Tallied bo (λ c. 0) b)
        (get_response bo e uninit b) (get_responses bo n es uninit) (λ c. refl) (λ p t. t)
        (response-Tallied e uninit b h p)
        λ first (lasts, books).
          responses-Tallied n es uninit first.0 lasts.steady
            (ArePlausibleReplies-Lasts es b first.0 lasts ps)
