-- ===== src/Broker/Steady/Rounds.antt =====
-- Rounds of `step` (src/broker/broker_class.cpp) at a broker that is steady.
use mathlib.Core.Path.{subst}
use reliable_service_framewo.Broker.Ballots.{Election}
use reliable_service_framewo.Prelude.{
  ℕ, ◌≡◌, refl, sym, ◌∙◌, Bool, true, false, Option, none, some, List, [], ◌∷◌, All, Returns,
  Returns-bind, Returns-map, ap, arith, Bool-cases, inl, inr, if◌then◌else◌, length,
}
use reliable_service_framewo.Prelude.Int.{ℤ, to_uint32}
use reliable_service_framewo.Wire.{ByteOrder, Envelope, RequestModule, RegistrationModule}
use reliable_service_framewo.Time.{TimeSpec}
use reliable_service_framewo.Database.{ServiceRecord, RequestRecord, find}
use reliable_service_framewo.Broker.{Broker}
use reliable_service_framewo.Broker.Registration.{get_registration}
use reliable_service_framewo.Broker.Request.{get_request}
use reliable_service_framewo.Broker.Heartbeat.{check_timeouts}
use reliable_service_framewo.Broker.Pending.{check_pending_requests}
use reliable_service_framewo.Broker.Step.{
  Round, Handler, ◌then_run◌, on, idle, pong_health_checker, get_responses, step,
}
use reliable_service_framewo.Broker.Ballots.View.{election_of, heard}
use reliable_service_framewo.Broker.Ballots.Events.{IsKnown, UnknownOrFree}
use reliable_service_framewo.Broker.Steady.{
  IsSteady, Lasts, Lasts-refl, Quiet, Quiet-refl, then-Quiet, IsKnown-Kept,
}
use reliable_service_framewo.Broker.Steady.Tally.{one_of, answers}
use reliable_service_framewo.Broker.Steady.Accounts.{
  Tallied, Quiet-Tallied, then-Tallied, Tallied-trans, waits_for,
}
use reliable_service_framewo.Broker.Steady.Registering.{registration-Quiet}
use reliable_service_framewo.Broker.Steady.Replies.{
  request-Tallied, responses-Tallied, ArePlausibleReplies, ArePlausibleReplies-Lasts,
}
use reliable_service_framewo.Broker.Steady.Heartbeats.{check_timeouts-Quiet}
use reliable_service_framewo.Broker.Steady.Timeouts.{in_time, is_late, in_time-late, in_time-early}
use reliable_service_framewo.Broker.Steady.Sweeping.{
  check_pending_requests_lem, without_late, all_refused-answers,
}

-- Every pending request is within its timeout.
abbrev pub NoneLate : TimeSpec → Broker → Type 0
NoneLate now b =
    (s : ℕ) (r : ServiceRecord)
    → find s b.db ≡ some r
    → All (λ q. is_late now q ≡ false) r.request_records

in_time-All :
    (now : TimeSpec) (rs : List RequestRecord) → All (λ q. is_late now q ≡ false) (in_time now rs)
in_time-All now [] = tt
in_time-All now (q ∷ rs) = elim (Bool-cases (is_late now q)) [
  | inl late ↦ rw (in_time-late now q rs late).0 (in_time-All now rs)
  | inr early ↦ rw (in_time-early now q rs early).0 (early, in_time-All now rs)
]

without_late-All :
    (now : TimeSpec) (o : Option ServiceRecord) (r : ServiceRecord)
    → without_late now o ≡ some r
    → All (λ q. is_late now q ≡ false) r.request_records
without_late-All now none r e = absurd (cc)
without_late-All now (some q) r e =
    let same : in_time now q.request_records ≡ r.request_records = cc in
    rw (← same) (in_time-All now q.request_records)

module _ (bo : ByteOrder) where
  -- A copy registers for a service that is available, a client asks a service that is known only if
  -- it does not wait for it, and the replies are plausible.
  abbrev pub IsPlausibleRegistration : Option (Envelope RegistrationModule) → Broker → Type 0
  IsPlausibleRegistration none b = Unit
  IsPlausibleRegistration (some e) b = IsKnown (election_of b.db (bo.ntohl e.data_frame.service))

  abbrev pub IsPlausibleRequest : Option (Envelope RequestModule) → Broker → Type 0
  IsPlausibleRequest none b = Unit
  IsPlausibleRequest (some e) b =
      UnknownOrFree (election_of b.db (bo.ntohl e.data_frame.service)) e.id_frame.client_id

  pub record IsPlausibleRound (r : Round) (b : Broker) : Type 0 where
    pub registration : IsPlausibleRegistration r.registration b
    pub request : IsPlausibleRequest r.request b
    pub replies : ArePlausibleReplies bo r.replies b

  -- The request of the round, for each client.
  abbrev pub asked : Option (Envelope RequestModule) → ℕ → ℕ
  asked none c = 0
  asked (some e) c = one_of e.id_frame.client_id c

  on_registration-Quiet :
      (e : Option (Envelope RegistrationModule)) (armed : TimeSpec) (b : Broker)
      → IsSteady b
      → IsPlausibleRegistration e b
      → Returns (Quiet bo b) (on e (λ e. get_registration bo e armed) b)
  on_registration-Quiet none armed b h p = Quiet-refl bo b h
  on_registration-Quiet (some e) armed b h p = registration-Quiet bo e armed b h p

  IsPlausibleRegistration-Lasts :
      (e : Option (Envelope RegistrationModule)) (b b' : Broker)
      → Lasts b b'
      → IsPlausibleRegistration e b
      → IsPlausibleRegistration e b'
  IsPlausibleRegistration-Lasts none b b' lasts p = tt
  IsPlausibleRegistration-Lasts (some e) b b' lasts p =
      IsKnown-Kept b b' (bo.ntohl e.data_frame.service) lasts.kept p

  on_request-Tallied :
      (e : Option (Envelope RequestModule)) (pushed postponed : TimeSpec) (uninit : ℕ) (b : Broker)
      → IsSteady b
      → IsPlausibleRequest e b
      → Returns (Tallied bo (asked e) b) (on e (λ e. get_request bo e pushed postponed uninit) b)
  on_request-Tallied none pushed postponed uninit b h p =
      Quiet-Tallied bo b (b, []) h (Quiet-refl bo b h)
  on_request-Tallied (some e) pushed postponed uninit b h p =
      request-Tallied bo e pushed postponed uninit b h p

  plausible_request-same :
      (e : Option (Envelope RequestModule)) (b b' : Broker)
      → election_of b'.db ≡ election_of b.db
      → IsPlausibleRequest e b
      → IsPlausibleRequest e b'
  plausible_request-same none b b' same p = tt
  plausible_request-same (some e) b b' same p =
      subst
        (λ (el : Election). UnknownOrFree (el (bo.ntohl e.data_frame.service)) e.id_frame.client_id)
        (sym same) p

  ping-Quiet :
      (ping : Bool) (b : Broker)
      → IsSteady b
      → Returns (Quiet bo b) ((if ping then pong_health_checker else idle) b)
  unfolding pong_health_checker heard
  ping-Quiet true b h = (Lasts-refl b h, refl, refl)
  ping-Quiet false b h = (Lasts-refl b h, refl, refl)

  -- The last handler.
  pending_requests-Tallied :
      (now : TimeSpec) (uninit : ℤ) (b : Broker)
      → IsSteady b
      → Returns
          (λ p. Tallied bo (λ c. 0) b p × NoneLate now p.0)
          (check_pending_requests bo now uninit b)
  pending_requests-Tallied now uninit b h =
      let (b', sent, ran, cleared, told, lasts) = check_pending_requests_lem bo now uninit b h in
      let services = b.available_services in
      rw ran (
        (
          lasts,
          λ c. omega (
            arith,
            all_refused-answers now c services b.db b'.db cleared,
            ap (answers c) told,
            ap (waits_for c b'.db) lasts.kept.available,
          ),
        ),
        λ s q e. without_late-All now (find s b.db) q (sym (cleared s) ∙ e),
      )

  module _ (r : Round) (b : Broker) (h : IsSteady b) (plausible : IsPlausibleRound r b) where
    abbrev first_handlers : Handler
    first_handlers =
        (if r.ping then pong_health_checker else idle)
        then_run on r.registration (λ e. get_registration bo e r.armed)

    first_handlers-Quiet : Returns (Quiet bo b) (first_handlers b)
    first_handlers-Quiet =
        then-Quiet bo b ((if r.ping then pong_health_checker else idle) b)
          (on r.registration (λ e. get_registration bo e r.armed)) (ping-Quiet r.ping b h)
          λ b' lasts.
            on_registration-Quiet r.registration r.armed b' lasts.steady
              (IsPlausibleRegistration-Lasts r.registration b b' lasts plausible.registration)

    abbrev and_request : Handler
    and_request =
        first_handlers
        then_run on r.request (λ e. get_request bo e r.pushed r.postponed (to_uint32 r.uninit))

    and_request-Tallied : Returns (Tallied bo (asked r.request) b) (and_request b)
    and_request-Tallied =
        then-Tallied bo (λ c. 0) (asked r.request) (asked r.request) b (Quiet bo b)
          (first_handlers b) _ (λ c. omega arith) (λ p q. Quiet-Tallied bo b p h q)
          first_handlers-Quiet
          λ first (lasts, same, told).
            on_request-Tallied r.request r.pushed r.postponed (to_uint32 r.uninit) first.0
              lasts.steady (plausible_request-same r.request b first.0 same plausible.request)

    abbrev and_replies : Handler
    and_replies =
        and_request then_run (λ b. get_responses bo (length b.dealers) r.replies r.uninit b)

    and_replies-Tallied : Returns (Tallied bo (asked r.request) b) (and_replies b)
    and_replies-Tallied =
        then-Tallied bo (asked r.request) (λ c. 0) (asked r.request) b
          (Tallied bo (asked r.request) b) (and_request b)
          (λ b'. get_responses bo (length b'.dealers) r.replies r.uninit b') (λ c. omega arith)
          (λ p t. t) and_request-Tallied
          λ first (lasts, books).
            responses-Tallied bo (length first.0.dealers) r.replies r.uninit first.0 lasts.steady
              (ArePlausibleReplies-Lasts bo r.replies b first.0 lasts plausible.replies)

    abbrev and_timeouts : Handler
    and_timeouts = and_replies then_run check_timeouts bo r.now r.uninit_parameters r.rearmed

    and_timeouts-Tallied : Returns (Tallied bo (asked r.request) b) (and_timeouts b)
    and_timeouts-Tallied =
        then-Tallied bo (asked r.request) (λ c. 0) (asked r.request) b
          (Tallied bo (asked r.request) b) (and_replies b)
          (check_timeouts bo r.now r.uninit_parameters r.rearmed) (λ c. omega arith) (λ p t. t)
          and_replies-Tallied
          λ first (lasts, books).
            Returns-map (check_timeouts bo r.now r.uninit_parameters r.rearmed first.0)
              (λ p q. Quiet-Tallied bo first.0 p lasts.steady q)
              (check_timeouts-Quiet bo r.uninit_parameters r.rearmed r.now first.0 lasts.steady)

    pub step-Tallied :
        Returns (λ p. Tallied bo (asked r.request) b p × NoneLate r.checked p.0) (step bo r b)
    unfolding step
    step-Tallied =
        Returns-bind (Tallied bo (asked r.request) b)
          (λ p. Tallied bo (asked r.request) b p × NoneLate r.checked p.0) (and_timeouts b) _
          and_timeouts-Tallied
          λ first books.
            Returns-bind (λ p. Tallied bo (λ c. 0) (first.0) p × NoneLate r.checked p.0)
              (λ p. Tallied bo (asked r.request) b p × NoneLate r.checked p.0)
              (check_pending_requests bo r.checked r.uninit first.0) _
              (pending_requests-Tallied r.checked r.uninit first.0 books.0.steady)
              λ second (books', none_late). (
                Tallied-trans bo (asked r.request) (λ c. 0) (asked r.request) b first second
                    (λ c. omega arith) books books',
                none_late,
              )
