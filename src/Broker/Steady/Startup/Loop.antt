-- ===== src/Broker/Steady/Startup/Loop.antt =====
-- Rounds of the loop of `step` (src/broker/broker_class.cpp) in which a copy registers, no other
-- message comes in, and no timeout is over.
use mathlib.Core.List.{append-nil}
use mathlib.Core.Path.{subst}
use reliable_service_framewo.Prelude.{
  ℕ, zero, suc, ◌≡◌, refl, sym, ap, ◌∙◌, false, some, none, List, [], ◌∷◌, ◌++◌, map, length, All,
  All-map, Ensures-always, Outcome, ok, exits, undefined, hangs, ◌>>=◌, Ensures, arith,
}
use reliable_service_framewo.Prelude.Int.{ℤ}
use reliable_service_framewo.Wire.{ByteOrder, Envelope, RegistrationModule}
use reliable_service_framewo.Time.{TimeSpec}
use reliable_service_framewo.Broker.{Broker, Output}
use reliable_service_framewo.Broker.Registration.{get_registration}
use reliable_service_framewo.Broker.Heartbeat.{check_timeouts}
use reliable_service_framewo.Broker.Pending.{check_pending_requests}
use reliable_service_framewo.Broker.Step.{
  Handler, idle, ◌then_run◌, Round, get_responses, step, run,
}
use reliable_service_framewo.Broker.Steady.Startup.{Registering, register_all}
use reliable_service_framewo.Broker.Step.Sequence.{idle_first}
use reliable_service_framewo.Broker.Steady.Startup.Quiet.{
  IsQuiet, AreClose, sweep_services_idle, expire_loop_idle, get_registration-IsQuiet,
}

abbrev DoesNothing : Handler → Broker × List Output → Type 0
DoesNothing f p = f p.0 ≡ ok (p.0, [])

bind_nothing :
    (f : Handler) (m : Outcome (Broker × List Output))
    → Ensures (DoesNothing f) m
    → ◌>>=◌ {B = Broker × List Output} m (λ first.
      ◌>>=◌ {B = Broker × List Output} (f first.0) (λ second. ok (second.0, first.1 ++ second.1)))
      ≡ m
bind_nothing f (ok (b, sent)) h = rw h (ap (λ l. ok (b, l)) (append-nil sent))
bind_nothing f exits h = refl
bind_nothing f undefined h = refl
bind_nothing f hangs h = refl

-- A handler that does nothing behind one that does what `q` does.
nothing_behind :
    (q f g : Handler) (b : Broker)
    → q b ≡ g b
    → Ensures (DoesNothing f) (g b)
    → (q then_run f) b ≡ g b
nothing_behind q f g b e h = bind_nothing f (q b) (subst (Ensures (DoesNothing f)) (sym e) h) ∙ e

Ensures-imp {ℓ κ μ} :
    {A : Type ℓ} {P : A → Type κ} {Q : A → Type μ} (m : Outcome A)
    → ((a : A) → P a → Q a)
    → Ensures P m
    → Ensures Q m
Ensures-imp (ok a) f h = f a h
Ensures-imp exits f h = tt
Ensures-imp undefined f h = tt
Ensures-imp hangs f h = tt

bind_cong {ℓ κ μ} :
    {A : Type ℓ} {B : Type κ} (Q : A → Type μ) (m : Outcome A) (f g : A → Outcome B)
    → Ensures Q m
    → ((a : A) → Q a → f a ≡ g a)
    → (m >>= f) ≡ (m >>= g)
bind_cong Q (ok a) f g q k = k a q
bind_cong Q exits f g q k = refl
bind_cong Q undefined f g q k = refl
bind_cong Q hangs f g q k = refl

-- A round of the loop in which nothing but a registration comes in.
abbrev pub registering_round : Registering → Round → Round
registering_round (e, armed) r = record r {
  ping = false;
  registration = some e;
  armed = armed;
  request = none;
  replies = [];
}

-- The registrations, each with the other readings of its round.
abbrev pub rounds_of : List (Registering × Round) → List Round
rounds_of ps = map (λ p. registering_round p.0 p.1) ps

module _ (IsReading : TimeSpec → Type 0) where
  abbrev pub AreReadings : List (Registering × Round) → Type 0
  AreReadings = All (λ p. IsReading (p.0).1 × IsReading (p.1).now)

  module _ (close : AreClose IsReading) (bo : ByteOrder) where
    no_responses : (n : ℕ) (uninit : ℤ) (b : Broker) → get_responses bo n [] uninit b ≡ ok (b, [])
    unfolding get_responses
    no_responses zero uninit b = refl
    no_responses (suc n) uninit b = refl

    step-get_registration :
        (e : Envelope RegistrationModule) (armed : TimeSpec) (r : Round) (b : Broker)
        → IsReading armed
        → IsReading r.now
        → IsQuiet IsReading b
        → step bo (registering_round (e, armed) r) b ≡ get_registration bo e armed b
    unfolding step check_timeouts check_pending_requests
    step-get_registration e armed r b reading now h =
        let q = get_registration bo e armed in
        let quiet = get_registration-IsQuiet IsReading close bo e armed b reading h in
        let replies : Handler = λ b'. get_responses bo (length b'.dealers) [] r.uninit b' in
        let timeouts = check_timeouts bo r.now r.uninit_parameters r.rearmed in
        let requests = check_pending_requests bo r.checked r.uninit in
        let first = idle_first q b in
        let second =
          nothing_behind (idle then_run q) idle q b first (Ensures-always (q b) λ p. refl) in
        let third =
          nothing_behind (idle then_run q then_run idle) replies q b second
            (Ensures-always (q b) λ p. no_responses (length p.0.dealers) r.uninit p.0) in
        let fourth =
          nothing_behind (idle then_run q then_run idle then_run replies) timeouts q b third (
            Ensures-imp (q b)
              (λ p now_quiet.
                expire_loop_idle bo (length p.0.timeouts) 0 r.now r.uninit_parameters r.rearmed p.0
                  (All-map p.0.timeouts (λ t early. early r.now now) now_quiet.early) (omega arith))
              quiet) in
        nothing_behind (idle then_run q then_run idle then_run replies then_run timeouts) requests q
          b fourth
          (Ensures-imp (q b)
            (λ p now_quiet.
              rw
                (sweep_services_idle bo r.checked 0 p.0.available_services
                  (record { broker = p.0; result = r.uninit; sent = [] }) now_quiet.none_waits
                  now_quiet.known)
                refl)
            quiet)

    -- Rounds of the loop in which the copies register do what the registrations do.
    pub run-register_all :
        (ps : List (Registering × Round)) (b : Broker)
        → AreReadings ps
        → IsQuiet IsReading b
        → run bo (rounds_of ps) b ≡ register_all bo (map (λ p. p.0) ps) b
    unfolding run register_all
    run-register_all [] b readings h = refl
    run-register_all (((e, armed), r) ∷ ps) b ((reading, now), later) h =
        ap
          (λ (m : Outcome (Broker × List Output)). ◌>>=◌ {B = Broker × List Output} m (λ first.
            ◌>>=◌ {B = Broker × List Output} (run bo (rounds_of ps) first.0)
              (λ second. ok (second.0, first.1 ++ second.1))))
          (step-get_registration e armed r b reading now h)
        ∙ bind_cong (λ p. IsQuiet IsReading p.0) (get_registration bo e armed b) _ _
            (get_registration-IsQuiet IsReading close bo e armed b reading h)
            λ p quiet. rw (run-register_all ps p.0 later quiet) refl
