-- ===== src/Broker/Steady/Startup/Rounds.antt =====
-- The startup of the broker (src/broker/broker_class.cpp) as rounds of its loop.
use mathlib.Core.Path.{fun_ext}
use reliable_service_framewo.Prelude.{ℕ, ◌≡◌, refl, sym, ap, ◌∙◌, List, [], ◌∷◌, ◌++◌, map}
use reliable_service_framewo.Prelude.Map.{lookup}
use reliable_service_framewo.Wire.{ByteOrder}
use reliable_service_framewo.Time.{TimeSpec}
use reliable_service_framewo.Database
use reliable_service_framewo.Broker.{Broker, create}
use reliable_service_framewo.Broker.Registration.{get_registration}
use reliable_service_framewo.Broker.Step.{Handler, ◌then_run◌, Round, run}
use reliable_service_framewo.Broker.Step.Sequence.{then_run_assoc, idle_first}
use reliable_service_framewo.Broker.Steady.Startup.{Registering, register_all}
use reliable_service_framewo.Broker.Steady.Startup.Started.{register_services}
use reliable_service_framewo.Broker.Steady.Startup.Quiet.{IsQuiet, AreClose}
use reliable_service_framewo.Broker.Steady.Startup.Loop.{rounds_of, AreReadings, run-register_all}

-- The registrations in one sequence.
abbrev pub in_sequence : List (List Registering) → List Registering
in_sequence [] = []
in_sequence (copies ∷ services) = copies ++ in_sequence services

module _ (bo : ByteOrder) where
  register_all-append :
      (es es' : List Registering) (b : Broker)
      → register_all bo (es ++ es') b ≡ (register_all bo es then_run register_all bo es') b
  unfolding register_all
  register_all-append [] es' b = sym (idle_first (register_all bo es') b)
  register_all-append ((e, armed) ∷ es) es' b =
      let first : Handler = get_registration bo e armed in
      ap (λ (f : Handler). (first then_run f) b) (fun_ext (register_all-append es es'))
      ∙ sym (then_run_assoc first (register_all bo es) (register_all bo es') b)

  register_services-register_all :
      (services : List (List Registering)) (b : Broker)
      → register_services bo services b ≡ register_all bo (in_sequence services) b
  unfolding register_services register_all
  register_services-register_all [] b = refl
  register_services-register_all (copies ∷ services) b =
      ap (λ (f : Handler). (register_all bo copies then_run f) b)
        (fun_ext (register_services-register_all services))
      ∙ sym (register_all-append copies (in_sequence services) b)

  create-IsQuiet : (IsReading : TimeSpec → Type 0) (nmr : ℕ) → IsQuiet IsReading (create nmr)
  unfolding create Database.create lookup
  create-IsQuiet IsReading nmr = record {
    none_waits = λ s r e. absurd (cc);
    known = tt;
    early = tt;
  }

  -- From the constructor, rounds of the loop in which only the copies of services register, and no
  -- timeout is over at any of the readings, do what the registrations do.
  pub run-register_services :
      (IsReading : TimeSpec → Type 0) (nmr : ℕ) (services : List (List Registering))
      (ps : List (Registering × Round))
      → AreClose IsReading
      → AreReadings IsReading ps
      → map (λ p. p.0) ps ≡ in_sequence services
      → run bo (rounds_of ps) (create nmr) ≡ register_services bo services (create nmr)
  run-register_services IsReading nmr services ps close readings same =
      run-register_all IsReading close bo ps (create nmr) readings (create-IsQuiet IsReading nmr)
      ∙ ap (λ es. register_all bo es (create nmr)) same
      ∙ sym (register_services-register_all services (create nmr))
