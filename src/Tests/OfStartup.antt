-- ===== src/Tests/OfStartup.antt =====
-- src/broker/broker_class.cpp: two services register, and one of them is asked.
use reliable_service_framewo.Prelude.{
  map, sym, undefined, true, false, ℕ, ◌+◌, ◌≡◌, refl, List, [], ◌∷◌, none, some, ok, arith, length,
  Ensures, Ensures-always,
}
use reliable_service_framewo.Prelude.Map.{lookup, insert}
use reliable_service_framewo.Wire.{c_string}
use reliable_service_framewo.Database.{
  ServiceRecord, RequestRecord, find, results_of_client, push_registration, new_record,
}
use reliable_service_framewo.Time.{TimeSpec, time_add_ms, time_cmp, is_later}
use reliable_service_framewo.Broker.{Broker, Output, create}
use reliable_service_framewo.Broker.Step.{Round, run}
use reliable_service_framewo.Broker.Ballots.View.{heard}
use reliable_service_framewo.Broker.Steady.{IsSteady}
use reliable_service_framewo.Broker.Steady.Tally.{answers}
use reliable_service_framewo.Broker.Steady.Accounts.{pending}
use reliable_service_framewo.Broker.Steady.Runs.{ArePlausibleRounds, all_asked}
use reliable_service_framewo.Broker.Steady.Startup.{Registering, register_all}
use mathlib.Core.Path.{subst}
use reliable_service_framewo.Broker.Steady.Startup.Quiet.{AreClose}
use reliable_service_framewo.Broker.Steady.Startup.Loop.{rounds_of, AreReadings}
use reliable_service_framewo.Broker.Steady.Startup.Rounds.{in_sequence, run-register_services}
use reliable_service_framewo.Broker.Steady.Lifetime.{lifetime, lifetime_balances}
use reliable_service_framewo.Broker.Registration.{
  get_registration, make_available, contains, add_dealer,
}
use reliable_service_framewo.Database
use reliable_service_framewo.Broker.Steady.Startup.Started.{
  AreServices, register_services, register_services-IsSteady,
}
use reliable_service_framewo.Broker.Steady.Startup.Partial.{early_request_undefined}
use reliable_service_framewo.Broker.Request.{get_request}
use reliable_service_framewo.Broker.Step.{◌then_run◌}
use reliable_service_framewo.Wire.{Envelope, RequestModule}
use reliable_service_framewo.Tests.Data.{little, swap32, at_time}
use reliable_service_framewo.Tests.OfSteady.{reply_from, empty_round, empty-ArePlausible}

-- Two copies each of INCREMENT and DECREMENT register.
abbrev registering : ℕ → Registering
registering service = (
  record {
    id_frame = record { lead = 0; client_id = 3 };
    data_frame = record { signature = b's' ∷ 0 ∷ []; service = swap32 service };
  },
  at_time 1,
)

abbrev two_services : List (List Registering)
two_services = (registering 0 ∷ registering 0 ∷ []) ∷ (registering 1 ∷ registering 1 ∷ []) ∷ []

two_services-AreServices : AreServices little 2 0 two_services
unfolding c_string
two_services-AreServices = (
  refl,
  ((refl, (refl, tt)), (b's' ∷ [], refl)),
  (refl, ((refl, (refl, tt)), (b's' ∷ [], refl)), tt),
)

register_services-IsSteady_example :
    (b : Broker) × (sent : List Output) × (register_services little two_services (create 2)
      ≡ ok (b, sent))
    × IsSteady b
    × (b.nmr ≡ 2)
    × (length b.available_services ≡ 2)
register_services-IsSteady_example =
    register_services-IsSteady little 2 two_services (omega arith) (omega arith) (omega arith)
      two_services-AreServices

-- Then client 9 asks for DECREMENT, and waits for longer than it may.
abbrev asking_round : Round
asking_round = record (empty_round) {
  request = some (record {
    id_frame = record { lead = 0; client_id = 9 };
    data_frame = record { service = swap32 1; parameters = b'4' ∷ b' ' ∷ 0 ∷ [] };
  });
  replies =
      none
      ∷ some (record (reply_from 4 4) {
        data_frame = record {
          heartbeat = true;
          duplicated = false;
          result = 0;
          service = swap32 1;
          id = 1;
        };
      })
      ∷ [];
}

asking-ArePlausible :
    Ensures
      (λ p. ArePlausibleRounds little (asking_round ∷ empty_round ∷ []) p.0)
      (register_services little two_services (create 2))
unfolding register_services register_all get_registration push_registration make_available contains
    create Database.create new_record lookup insert c_string add_dealer results_of_client
    time_add_ms
asking-ArePlausible = (
  record {
    registration = tt;
    request = refl;
    replies = ((omega arith, omega arith, λ beat. omega arith, tt), tt);
  },
  Ensures-always {P = λ p. ArePlausibleRounds little (empty_round ∷ []) p.0} _
      (λ p. empty-ArePlausible p.0),
)

-- The rounds in which they register, all at the same time.
abbrev startup_rounds : List (Registering × Round)
startup_rounds = map (λ e. (e, record (empty_round) { now = at_time 1 })) (in_sequence two_services)

abbrev AtOne : TimeSpec → Type 0
AtOne t = t ≡ at_time 1

AtOne-AreClose : AreClose AtOne
unfolding is_later time_add_ms time_cmp
AtOne-AreClose n a hn ha = rw (hn, ha) refl

startup-AreReadings : AreReadings AtOne startup_rounds
startup-AreReadings = ((refl, refl), ((refl, refl), ((refl, refl), ((refl, refl), tt))))

started-ArePlausible :
    Ensures
      (λ p. ArePlausibleRounds little (asking_round ∷ empty_round ∷ []) p.0)
      (run little (rounds_of startup_rounds) (create 2))
started-ArePlausible =
    subst (Ensures (λ p. ArePlausibleRounds little (asking_round ∷ empty_round ∷ []) p.0))
      (sym (
        run-register_services little AtOne 2 two_services startup_rounds AtOne-AreClose
          startup-AreReadings refl))
      asking-ArePlausible

lifetime_balances_example :
    (b : Broker) × (sent : List Output) × (lifetime little startup_rounds
        (asking_round ∷ empty_round ∷ [])
        (create 2)
      ≡ ok (b, sent))
    × ((c : ℕ)
        → answers c (heard little sent) + pending c b
          ≡ all_asked little (asking_round ∷ empty_round ∷ []) c)
lifetime_balances_example =
    lifetime_balances little 2 two_services startup_rounds (asking_round ∷ empty_round ∷ []) AtOne
      (omega arith) (omega arith) (omega arith) two_services-AreServices refl AtOne-AreClose
      startup-AreReadings started-ArePlausible

-- One copy of SUM registers behind them, and a client asks for SUM.
abbrev one_copy : List Registering
one_copy = registering 2 ∷ []

abbrev early_request : Envelope RequestModule
early_request = record {
  id_frame = record { lead = 0; client_id = 9 };
  data_frame = record { service = swap32 2; parameters = b'4' ∷ b' ' ∷ 0 ∷ [] };
}

early_request_undefined_example :
    (register_services little two_services
        then_run (register_all little one_copy
            then_run get_request little early_request (at_time 2) (at_time 3) 0))
      (create 2)
    ≡ undefined
unfolding c_string
early_request_undefined_example =
    early_request_undefined little 2 two_services one_copy early_request (at_time 2) (at_time 3) 0
      (omega arith) (omega arith) (omega arith) two_services-AreServices (omega arith) (omega arith)
      ((refl, tt), (b's' ∷ [], refl)) refl
