-- ===== src/Tests/OfBroker.antt =====
-- src/broker/broker_class.cpp: a request for SUM at a broker with three copies.
use reliable_service_framewo.Prelude.{
  ℕ, ◌^◌, ◌≡◌, refl, ◌-◌, List, [], ◌∷◌, ◌++◌, none, some, ok, exits, arith, true, false,
}
use reliable_service_framewo.Prelude.Int.{pos, negsuc}
use reliable_service_framewo.Prelude.Map.{lookup, insert}
use reliable_service_framewo.Wire.{service_available, c_string}
use reliable_service_framewo.Time.{is_later, time_cmp, time_add_ms}
use reliable_service_framewo.Database.{RequestRecord, find, push_registration, results_of_client}
use reliable_service_framewo.Broker.{Broker, Output, to_registrant, index_of}
use reliable_service_framewo.Broker.Request.{get_request}
use reliable_service_framewo.Broker.Request.Accepted.{IsServing, copies_of, request_masks_faults}
use reliable_service_framewo.Broker.Response.{response}
use reliable_service_framewo.Broker.Response.Collect.{Pending, Settled}
use reliable_service_framewo.Broker.Response.Masking.{Arrival, collect}
use reliable_service_framewo.Broker.Pending.{check_pending_requests, sweep_services, sweep_requests}
use reliable_service_framewo.Broker.Pending.Misfire.{check_pending_requests_exits}
use reliable_service_framewo.Broker.Step.{◌then_run◌, Round, get_responses, step, run}
use reliable_service_framewo.Broker
use reliable_service_framewo.Broker.Heartbeat.{check_timeouts, expire_loop}
use reliable_service_framewo.Broker.Registration.{contains, make_available, get_registration}
use reliable_service_framewo.Broker.Step.Consistent.{IsConsistent}
use reliable_service_framewo.Broker.Step.Invariant.{run-IsConsistent}
use reliable_service_framewo.Database
use reliable_service_framewo.Tests.Data.{
  little, swap16, swap32, at_time, a_client, a_request, broker, three_copies, waiting,
}

abbrev from_copy : ℕ → ℕ → Arrival
from_copy id n = record { id = id; value = pos n; uninit = pos 0 }

serving : IsServing 3 (broker 3 [])
unfolding lookup insert index_of
serving = record {
  entry = three_copies [];
  found = refl;
  dealer = omega arith;
  timed = omega arith;
}

-- The first copy and the third agree.
abbrev two_of_three : List Arrival
two_of_three = from_copy 0 42 ∷ from_copy 1 5 ∷ from_copy 2 42 ∷ []

request_masks_faults_example :
    (b' : Broker) × ((get_request little a_request (at_time 1) (at_time 2) 0
          then_run collect little a_client 3 two_of_three)
        (broker 3 [])
      ≡ ok (
        b',
        copies_of little a_request (three_copies [])
            ++ response little a_client service_available (pos 42) ∷ [],
      ))
    × Settled 3 7 b'
unfolding serving
request_masks_faults_example =
    request_masks_faults little a_request (at_time 1) (at_time 2) 0 two_of_three (pos 42)
      (broker 3 []) serving refl (omega arith) (omega arith, (omega arith, (omega arith, tt)))
      (omega arith) (omega arith) (omega arith)

client_waits : Pending 3 7 [] (broker 3 (waiting 8 [] ∷ waiting 7 [] ∷ []))
unfolding lookup insert results_of_client
client_waits = record {
  entry = three_copies (waiting 8 [] ∷ waiting 7 [] ∷ []);
  found = refl;
  once = refl;
  gathered = refl;
}

-- All three differ.
abbrev disagreeing : List Arrival
disagreeing = from_copy 0 42 ∷ from_copy 1 5 ∷ from_copy 2 6 ∷ []

abbrev late_request : Broker
late_request = broker 3 (waiting 7 [] ∷ [])

find_late : find 3 late_request.db ≡ some (three_copies (waiting 7 [] ∷ []))
unfolding lookup insert
find_late = refl

find_first : find 0 late_request.db ≡ none
unfolding lookup insert
find_first = refl

passed : is_later (at_time 20) (at_time 9) ≡ true
unfolding is_later time_cmp
passed = refl

check_pending_requests_exits_example :
    check_pending_requests little (at_time 20) (pos 0) late_request ≡ exits
check_pending_requests_exits_example =
    check_pending_requests_exits little (at_time 20) (pos 0) late_request 3 []
      (three_copies (waiting 7 [] ∷ [])) (waiting 7 []) [] refl find_late find_first refl passed
      (omega arith)

-- INCREMENT is the only service, and its copies have not agreed.
abbrev undecided : RequestRecord
undecided = waiting 7 (pos 1 ∷ pos 2 ∷ [])

abbrev expired : Broker
expired = broker 0 (undecided ∷ [])

find_expired : find 0 expired.db ≡ some (three_copies (undecided ∷ []))
unfolding lookup insert
find_expired = refl

-- Nothing comes in.
abbrev quiet_round : Round
quiet_round = record {
  ping = false;
  registration = none;
  armed = at_time 1;
  request = none;
  pushed = at_time 1;
  postponed = at_time 1;
  replies = [];
  now = at_time 1;
  rearmed = at_time 1;
  checked = at_time 1;
  uninit = pos 0;
  uninit_parameters = [];
}

-- A copy of SUM registers.
abbrev registering : Round
registering = record quiet_round {
  registration = some (record {
    id_frame = record { lead = 0; client_id = 9 };
    data_frame = record { signature = b's' ∷ 0 ∷ []; service = swap32 3 };
  });
}

-- After two copies register at a broker with redundancy two.
abbrev registered : Broker
registered = record {
  nmr = 2;
  available_dealer_port = 6001;
  dealers = 6000 ∷ [];
  db = record {
    nmr = 2;
    services_db =
        insert 3
          (record {
            owner = b's' ∷ [];
            num_copies_registered = 2;
            num_copies_reliable = 2;
            dealer_socket = 6000;
            dealer_skt_index = 0;
            seq_id_ping = 2 ^ 32 - 1;
            seq_id_request = 0;
            request_records = [];
            new_pong = false ∷ false ∷ [];
            lost_pong = negsuc 0 ∷ negsuc 0 ∷ [];
          })
          [];
    next_dealer_skt_index = 1;
  };
  available_services = 3 ∷ [];
  timeouts = record { tv_sec = 3; tv_nsec = 5 } ∷ [];
}

abbrev told : List Output
told =
    to_registrant (record { lead = 0; client_id = 9 }) (swap16 6000)
    ∷ to_registrant (record { lead = 0; client_id = 9 }) (swap16 6000)
    ∷ []

run_example : run little (registering ∷ registering ∷ []) (Broker.create 2) ≡ ok (registered, told)
unfolding run step get_registration push_registration make_available contains get_responses
    check_timeouts expire_loop Broker.create Database.create lookup insert c_string
    check_pending_requests sweep_services sweep_requests is_later time_cmp time_add_ms
    Database.get_pending_requests
run_example = refl

run-IsConsistent_example : IsConsistent registered
run-IsConsistent_example = run-IsConsistent little 2 (registering ∷ registering ∷ []) run_example
