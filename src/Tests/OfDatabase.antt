-- ===== src/Tests/OfDatabase.antt =====
-- src/broker/service_database_class.cpp: registrations, pending requests and lost pongs.
use reliable_service_framewo.Prelude.{
  ℕ, ◌≡◌, refl, Bool, true, false, not, none, List, [], ◌∷◌, ok, filter_if, replicate,
  if◌then◌else◌, leb, arith,
}
use reliable_service_framewo.Prelude.Int.{ℤ, pos, negsuc}
use reliable_service_framewo.Prelude.Map.{lookup, insert}
use reliable_service_framewo.Wire.{RegistrationModule, c_string}
use reliable_service_framewo.Database.{
  Database, Registered, find, push_registration, reg_fail, is_client, delete_client, check_pong,
  put, ServiceRecord,
}
use reliable_service_framewo.Database.Queue.Delete.{delete_client-filter, delete_client_adjacent}
use reliable_service_framewo.Database.Pong.{
  rounds, remaining, flapping, Holds, after_check, check_pong_lem, check_pong_wraps, rounds_silent,
  rounds-flapping,
}
use reliable_service_framewo.Database.Registration.{
  registrations, Copies, registrations_lifecycle, single_never_ready,
}
use reliable_service_framewo.Tests.Data.{three_copies, waiting}

abbrev a_registration : RegistrationModule
a_registration = record { signature = b's' ∷ 0 ∷ []; service = 3 }

-- A database without services.
abbrev empty : ℕ → Database
empty nmr = record { nmr = nmr; services_db = []; next_dealer_skt_index = 0 }

find-empty : (nmr : ℕ) → find 3 (empty nmr) ≡ none
unfolding lookup
find-empty nmr = refl

signed : c_string (b's' ∷ 0 ∷ []) ≡ ok (b's' ∷ [])
unfolding c_string
signed = refl

registrations_lifecycle_example :
    (db' : Database) × (registrations 4 a_registration 6000 (empty 3)
      ≡ ok ((6000, false) ∷ (6000, false) ∷ (6000, true) ∷ (reg_fail, false) ∷ [], db'))
    × Copies 3 6000 3 db'
registrations_lifecycle_example =
    registrations_lifecycle 1 a_registration (b's' ∷ []) 6000 (empty 3) refl (omega arith)
      (find-empty 3) signed

-- What the first registration leaves when the redundancy is one.
abbrev alone : Registered
alone = record {
  db = record {
    nmr = 1;
    services_db =
        insert 3
          (record {
            owner = b's' ∷ [];
            num_copies_registered = 1;
            num_copies_reliable = 1;
            dealer_socket = 6000;
            dealer_skt_index = 0;
            seq_id_ping = 4_294_967_295;
            seq_id_request = 0;
            request_records = [];
            new_pong = false ∷ [];
            lost_pong = negsuc 0 ∷ [];
          })
          [];
    next_dealer_skt_index = 1;
  };
  next_socket = 6001;
  ready = false;
  port = 6000;
}

registered_alone : push_registration a_registration 6000 (empty 1) ≡ ok alone
unfolding push_registration lookup insert c_string
registered_alone = refl

single_never_ready_example : alone.ready ≡ false
single_never_ready_example =
    single_never_ready a_registration 6000 (empty 1) refl
      (λ r there. ground (arith, find-empty 1, there)) registered_alone

delete_client-filter_example :
    delete_client 7 (waiting 8 [] ∷ waiting 7 [] ∷ waiting 9 [] ∷ [])
    ≡ filter_if (λ r. not (is_client 7 r)) (waiting 8 [] ∷ waiting 7 [] ∷ waiting 9 [] ∷ [])
delete_client-filter_example =
    delete_client-filter 7 (waiting 8 [] ∷ waiting 7 [] ∷ waiting 9 [] ∷ []) (omega arith)

delete_client_adjacent_example :
    delete_client 7 (waiting 8 [] ∷ waiting 7 [] ∷ waiting 7 (pos 1 ∷ []) ∷ [])
    ≡ waiting 8 [] ∷ waiting 7 (pos 1 ∷ []) ∷ delete_client 7 []
delete_client_adjacent_example =
    delete_client_adjacent 7 (waiting 8 [] ∷ []) [] (waiting 7 []) (waiting 7 (pos 1 ∷ [])) refl
      refl

rounds_silent_example :
    (rounds (replicate 5 false) false (negsuc 0)).2
    ≡ (if leb (remaining (negsuc 0)) 5 then 1 else 0)
rounds_silent_example = rounds_silent 5 (negsuc 0) (omega arith, omega arith) (omega arith)

rounds-flapping_example : rounds (flapping 4) false (pos 0) ≡ (false, pos 0, 4)
rounds-flapping_example = rounds-flapping 4

-- The second copy has missed its third pong.
abbrev three_rounds : List (Bool × ℤ)
three_rounds = (true, pos 0) ∷ (false, pos 2) ∷ (false, pos 3) ∷ []

-- With so many reliable copies.
abbrev watched : ℕ → ServiceRecord
watched reliable = record (three_copies []) {
  num_copies_reliable = reliable;
  new_pong = true ∷ false ∷ false ∷ [];
  lost_pong = pos 0 ∷ pos 2 ∷ pos 3 ∷ [];
}

abbrev watching : ℕ → Database
watching reliable = record {
  nmr = 3;
  services_db = (2, watched reliable) ∷ [];
  next_dealer_skt_index = 1;
}

holds : (reliable : ℕ) → Holds 2 (watched reliable) three_rounds (watching reliable)
unfolding lookup
holds reliable = record { found = refl; pongs = refl; losses = refl; all = refl }

check_pong_lem_example :
    check_pong 2 (watching 3) ≡ ok (put 2 (after_check three_rounds 2 2 (watched 3)) (watching 3))
check_pong_lem_example =
    check_pong_lem 2 (watching 3) (watched 3) three_rounds (holds 3) (omega arith)
      (omega arith, omega arith) (omega arith, omega arith)

check_pong_wraps_example :
    (r' : ServiceRecord) × (check_pong 2 (watching 0) ≡ ok (put 2 r' (watching 0)))
    × (r'.num_copies_reliable ≡ 255)
check_pong_wraps_example =
    check_pong_wraps 2 (watching 0) (watched 0) three_rounds (holds 0) (omega arith) (omega arith)
