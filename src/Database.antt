-- ===== src/Database.antt =====
-- include/service_database_class.hpp and src/broker/service_database_class.cpp: the records of the
-- services and every method of `ServiceDatabase`. A method returns the new database. Logging
-- (`write_log`, `print_htable`) leaves the state alone and is left out. `request_record_t::service`
-- is never written nor read, and has no field here.
mod Copies
pub mod Redundancy
pub mod Pong
pub mod Registration
pub mod Table
pub mod Queue
unfoldable pub use Queue.*
unfoldable pub use Copies.*
use reliable_service_framewo.Prelude.{
  ℕ, ◌+◌, ◌-◌, ◌%◌, ◌^◌, Bool, true, false, Option, none, some, List, [], ◌∷◌, ltb, ◌==◌,
  if◌then◌else◌, length, set, replicate, Outcome, ok, exits, undefined, ◌>>=◌, ◌>>◌, or_exit,
  or_undefined, in_bounds,
}
use reliable_service_framewo.Prelude.Int.{ℤ, pos, negsuc}
use reliable_service_framewo.Prelude.Map.{Map, lookup, insert}
use reliable_service_framewo.Wire.{RegistrationModule, request_timeout, c_string}
use reliable_service_framewo.Time.{TimeSpec, time_add_ms}

-- `service_record`
pub record ServiceRecord : Type 0 where
  pub owner : List ℕ
  pub num_copies_registered : ℕ  -- uint8_t
  pub num_copies_reliable : ℕ  -- uint8_t
  pub dealer_socket : ℕ  -- uint16_t
  pub dealer_skt_index : ℕ  -- uint16_t
  pub seq_id_ping : ℕ  -- uint32_t
  pub seq_id_request : ℕ  -- uint32_t
  pub request_records : List RequestRecord
  pub new_pong : List Bool
  pub lost_pong : List ℤ  -- int8_t

-- `ServiceDatabase`
pub record Database : Type 0 where
  pub nmr : ℕ
  pub services_db : Map ServiceRecord
  pub next_dealer_skt_index : ℕ

-- The constructor.
unfoldable pub create : ℕ → Database
create nmr = record { nmr = nmr; services_db = []; next_dealer_skt_index = 0 }

-- `services_db.find(service)`
abbrev pub find : ℕ → Database → Option ServiceRecord
find service db = lookup service db.services_db

-- A write through the iterator that `find` returned, or `services_db[service] = record`.
abbrev pub put : ℕ → ServiceRecord → Database → Database
put service r db = record db { services_db = insert service r db.services_db }

abbrev pub reg_fail : ℕ
reg_fail = 0

unfoldable pub find_registration : ℕ → Database → ℤ
find_registration service db = elim (find service db) [
  | none ↦ negsuc 0
  | some r ↦ pos r.dealer_skt_index
]

-- What `push_registration` leaves: the database, the reference arguments `dealer_socket` and
-- `ready`, and the value that it returns.
pub record Registered : Type 0 where
  pub db : Database
  pub next_socket : ℕ
  pub ready : Bool
  pub port : ℕ

unfoldable pub new_record : Database → List ℕ → ℕ → ServiceRecord
new_record db owner dealer_socket = record {
  owner = owner;
  num_copies_registered = 1;
  num_copies_reliable = 1;
  dealer_socket = dealer_socket;
  dealer_skt_index = db.next_dealer_skt_index;
  seq_id_ping = 2 ^ 32 - 1;
  seq_id_request = 0;
  request_records = [];
  new_pong = replicate db.nmr false;
  lost_pong = replicate db.nmr (negsuc 0);
}

unfoldable pub push_registration : RegistrationModule → ℕ → Database → Outcome Registered
unfolding new_record
push_registration rm dealer_socket db = elim (find rm.service db) [
  | none ↦ c_string rm.signature >>= λ owner. ok (record {
    db = record (put rm.service (new_record db owner dealer_socket) db) {
      next_dealer_skt_index = (db.next_dealer_skt_index + 1) % 2 ^ 16;
    };
    next_socket = (dealer_socket + 1) % 2 ^ 16;
    ready = false;
    port = dealer_socket;
  })
  | some r ↦
      if ltb r.num_copies_registered db.nmr
      then ok (record {
        db =
            put rm.service
              (record r {
                num_copies_registered = (r.num_copies_registered + 1) % 2 ^ 8;
                num_copies_reliable = (r.num_copies_reliable + 1) % 2 ^ 8;
              })
              db;
        next_socket = dealer_socket;
        ready = (r.num_copies_registered + 1) % 2 ^ 8 == db.nmr;
        port = r.dealer_socket;
      })
      else ok (record { db = db; next_socket = dealer_socket; ready = false; port = reg_fail })
]

-- `now` is the reading of the clock that the method takes.
unfoldable pub push_request : TimeSpec → RequestRecord → ℕ → Database → Outcome Database
push_request now rr service db = do
  r ← or_exit (find service db)
  let rr' = record rr { timeout = time_add_ms now request_timeout }
  ok (put service (record r { request_records = append r.request_records rr' }) db)

unfoldable pub delete_request : ℕ → ℕ → Database → Outcome Database
delete_request service client_id db = do
  r ← or_exit (find service db)
  ok (put service (record r { request_records = delete_client client_id r.request_records }) db)

unfoldable pub push_result : ℕ → ℤ → ℕ → Database → Outcome (Database × ℤ)
push_result service result client_id db = do
  r ← or_exit (find service db)
  let pushed = push_to_client client_id result r.request_records (negsuc 0)
  ok (put service (record r { request_records = pushed.0 }) db, pushed.1)

unfoldable pub get_result : ℕ → ℕ → Database → Outcome (List ℤ)
get_result service client_id db = do
  r ← or_exit (find service db)
  ok (results_of_client client_id r.request_records [])

unfoldable pub register_pong : ℕ → ℕ → Database → Outcome Database
register_pong id_copy service db = do
  r ← or_exit (find service db)
  in_bounds (ltb id_copy (length r.new_pong))
  ok (put service (record r { new_pong = set r.new_pong id_copy true }) db)

-- `num_copies_reliable -= unreliable_units` on a `uint8_t`
abbrev pub sub_u8 : ℕ → ℕ → ℕ
sub_u8 a b = (a + 2 ^ 8 - b) % 2 ^ 8

-- The method does not test whether the service was found.
unfoldable pub check_pong : ℕ → Database → Outcome Database
check_pong service db = do
  r ← or_undefined (find service db)
  checked ← check_copies db.nmr r.new_pong r.lost_pong
  ok (
      put service
        (record r {
          new_pong = checked.0;
          lost_pong = checked.1;
          num_copies_reliable = sub_u8 r.num_copies_reliable checked.2;
          num_copies_registered = sub_u8 r.num_copies_registered checked.2;
          seq_id_ping = (r.seq_id_ping + 1) % 2 ^ 32;
        })
        db)

unfoldable pub get_reliable_copies : ℕ → Database → Outcome ℕ
get_reliable_copies service db = do r ← or_exit (find service db); ok r.num_copies_reliable

unfoldable pub get_ping_id : ℕ → Database → Outcome ℕ
get_ping_id service db = do r ← or_exit (find service db); ok r.seq_id_ping

unfoldable pub get_request_id : ℕ → Database → Outcome (Database × ℕ)
get_request_id service db = do
  r ← or_exit (find service db)
  ok (
    put service (record r { seq_id_request = (r.seq_id_request + 1) % 2 ^ 32 }) db,
    r.seq_id_request,
  )

unfoldable pub get_pending_requests : ℕ → Database → Outcome (List RequestRecord)
get_pending_requests service db = do r ← or_exit (find service db); ok r.request_records
