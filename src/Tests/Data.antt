-- ===== src/Tests/Data.antt =====
-- The byte order of the machines that the framework runs on, and the data that several tests share.
use reliable_service_framewo.Prelude.{ℕ, ◌+◌, ◌*◌, ◌/◌, ◌%◌, ◌^◌, ◌<◌, ◌≡◌, arith}
use reliable_service_framewo.Prelude.{List, [], ◌∷◌, true}
use reliable_service_framewo.Prelude.Int.{ℤ, pos}
use reliable_service_framewo.Prelude.Map.{insert}
use reliable_service_framewo.Wire.{ByteOrder, IdFrame, Envelope, RequestModule, sum_t}
use reliable_service_framewo.Time.{TimeSpec}
use reliable_service_framewo.Database.{Database, ServiceRecord, RequestRecord}
use reliable_service_framewo.Broker.{Broker}

abbrev pub swap32 : ℕ → ℕ
swap32 x = x % 256 * 16777216 + x / 256 % 256 * 65536 + x / 65536 % 256 * 256 + x / 16777216

abbrev pub swap16 : ℕ → ℕ
swap16 x = x % 256 * 256 + x / 256

pub swap32_lt : (x : ℕ) → x < 2 ^ 32 → swap32 x < 2 ^ 32
swap32_lt x h = omega arith

pub swap32-swap32 : (x : ℕ) → x < 2 ^ 32 → swap32 (swap32 x) ≡ x
swap32-swap32 x h = omega arith

pub swap16-swap16 : (x : ℕ) → x < 2 ^ 16 → swap16 (swap16 x) ≡ x
swap16-swap16 x h = omega arith

-- Little-endian.
abbrev pub little : ByteOrder
little = record {
  htonl = swap32;
  ntohl = swap32;
  htons = swap16;
  ntohs = swap16;
  htonl_lt = swap32_lt;
  ntohl_lt = swap32_lt;
  ntohl_htonl = swap32-swap32;
  ntohs_htons = swap16-swap16;
}

abbrev pub at_time : ℕ → TimeSpec
at_time s = record { tv_sec = s; tv_nsec = 5 }

-- Of client 7.
abbrev pub a_client : IdFrame
a_client = record { lead = 0; client_id = 7 }

-- `client` waits for its answer, with these results so far.
abbrev pub waiting : ℕ → List ℤ → RequestRecord
waiting client results = record { client_id = client; results = results; timeout = at_time 9 }

-- Three copies of the service are registered.
abbrev pub three_copies : List RequestRecord → ServiceRecord
three_copies pending = record {
  owner = b's' ∷ [];
  num_copies_registered = 3;
  num_copies_reliable = 3;
  dealer_socket = 6000;
  dealer_skt_index = 0;
  seq_id_ping = 4;
  seq_id_request = 11;
  request_records = pending;
  new_pong = true ∷ true ∷ true ∷ [];
  lost_pong = pos 0 ∷ pos 0 ∷ pos 0 ∷ [];
}

abbrev pub database : ℕ → List RequestRecord → Database
database service pending = record {
  nmr = 3;
  services_db = insert service (three_copies pending) [];
  next_dealer_skt_index = 1;
}

-- A broker with redundancy three, at which the service is available.
abbrev pub broker : ℕ → List RequestRecord → Broker
broker service pending = record {
  nmr = 3;
  available_dealer_port = 6001;
  dealers = 6000 ∷ [];
  db = database service pending;
  available_services = service ∷ [];
  timeouts = at_time 6 ∷ [];
}

-- Client 7 asks for SUM.
abbrev pub a_request : Envelope RequestModule
a_request = record {
  id_frame = a_client;
  data_frame = record {
    service = swap32 sum_t;
    parameters = b'2' ∷ b' ' ∷ b'4' ∷ b'0' ∷ b' ' ∷ 0 ∷ [];
  };
}
