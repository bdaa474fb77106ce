-- ===== src/Wire.antt =====
-- include/communication.hpp, include/rsf_api.hpp and include/service.hpp: the constants and the
-- messages that the parts exchange. An enumeration travels as the `uint32_t` that it is cast to, and
-- a cast back takes any word, so a service type is a number. Array fields are lists of bytes.
use reliable_service_framewo.Prelude.{
  ℕ, ◌^◌, ◌<◌, ◌≡◌, Bool, List, [], ◌∷◌, ◌==◌, if◌then◌else◌, Outcome, ok, undefined, ◌>>=◌,
}

-- `enum service_type_t`
abbrev pub increment_t : ℕ
increment_t = 0

abbrev pub decrement_t : ℕ
decrement_t = 1

abbrev pub multiply2_t : ℕ
multiply2_t = 2

abbrev pub sum_t : ℕ
sum_t = 3

-- `enum service_status_t`
abbrev pub service_available : ℕ
service_available = 0

abbrev pub service_not_available : ℕ
service_not_available = 1

abbrev pub service_not_reliable : ℕ
service_not_reliable = 2

abbrev pub heartbeat_interval : ℕ
heartbeat_interval = 2000

abbrev pub request_timeout : ℕ
request_timeout = 5000

abbrev pub liveness : ℕ
liveness = 3

abbrev pub wcdping : ℕ
wcdping = 500

abbrev pub param_size : ℕ
param_size = 100

-- `registration_module`, as it travels
pub record RegistrationModule : Type 0 where
  pub signature : List ℕ
  pub service : ℕ

pub record RequestModule : Type 0 where
  pub service : ℕ
  pub parameters : List ℕ

pub record ResponseModule : Type 0 where
  pub service_status : ℕ
  pub result : ℕ

pub record ServiceModule : Type 0 where
  pub heartbeat : Bool
  pub seq_id : ℕ
  pub parameters : List ℕ

pub record ServerReply : Type 0 where
  pub heartbeat : Bool
  pub duplicated : Bool
  pub result : ℕ
  pub service : ℕ
  pub id : ℕ

-- The identity frame of `LENGTH_ID_FRAME` bytes: one byte, and the four that are read as a word.
pub record IdFrame : Type 0 where
  pub lead : ℕ
  pub client_id : ℕ

-- A message of `NUM_FRAMES` frames: the identity, the empty frame, and the data.
pub record Envelope (D : Type 0) : Type 0 where
  pub id_frame : IdFrame
  pub data_frame : D

-- `htonl`, `ntohl`, `htons` and `ntohs` of the C library.
pub record ByteOrder : Type 0 where
  pub htonl : ℕ → ℕ
  pub ntohl : ℕ → ℕ
  pub htons : ℕ → ℕ
  pub ntohs : ℕ → ℕ
  pub htonl_lt : (x : ℕ) → x < 2 ^ 32 → htonl x < 2 ^ 32
  pub ntohl_lt : (x : ℕ) → x < 2 ^ 32 → ntohl x < 2 ^ 32
  pub ntohl_htonl : (x : ℕ) → x < 2 ^ 32 → ntohl (htonl x) ≡ x
  pub ntohs_htons : (x : ℕ) → x < 2 ^ 16 → ntohs (htons x) ≡ x

-- `std::string(array)`: the bytes before the first NUL. With no NUL it reads past the array.
unfoldable pub c_string : List ℕ → Outcome (List ℕ)
c_string [] = undefined
c_string (c ∷ s) = let rest = c_string s in if c == 0 then ok [] else (rest >>= λ t. ok (c ∷ t))
