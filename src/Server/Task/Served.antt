-- ===== src/Server/Task/Served.antt =====
-- A request on its way from `request_service` of the client (include/rsf_api.hpp) to the reply of
-- `task` (src/server/server_class.cpp).
use reliable_service_framewo.Prelude.{
  ℕ, zero, suc, ◌+◌, ◌*◌, ◌/◌, ◌%◌, ◌≤◌, ◌<◌, ◌≡◌, refl, false, some, List, [], ◌∷◌, ◌++◌, All,
  length, length-append, Bool-cases, inl, inr, ltb, Outcome, ok, arith,
}
use reliable_service_framewo.Prelude.Int.{ℤ, pos, negsuc, IsInt32, to_uint32}
use reliable_service_framewo.Wire.{ByteOrder, RequestModule, c_string}
use reliable_service_framewo.Params.{digits, to_string, serialize, deserialize}
use reliable_service_framewo.Params.RoundTrip.{deserialize-serialize}
use reliable_service_framewo.Client.{strcpy, make_request}
use reliable_service_framewo.Server.Task.{first_parameter, task}

-- No character is the NUL.
abbrev IsText : List ℕ → Type 0
IsText = All (λ c. 0 < c)

IsText-append : (s t : List ℕ) → IsText s → IsText t → IsText (s ++ t)
IsText-append [] t h k = k
IsText-append (c ∷ s) t h k = (h.0, IsText-append s t h.1 k)

c_string-append : (s rest : List ℕ) → IsText s → c_string (s ++ 0 ∷ rest) ≡ ok s
unfolding c_string
c_string-append [] rest h = refl
c_string-append (c ∷ s) rest h = ground (arith, c_string-append s rest h.1, h.0)

digits-IsText : (f n : ℕ) (out : List ℕ) → IsText out → IsText (digits f n out)
unfolding digits
digits-IsText zero n out h = h
digits-IsText (suc f) n out h = elim (Bool-cases (ltb n 10)) [
  | inl small ↦ rw small (omega arith, h)
  | inr large ↦ rw large (digits-IsText f (n / 10) ((b'0' + n % 10) ∷ out) (omega arith, h))
]

digits-length : (f n : ℕ) (out : List ℕ) → length (digits f n out) ≤ f + length out
unfolding digits
digits-length zero n out = omega arith
digits-length (suc f) n out = elim (Bool-cases (ltb n 10)) [
  | inl small ↦ rw small (omega arith)
  | inr large ↦ rw large (omega (arith, digits-length f (n / 10) ((b'0' + n % 10) ∷ out)))
]

to_string-IsText : (x : ℤ) → IsText (to_string x)
unfolding to_string
to_string-IsText (pos n) = digits-IsText 10 n [] tt
to_string-IsText (negsuc n) = (omega arith, digits-IsText 10 (suc n) [] tt)

to_string-length : (x : ℤ) → length (to_string x) ≤ 11
unfolding to_string
to_string-length (pos n) = omega (arith, digits-length 10 n [])
to_string-length (negsuc n) = omega (arith, digits-length 10 (suc n) [])

serialize-IsText : (xs : List ℤ) → IsText (serialize xs)
unfolding serialize
serialize-IsText [] = tt
serialize-IsText (x ∷ xs) =
    IsText-append (to_string x) (b' ' ∷ serialize xs) (to_string-IsText x)
      (omega arith, serialize-IsText xs)

serialize-length : (xs : List ℤ) → length (serialize xs) ≤ length xs * 12
unfolding serialize
serialize-length [] = omega arith
serialize-length (x ∷ xs) = omega (
  arith,
  length-append (to_string x) (b' ' ∷ serialize xs),
  to_string-length x,
  serialize-length xs,
)

first_parameter_lem :
    (text : List ℕ) (x unread : ℤ)
    → deserialize 1 text ≡ some (x ∷ [])
    → first_parameter text unread ≡ x
unfolding first_parameter
first_parameter_lem text x unread read = rw (read, first_parameter) refl

-- One argument.
module _ (bo : ByteOrder) (x : ℤ) where
  abbrev pub request_of : ℕ → List ℕ → RequestModule
  request_of service_type uninit = record {
    service = bo.htonl service_type;
    parameters = serialize (x ∷ []) ++ 0 ∷ uninit;
  }

  pub make_request_lem :
      (service_type : ℕ) (uninit : List ℕ)
      → make_request bo service_type (x ∷ []) uninit ≡ ok (request_of service_type uninit)
  unfolding make_request strcpy
  make_request_lem service_type uninit = ground (arith, serialize-length (x ∷ []))

  pub c_string-request_of :
      (service_type : ℕ) (uninit : List ℕ)
      → c_string (request_of service_type uninit).parameters ≡ ok (serialize (x ∷ []))
  c_string-request_of service_type uninit =
      c_string-append (serialize (x ∷ [])) uninit (serialize-IsText (x ∷ []))

  pub task_lem :
      (id service_type : ℕ) (service : ℤ → Outcome ℤ) (y unread : ℤ)
      → IsInt32 x
      → service x ≡ ok y
      → task bo id service_type service (serialize (x ∷ [])) unread
        ≡ ok (record {
          heartbeat = false;
          duplicated = false;
          result = bo.htonl (to_uint32 y);
          service = bo.htonl service_type;
          id = id;
        })
  unfolding task
  task_lem id service_type service y unread h returns =
      rw
        (
          first_parameter_lem (serialize (x ∷ [])) x unread
              (deserialize-serialize (x ∷ []) (h, tt)),
          returns,
        )
        refl

-- The request of a client with one `int32_t` argument fits its message, the server reads the text
-- that was sent, and for a service that returns on the argument the thread replies with the
-- returned value, for the service and the copy that it stands for.
pub task-make_request :
    (bo : ByteOrder) (id service_type : ℕ) (service : ℤ → Outcome ℤ) (x y unread : ℤ)
    (uninit : List ℕ)
    → IsInt32 x
    → service x ≡ ok y
    → (rm : RequestModule) × (text : List ℕ) × (make_request bo service_type (x ∷ []) uninit
        ≡ ok rm)
      × (rm.service ≡ bo.htonl service_type)
      × (c_string rm.parameters ≡ ok text)
      × (task bo id service_type service text unread
          ≡ ok (record {
            heartbeat = false;
            duplicated = false;
            result = bo.htonl (to_uint32 y);
            service = bo.htonl service_type;
            id = id;
          }))
task-make_request bo id service_type service x y unread uninit h returns = (
  request_of bo x service_type uninit,
  serialize (x ∷ []),
  make_request_lem bo x service_type uninit,
  refl,
  c_string-request_of bo x service_type uninit,
  task_lem bo x id service_type service y unread h returns,
)
