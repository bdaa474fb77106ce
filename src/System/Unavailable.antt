-- ===== src/System/Unavailable.antt =====
-- A call of `request_service` (include/rsf_api.hpp) for a service that the broker does not know.
use reliable_service_framewo.Prelude.{ℕ, ◌^◌, ◌<◌, ◌≡◌, false, none, List, [], ◌∷◌, map, ok, arith}
use reliable_service_framewo.Prelude.Int.{ℤ}
use reliable_service_framewo.Wire.{ByteOrder, IdFrame}
use reliable_service_framewo.Time.{TimeSpec}
use reliable_service_framewo.Database.{find, find_registration}
use reliable_service_framewo.Broker.{Broker}
use reliable_service_framewo.Broker.Request.{get_request}
use reliable_service_framewo.Client.{read_response}
use reliable_service_framewo.Server.Task.Served.{make_request_lem}
use reliable_service_framewo.System.{
  Part, request_service, on_dealer, deliver, receive_all, first_response,
}

-- When the broker knows no copy of a service (a 32-bit number), `request_service` with one
-- argument (of any value) returns false and leaves the client's result variable, the broker and
-- the copies as they were.
pub request_service_unavailable :
    (bo : ByteOrder) (id_frame : IdFrame) (uninit_parameters : List ℕ) (pushed postponed : TimeSpec)
    (uninit service : ℕ) (x old : ℤ) (parts : List Part) (b : Broker)
    → service < 2 ^ 32
    → find service b.db ≡ none
    → request_service bo id_frame uninit_parameters pushed postponed uninit service
        (x ∷ [])
        old
        parts
        b
      ≡ ok (b, map (λ p. p.0) parts, (false, old))
unfolding request_service get_request find_registration on_dealer deliver receive_all first_response
    read_response
request_service_unavailable bo id_frame uninit_parameters pushed postponed uninit service x old
      parts b hs unknown =
    rw (make_request_lem bo x service uninit_parameters, bo.ntohl_htonl service hs)
      (ground (arith, unknown, bo.ntohl_htonl 1 (omega arith)))
