-- ===== src/Client/RoundTrip.antt =====
-- What a client reads from the responses of the broker (include/rsf_api.hpp,
-- src/broker/broker_class.cpp).
use reliable_service_framewo.Prelude.{ℕ, ◌≡◌, true, false, arith}
use reliable_service_framewo.Prelude.Int.{ℤ, IsInt32, to_uint32, to_int32-to_uint32, to_uint32-lt}
use reliable_service_framewo.Wire.{
  ByteOrder, ResponseModule, service_available, service_not_available, service_not_reliable,
}
use reliable_service_framewo.Client.{read_response}

-- A response as the broker makes it.
abbrev pub response_module : ByteOrder → ℕ → ℤ → ResponseModule
response_module bo status x = record {
  service_status = bo.htonl status;
  result = bo.htonl (to_uint32 x);
}

-- A client gets the `int32_t` result that the broker put into a response with status "available",
-- and with the two other statuses gets false and keeps its result variable.
pub read_response-statuses :
    (bo : ByteOrder) (x old : ℤ)
    → IsInt32 x
    → (read_response bo (response_module bo service_available x) old ≡ (true, x))
      × (read_response bo (response_module bo service_not_available x) old ≡ (false, old))
      × (read_response bo (response_module bo service_not_reliable x) old ≡ (false, old))
unfolding read_response
read_response-statuses bo x old h = ground (
  arith,
  bo.ntohl_htonl 0 (omega arith),
  bo.ntohl_htonl 1 (omega arith),
  bo.ntohl_htonl 2 (omega arith),
  bo.ntohl_htonl (to_uint32 x) (to_uint32-lt x h),
  to_int32-to_uint32 x h,
)
