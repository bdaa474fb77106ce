-- ===== src/Broker/Registration/Early.antt =====
-- `get_request` indexes `dealer` by the order of first registrations, while `get_registration` adds a
-- dealer when all copies are registered (src/broker/broker_class.cpp).
use reliable_service_framewo.Prelude.{
  ℕ, ◌+◌, ◌%◌, ◌^◌, ◌≤◌, ◌<◌, ◌≡◌, some, length, undefined, arith,
}
use reliable_service_framewo.Prelude.Map.{lookup-insert_self}
use reliable_service_framewo.Wire.{ByteOrder, Envelope, RequestModule}
use reliable_service_framewo.Time.{TimeSpec}
use reliable_service_framewo.Database.{
  ServiceRecord, find, find_registration, get_request_id, get_reliable_copies,
}
use reliable_service_framewo.Broker.{Broker}
use reliable_service_framewo.Broker.Request.{get_request, forward}

-- A request for a service with reliable copies, whose dealer index is beyond the dealers that
-- exist, is undefined behaviour.
pub get_request_undefined :
    (bo : ByteOrder) (e : Envelope RequestModule) (pushed postponed : TimeSpec) (uninit : ℕ)
    (b : Broker) (entry : ServiceRecord)
    → find (bo.ntohl e.data_frame.service) b.db ≡ some entry
    → 0 < entry.num_copies_reliable
    → length b.dealers ≤ entry.dealer_skt_index
    → get_request bo e pushed postponed uninit b ≡ undefined
unfolding get_request forward find_registration get_request_id get_reliable_copies
get_request_undefined bo e pushed postponed uninit b entry found copies beyond =
    let service = bo.ntohl e.data_frame.service in
    let numbered = record entry { seq_id_request = (entry.seq_id_request + 1) % 2 ^ 32 } in
    ground (arith, lookup-insert_self service numbered b.db.services_db)
