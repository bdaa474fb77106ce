-- ===== src/Broker/Pending/Misfire.antt =====
-- `check_pending_requests` (src/broker/broker_class.cpp) deletes an expired request from the service
-- whose type is its loop index, not from the service that the request was found at.
use reliable_service_framewo.Prelude.{ℕ, ◌≤◌, ◌≡◌, true, none, some, List, ◌∷◌, length, exits}
use reliable_service_framewo.Prelude.Int.{ℤ}
use reliable_service_framewo.Wire.{ByteOrder}
use reliable_service_framewo.Time.{TimeSpec, is_later}
use reliable_service_framewo.Database.{
  ServiceRecord, RequestRecord, find, delete_request, get_pending_requests,
}
use reliable_service_framewo.Vote.Majority.{vote-Verdict}
use reliable_service_framewo.Broker.{Broker}
use reliable_service_framewo.Broker.Pending.{
  give_up, sweep_requests, sweep_services, check_pending_requests,
}

-- The broker process exits when the service that became available first is not of type 0, no
-- service of type 0 is registered, and the first pending request of that service (with at most 128
-- results) has timed out.
pub check_pending_requests_exits :
    (bo : ByteOrder) (now : TimeSpec) (uninit : ℤ) (b : Broker) (service : ℕ) (others : List ℕ)
    (entry : ServiceRecord) (r : RequestRecord) (rs : List RequestRecord)
    → b.available_services ≡ service ∷ others
    → find service b.db ≡ some entry
    → find 0 b.db ≡ none
    → entry.request_records ≡ r ∷ rs
    → is_later now r.timeout ≡ true
    → length r.results ≤ 128
    → check_pending_requests bo now uninit b ≡ exits
unfolding check_pending_requests sweep_services sweep_requests give_up get_pending_requests
    delete_request
check_pending_requests_exits bo now uninit b service others entry r rs avail found missing queue
      late short =
    let (p, voted, _) = vote-Verdict b.nmr r.results uninit short in
    rw avail (rw found (rw queue (rw late (rw voted (rw missing)))))
