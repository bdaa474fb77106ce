-- ===== src/Broker/Pending/Expired.antt =====
-- `check_pending_requests` (src/broker/broker_class.cpp) where the loop index is the service type.
use reliable_service_framewo.Prelude.{
  ℕ, ◌≤◌, ◌≡◌, refl, ap, ◌∙◌, true, false, some, List, [], ◌∷◌, All, length, count_if, ok, ◌>>=◌,
  arith,
}
use reliable_service_framewo.Prelude.Int.{ℤ}
use reliable_service_framewo.Prelude.Map.{lookup-insert_self}
use reliable_service_framewo.Wire.{ByteOrder, service_not_reliable}
use reliable_service_framewo.Time.{TimeSpec, is_later}
use reliable_service_framewo.Database.{
  ServiceRecord, RequestRecord, find, put, is_client, delete_client, delete_request,
  get_pending_requests,
}
use reliable_service_framewo.Vote.Majority.{IsOpen, vote_open}
use reliable_service_framewo.Broker.{Broker, Output}
use reliable_service_framewo.Broker.Response.{response}
use reliable_service_framewo.Broker.Response.Collect.{Settled, count_if-delete_client}
use reliable_service_framewo.Broker.Pending.{
  Sweep, give_up, sweep_requests, sweep_services, check_pending_requests,
}

-- Requests whose timeout has not passed stay.
sweep_requests_early :
    (bo : ByteOrder) (now : TimeSpec) (i : ℕ) (rs : List RequestRecord) (s : Sweep)
    → All (λ q. is_later now q.timeout ≡ false) rs
    → sweep_requests bo now i rs s ≡ ok s
unfolding sweep_requests
sweep_requests_early bo now i [] s h = refl
sweep_requests_early bo now i (q ∷ rs) s h = rw h.0 (sweep_requests_early bo now i rs s h.1)

module _ (bo : ByteOrder) (now : TimeSpec) (uninit : ℤ) (b : Broker) (entry : ServiceRecord)
    (r : RequestRecord) (rs : List RequestRecord) where
  abbrev start : Sweep
  start = record { broker = b; result = uninit; sent = [] }

  abbrev left : ServiceRecord
  left = record entry { request_records = delete_client r.client_id entry.request_records }

  abbrev b_left : Broker
  b_left = record b { db = put 0 left b.db }

  abbrev refusal : Output
  refusal = response bo (record { lead = 0; client_id = r.client_id }) service_not_reliable uninit

  abbrev end : Sweep
  end = record { broker = b_left; result = uninit; sent = refusal ∷ [] }

  give_up_open :
      find 0 b.db ≡ some entry
      → length r.results ≤ 128
      → IsOpen b.nmr r.results
      → give_up bo now 0 r start ≡ ok end
  unfolding give_up delete_request
  give_up_open found short none_more =
      rw (vote_open b.nmr r.results uninit short none_more) (rw found refl)

  sweep_requests_first :
      is_later now r.timeout ≡ true
      → give_up bo now 0 r start ≡ ok end
      → All (λ q. is_later now q.timeout ≡ false) rs
      → sweep_requests bo now 0 (r ∷ rs) start ≡ ok end
  unfolding sweep_requests
  sweep_requests_first late given early =
      rw (late, given) (sweep_requests_early bo now 0 rs end early)

  sweep_services_first :
      find 0 b.db ≡ some entry
      → entry.request_records ≡ r ∷ rs
      → sweep_requests bo now 0 (r ∷ rs) start ≡ ok end
      → sweep_services bo now 0 (0 ∷ []) start ≡ ok end
  unfolding sweep_services get_pending_requests
  sweep_services_first found queue swept =
      rw found (ap (λ q. sweep_requests bo now 0 q start >>= ok) queue ∙ ap (λ m. m >>= ok) swept)

  -- With the service of type 0 the only one available, and its first pending request the only one
  -- whose timeout has passed and the only one of its client: when no value has a majority among
  -- its results, at most 128, the client is told exactly once that the service is not reliable,
  -- and has no pending request afterwards.
  pub check_pending_requests-Settled :
      b.available_services ≡ 0 ∷ []
      → find 0 b.db ≡ some entry
      → entry.request_records ≡ r ∷ rs
      → is_later now r.timeout ≡ true
      → All (λ q. is_later now q.timeout ≡ false) rs
      → count_if (is_client r.client_id) rs ≡ 0
      → length r.results ≤ 128
      → IsOpen b.nmr r.results
      → (b' : Broker) × (check_pending_requests bo now uninit b
          ≡ ok (
            b',
            response bo (record { lead = 0; client_id = r.client_id }) service_not_reliable uninit
                ∷ [],
          ))
        × Settled 0 r.client_id b'
  unfolding check_pending_requests
  check_pending_requests-Settled avail found queue late early once short none_more =
      let given = give_up_open found short none_more in
      let swept = sweep_services_first found queue (sweep_requests_first late given early) in
      (
        b_left,
        ap (λ l. sweep_services bo now 0 l start >>= λ s. ok (s.broker, s.sent)) avail
            ∙ ap (λ m. m >>= λ s. ok (s.broker, s.sent)) swept,
        record {
          entry = left;
          found = lookup-insert_self 0 left b.db.services_db;
          gone =
              count_if-delete_client r.client_id entry.request_records
                (rw queue (ground (arith, once)));
        },
      )
