-- ===== src/Broker/Request/Accepted.antt =====
-- A request that is accepted, and the way to its answer (`get_request` and `get_response` of
-- src/broker/broker_class.cpp).
use reliable_service_framewo.Prelude.{
  ℕ, ◌+◌, ◌/◌, ◌%◌, ◌^◌, ◌≤◌, ◌<◌, ◌≡◌, refl, ◌∙◌, ap, false, some, List, [], ◌∷◌, ◌++◌, length,
  replicate, count_if, ok, arith, set,
}
use reliable_service_framewo.Prelude.Int.{ℤ}
use reliable_service_framewo.Prelude.Map.{lookup-insert_self, insert_twice}
use reliable_service_framewo.Wire.{
  ByteOrder, Envelope, RequestModule, service_available, request_timeout, heartbeat_interval,
}
use reliable_service_framewo.Time.{TimeSpec, time_add_ms}
use reliable_service_framewo.Database.{
  ServiceRecord, RequestRecord, find, find_registration, get_request_id, get_reliable_copies,
  push_request, is_client, append, put, results_of_client,
}
use reliable_service_framewo.Vote.Majority.{occurrences}
use reliable_service_framewo.Broker.{Broker, Output, to_server, index_of, update_timeout}
use reliable_service_framewo.Broker.Request.{get_request, forward, new_request}
use reliable_service_framewo.Broker.Response.{response}
use reliable_service_framewo.Broker.Step.{◌then_run◌}
use reliable_service_framewo.Broker.Response.Collect.{Pending, Settled}
use reliable_service_framewo.Broker.Response.Masking.{
  Arrival, values_of, AllInt32, collect, collect_majority,
}

count_if-append :
    (c : ℕ) (rs : List RequestRecord) (r : RequestRecord)
    → r.client_id ≡ c
    → count_if (is_client c) (append rs r) ≡ count_if (is_client c) rs + 1
count_if-append c [] r h = ground arith
count_if-append c (x ∷ rs) r h = ground (arith, count_if-append c rs r h)

results_of_client-append :
    (c : ℕ) (rs : List RequestRecord) (r : RequestRecord) (old : List ℤ)
    → r.client_id ≡ c
    → results_of_client c (append rs r) old ≡ r.results
unfolding results_of_client
results_of_client-append c [] r old h = ground arith
results_of_client-append c (x ∷ rs) r old h =
    ground
      (arith, results_of_client-append c rs r old h, results_of_client-append c rs r x.results h)

-- The broker can serve the service: it has the record, a dealer, and a timeout.
pub record IsServing (service : ℕ) (b : Broker) : Type 0 where
  pub entry : ServiceRecord
  pub found : find service b.db ≡ some entry
  pub dealer : entry.dealer_skt_index < length b.dealers
  pub timed : index_of service b.available_services < length b.timeouts

module _ (bo : ByteOrder) (e : Envelope RequestModule) where
  abbrev service_of : ℕ
  service_of = bo.ntohl e.data_frame.service

  -- The copies of a request for the servers.
  abbrev pub copies_of : ServiceRecord → List Output
  copies_of entry = replicate entry.num_copies_reliable (
      to_server entry.dealer_skt_index (record {
        id_frame = e.id_frame;
        data_frame = record {
          heartbeat = false;
          seq_id = bo.htonl entry.seq_id_request;
          parameters = e.data_frame.parameters;
        };
      }))

  -- The record of the service behind the request.
  abbrev pub queued_in : TimeSpec → ServiceRecord → ServiceRecord
  queued_in pushed entry = record entry {
    seq_id_request = (entry.seq_id_request + 1) % 2 ^ 32;
    request_records = append entry.request_records (record (new_request e.id_frame.client_id) {
      timeout = time_add_ms pushed request_timeout;
    });
  }

  -- The broker behind the request.
  abbrev pub after_request : TimeSpec → TimeSpec → Broker → ServiceRecord → Broker
  after_request pushed postponed b entry = record b {
    db = put service_of (queued_in pushed entry) b.db;
    timeouts =
        set b.timeouts (index_of service_of b.available_services)
          (time_add_ms postponed heartbeat_interval);
  }

  pub get_request_lem :
      (pushed postponed : TimeSpec) (uninit : ℕ) (b : Broker)
      → (s : IsServing (bo.ntohl e.data_frame.service) b)
      → get_request bo e pushed postponed uninit b
        ≡ ok (after_request pushed postponed b s.entry, copies_of s.entry)
  unfolding get_request forward find_registration get_request_id get_reliable_copies push_request
      update_timeout
  get_request_lem pushed postponed uninit b s =
      let numbered : ServiceRecord = record (s.entry) {
        seq_id_request = (s.entry.seq_id_request + 1) % 2 ^ 32;
      } in
      ground (
        arith,
        s.found,
        s.dealer,
        s.timed,
        lookup-insert_self service_of numbered b.db.services_db,
        insert_twice service_of numbered (queued_in pushed s.entry) b.db.services_db,
      )

  -- A request for a service with a dealer and a timeout, of a client that has none pending for it,
  -- goes to as many copies as are reliable under the service's request number, and is pending
  -- afterwards with no result.
  pub get_request_accepted :
      (pushed postponed : TimeSpec) (uninit : ℕ) (b : Broker)
      → (s : IsServing (bo.ntohl e.data_frame.service) b)
      → count_if (is_client e.id_frame.client_id) s.entry.request_records ≡ 0
      → (b' : Broker) × (get_request bo e pushed postponed uninit b ≡ ok (b', copies_of s.entry))
        × Pending (bo.ntohl e.data_frame.service) e.id_frame.client_id [] b'
        × (b'.nmr ≡ b.nmr)
  get_request_accepted pushed postponed uninit b s none_pending =
      let entry = s.entry in
      let c = e.id_frame.client_id in
      let queued = queued_in pushed entry in
      let rr : RequestRecord = record (new_request c) {
        timeout = time_add_ms pushed request_timeout;
      } in
      (
        after_request pushed postponed b entry,
        get_request_lem pushed postponed uninit b s,
        record {
          entry = queued;
          found = lookup-insert_self service_of queued b.db.services_db;
          once = count_if-append c entry.request_records rr refl ∙ ap (λ n. n + 1) none_pending;
          gathered = results_of_client-append c entry.request_records rr [] refl;
        },
        refl,
      )

  -- A client with no pending request for a service, with a dealer and a timeout, sends one, and at
  -- most `nmr` (at most 128) replies to it with `int32_t` results come in, in any order: if more
  -- than half of `nmr` of them carry one value, then the broker sends the request to the reliable
  -- copies and answers the client exactly once, with that value, and the client has no pending
  -- request afterwards.
  pub request_masks_faults :
      (pushed postponed : TimeSpec) (uninit : ℕ) (replies : List Arrival) (v : ℤ) (b : Broker)
      → (s : IsServing (bo.ntohl e.data_frame.service) b)
      → count_if (is_client e.id_frame.client_id) s.entry.request_records ≡ 0
      → bo.ntohl e.data_frame.service < 2 ^ 32
      → AllInt32 bo e.id_frame (bo.ntohl e.data_frame.service) replies
      → b.nmr ≤ 128
      → length replies ≤ b.nmr
      → b.nmr / 2 < occurrences v (values_of replies)
      → (b' : Broker) × ((get_request bo e pushed postponed uninit
              then_run collect bo e.id_frame service_of replies)
            b
          ≡ ok (b', copies_of s.entry ++ response bo e.id_frame service_available v ∷ []))
        × Settled (bo.ntohl e.data_frame.service) e.id_frame.client_id b'
  request_masks_faults pushed postponed uninit replies v b s none_pending hs hx small few more =
      let (b1, sent, pending, same) =
        get_request_accepted pushed postponed uninit b s none_pending in
      let (b2, answered, settled) =
        collect_majority bo e.id_frame service_of [] replies v b1 hs hx (omega arith) (omega arith)
          (λ w. omega arith) (rw same more) pending in
      (b2, rw (sent, answered), settled)
