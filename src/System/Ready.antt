-- ===== src/System/Ready.antt =====
-- A broker that is ready for the request of a given number, and stays so while the replies to one come
-- in (src/broker/broker_class.cpp).
use reliable_service_framewo.Prelude.{
  ℕ, ◌+◌, ◌/◌, ◌^◌, ◌<◌, ◌≡◌, List, [], ◌∷◌, arith, Ensures, Ensures-bind, Ensures-after,
  Ensures-if, length-set,
}
use reliable_service_framewo.Prelude.Int.{ℤ, IsInt32, pos, ltb_ℤ, leb_ℤ, ◌==ℤ◌, negsuc}
use reliable_service_framewo.Prelude.Map.{lookup-insert_self}
use reliable_service_framewo.Wire.{
  ByteOrder, IdFrame, Envelope, RequestModule, heartbeat_interval, service_available,
  service_not_reliable,
}
use reliable_service_framewo.Time.{TimeSpec, time_add_ms}
use reliable_service_framewo.Database.{
  ServiceRecord, RequestRecord, put, push_to_client, push_result, get_result, delete_request,
  delete_client,
}
use reliable_service_framewo.Vote.{vote}
use reliable_service_framewo.Broker.{Broker, Output, index_of}
use reliable_service_framewo.Broker.Request.Accepted.{IsServing, queued_in, after_request}
use reliable_service_framewo.Broker.Response.{answer, decide, get_response}
use reliable_service_framewo.Broker.Response.Collect.{reply_of, get_response_lem}
use reliable_service_framewo.Broker.Response.Masking.{Arrival, AllInt32, collect}

-- The service has `copies` reliable copies, and the next request for it gets the number `seq`.
pub record Ready (service seq copies nmr : ℕ) (b : Broker) : Type 0 where
  pub serving : IsServing service b
  pub numbered : serving.entry.seq_id_request ≡ seq
  pub reliable : serving.entry.num_copies_reliable ≡ copies
  pub redundancy : b.nmr ≡ nmr

module _ (bo : ByteOrder) (id_frame : IdFrame) (service seq copies nmr : ℕ) where
  abbrev ReadyThen : Broker × List Output → Type 0
  ReadyThen p = Ready service seq copies nmr p.0

  put-Ready :
      (b : Broker) (h : Ready service seq copies nmr b) (q : List RequestRecord)
      → Ready service seq copies nmr
          (record b { db = put service (record (h.serving.entry) { request_records = q }) b.db })
  put-Ready b h q =
      let queued : ServiceRecord = record (h.serving.entry) { request_records = q } in
      record {
        serving = record {
          entry = queued;
          found = lookup-insert_self service queued b.db.services_db;
          dealer = h.serving.dealer;
          timed = h.serving.timed;
        };
        numbered = h.numbered;
        reliable = h.reliable;
        redundancy = h.redundancy;
      }

  answer-Ready :
      (status : ℕ) (result : ℤ) (b : Broker)
      → Ready service seq copies nmr b
      → Ensures ReadyThen (answer bo id_frame service status result b)
  unfolding answer delete_request
  answer-Ready status result b h =
      rw (h.serving.found)
        (put-Ready b h (delete_client id_frame.client_id h.serving.entry.request_records))

  decide-Ready :
      (n uninit : ℤ) (b : Broker)
      → Ready service seq copies nmr b
      → Ensures ReadyThen (decide bo id_frame service n uninit b)
  unfolding decide
  decide-Ready n uninit b h =
      let P = ReadyThen in
      Ensures-if P (ltb_ℤ (pos (b.nmr / 2)) n) _ _
        (Ensures-after P (get_result service id_frame.client_id b.db) _ λ values.
          Ensures-after P (vote b.nmr values uninit) _ λ voted.
            Ensures-if P (leb_ℤ (pos 0) voted.0) _ _ (answer-Ready service_available voted.1 b h) (
              Ensures-if P (n ==ℤ pos b.nmr) _ _ (answer-Ready service_not_reliable voted.1 b h) h))
        h

  reply-Ready :
      (id : ℕ) (x uninit : ℤ) (b : Broker)
      → service < 2 ^ 32
      → IsInt32 x
      → Ready service seq copies nmr b
      → Ensures ReadyThen (get_response bo (reply_of bo id_frame service id x) uninit b)
  unfolding push_result
  reply-Ready id x uninit b hs hx h =
      let pushed = push_to_client id_frame.client_id x h.serving.entry.request_records (negsuc 0) in
      rw (get_response_lem bo id_frame service id x uninit b hs hx)
        (rw (h.serving.found) (decide-Ready pushed.1 uninit _ (put-Ready b h pushed.0)))

  pub collect-Ready :
      (later : List Arrival) (b : Broker)
      → service < 2 ^ 32
      → AllInt32 bo id_frame service later
      → Ready service seq copies nmr b
      → Ensures ReadyThen (collect bo id_frame service later b)
  unfolding collect
  collect-Ready [] b hs hx h = h
  collect-Ready (a ∷ later) b hs hx h =
      Ensures-bind ReadyThen ReadyThen
        (get_response bo (reply_of bo id_frame service a.id a.value) a.uninit b) _
        (reply-Ready a.id a.value a.uninit b hs hx.0 h)
        λ first h'.
          Ensures-bind ReadyThen ReadyThen (collect bo id_frame service later first.0) _
            (collect-Ready later first.0 hs hx.1 h') λ rest h''. h''

-- The request itself.
pub after_request-Ready :
    (bo : ByteOrder) (e : Envelope RequestModule) (pushed postponed : TimeSpec) (b : Broker)
    (service seq copies nmr : ℕ)
    → bo.ntohl e.data_frame.service ≡ service
    → seq + 1 < 2 ^ 32
    → (h : Ready service seq copies nmr b)
    → Ready service (seq + 1) copies nmr (after_request bo e pushed postponed b h.serving.entry)
after_request-Ready bo e pushed postponed b service seq copies nmr named small h =
    let entry = h.serving.entry in
    let queued = queued_in bo e pushed entry in
    let store = lookup-insert_self (bo.ntohl e.data_frame.service) queued b.db.services_db in
    record {
      serving = record {
        entry = queued;
        found = rw named (rw named at store);
        dealer = h.serving.dealer;
        timed =
            rw
              (length-set b.timeouts (index_of (bo.ntohl e.data_frame.service) b.available_services)
                (time_add_ms postponed heartbeat_interval))
              h.serving.timed;
      };
      numbered = omega (arith, h.numbered);
      reliable = h.reliable;
      redundancy = h.redundancy;
    }
