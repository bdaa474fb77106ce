-- ===== src/Broker/Response/Collect.antt =====
-- `get_response` (src/broker/broker_class.cpp) for the replies to one request of a client: how they
-- are gathered, and when the client gets its answer.
use reliable_service_framewo.Prelude.{
  ℕ, ◌/◌, ◌^◌, ◌≤◌, ◌<◌, ◌≡◌, refl, ap, ◌∙◌, false, ◌&&◌, not, some, List, [], ◌∷◌, arith, ltb,
  ◌==◌, if◌then◌else◌, length, count_if, filter_if, count_if-le-length, ok, ◌>>=◌,
}
use reliable_service_framewo.Prelude.Int.{
  ℤ, pos, negsuc, IsInt32, ◌==ℤ◌, to_uint32, to_int32-to_uint32, to_uint32-lt,
}
use reliable_service_framewo.Prelude.Map.{lookup-insert_self}
use reliable_service_framewo.Wire.{
  ByteOrder, IdFrame, Envelope, ServerReply, service_available, service_not_reliable,
}
use reliable_service_framewo.Database.{
  ServiceRecord, RequestRecord, find, is_client, append, push_result, get_result, push_to_client,
  results_of_client, delete_request, delete_client, put,
}
use reliable_service_framewo.Database.Queue.Delete.{delete_client-filter}
use reliable_service_framewo.Database.Queue.Results.{
  push_to_client-results, push_to_client-count, push_to_client_none,
}
use reliable_service_framewo.Vote.Majority.{occurrences, IsOpen, vote_open, vote_majority}
use reliable_service_framewo.Broker.{Broker}
use reliable_service_framewo.Broker.Response.{response, answer, decide, get_response}

-- The client has exactly one pending request for the service, with these results so far.
pub record Pending (service client : ℕ) (values : List ℤ) (b : Broker) : Type 0 where
  pub entry : ServiceRecord
  pub found : find service b.db ≡ some entry
  pub once : count_if (is_client client) entry.request_records ≡ 1
  pub gathered : results_of_client client entry.request_records [] ≡ values

-- The client has no pending request for the service.
pub record Settled (service client : ℕ) (b : Broker) : Type 0 where
  pub entry : ServiceRecord
  pub found : find service b.db ≡ some entry
  pub gone : count_if (is_client client) entry.request_records ≡ 0

module _ (b : Broker) (service client : ℕ) (r : ServiceRecord) (values : List ℤ)
    (found : find service b.db ≡ some r) where
  pub get_result_lem :
      results_of_client client r.request_records [] ≡ values
      → get_result service client b.db ≡ ok values
  unfolding get_result
  get_result_lem h = rw (found, h)

count_if-filter_if :
    (c : ℕ) (rs : List RequestRecord)
    → count_if (is_client c) (filter_if (λ r. not (is_client c r)) rs) ≡ 0
count_if-filter_if c [] = refl
count_if-filter_if c (r ∷ rs) = ground (arith, count_if-filter_if c rs)

pub count_if-delete_client :
    (c : ℕ) (rs : List RequestRecord)
    → count_if (is_client c) rs ≤ 1
    → count_if (is_client c) (delete_client c rs) ≡ 0
count_if-delete_client c rs h = rw (delete_client-filter c rs h) (count_if-filter_if c rs)

module _ (bo : ByteOrder) (id_frame : IdFrame) (service : ℕ) (uninit : ℤ) (b : Broker) where
  pub decide_majority :
      (values : List ℤ) (v : ℤ)
      → get_result service id_frame.client_id b.db ≡ ok values
      → b.nmr ≤ 128
      → length values ≤ b.nmr
      → b.nmr / 2 < occurrences v values
      → decide bo id_frame service (pos (length values)) uninit b
        ≡ answer bo id_frame service service_available v b
  unfolding decide
  decide_majority values v got small short more =
      let (i, e) = vote_majority b.nmr values uninit v small short more in
      ground (arith, got, e, count_if-le-length (λ y. v ==ℤ y) values)

  pub decide_open :
      (values : List ℤ)
      → get_result service id_frame.client_id b.db ≡ ok values
      → b.nmr ≤ 128
      → length values ≤ b.nmr
      → IsOpen b.nmr values
      → decide bo id_frame service (pos (length values)) uninit b ≡ (
          if length values == b.nmr && ltb (b.nmr / 2) (length values)
          then answer bo id_frame service service_not_reliable uninit b
          else ok (b, []))
  unfolding decide
  decide_open values got small short none_more =
      let e = vote_open b.nmr values uninit (omega arith) none_more in ground (arith, got, e)

  -- An answer goes out, and the client's only request goes.
  pub answer_lem :
      (entry : ServiceRecord) (status : ℕ) (result : ℤ)
      → find service b.db ≡ some entry
      → count_if (is_client id_frame.client_id) entry.request_records ≤ 1
      → (b' : Broker) × (answer bo id_frame service status result b
          ≡ ok (b', response bo id_frame status result ∷ []))
        × Settled service id_frame.client_id b'
        × (b'.nmr ≡ b.nmr)
  unfolding answer delete_request
  answer_lem entry status result found once =
      let left = record entry {
        request_records = delete_client id_frame.client_id entry.request_records;
      } in
      (
        record b { db = put service left b.db },
        rw found,
        record {
          entry = left;
          found = lookup-insert_self service left b.db.services_db;
          gone = count_if-delete_client id_frame.client_id entry.request_records once;
        },
        refl,
      )

-- The reply of a copy with a result, as `task` of the server sends it.
abbrev pub reply_of : ByteOrder → IdFrame → ℕ → ℕ → ℤ → Envelope ServerReply
reply_of bo id_frame service id x = record {
  id_frame = id_frame;
  data_frame = record {
    heartbeat = false;
    duplicated = false;
    result = bo.htonl (to_uint32 x);
    service = bo.htonl service;
    id = id;
  };
}

module _ (bo : ByteOrder) (id_frame : IdFrame) (service id : ℕ) (x : ℤ) (uninit : ℤ)
    (b : Broker) where
  pub get_response_lem :
      service < 2 ^ 32
      → IsInt32 x
      → get_response bo (reply_of bo id_frame service id x) uninit b ≡ (
          push_result service x id_frame.client_id b.db >>= λ pushed.
          decide bo id_frame service pushed.1 uninit (record b { db = pushed.0 }))
  unfolding get_response
  get_response_lem hs hx = rw (
    bo.ntohl_htonl service hs,
    bo.ntohl_htonl (to_uint32 x) (to_uint32-lt x hx),
    to_int32-to_uint32 x hx,
  )

  -- A result that comes in while the request is pending is gathered, and the decision is made on all
  -- results so far.
  pub gather :
      (values : List ℤ)
      → service < 2 ^ 32
      → IsInt32 x
      → Pending service id_frame.client_id values b
      → (b' : Broker) × (get_response bo (reply_of bo id_frame service id x) uninit b
          ≡ decide bo id_frame service (pos (length (append values x))) uninit b')
        × Pending service id_frame.client_id (append values x) b'
        × (b'.nmr ≡ b.nmr)
  unfolding push_result
  gather values hs hx p =
      let pushed = push_to_client id_frame.client_id x p.entry.request_records (negsuc 0) in
      let after : ServiceRecord = record (p.entry) { request_records = pushed.0 } in
      let (read, counted) =
        push_to_client-results id_frame.client_id x p.entry.request_records [] (negsuc 0)
          (omega (arith, p.once)) in
      (
        record b { db = put service after b.db },
        get_response_lem hs hx ∙ rw (p.found, counted, p.gathered),
        record {
          entry = after;
          found = lookup-insert_self service after b.db.services_db;
          once =
              push_to_client-count id_frame.client_id id_frame.client_id x p.entry.request_records
                (negsuc 0)
              ∙ p.once;
          gathered = read ∙ ap (λ vs. append vs x) p.gathered;
        },
        refl,
      )

  -- A result that comes in after the answer changes nothing and is answered by nothing.
  pub late :
      service < 2 ^ 32
      → IsInt32 x
      → Settled service id_frame.client_id b
      → (b' : Broker) × (get_response bo (reply_of bo id_frame service id x) uninit b ≡ ok (b', []))
        × Settled service id_frame.client_id b'
  unfolding push_result decide
  late hs hx p = (
    record b { db = put service p.entry b.db },
    get_response_lem hs hx
        ∙ rw
            (
              p.found,
              push_to_client_none id_frame.client_id x p.entry.request_records (negsuc 0) p.gone,
            )
            (ground arith),
    record {
      entry = p.entry;
      found = lookup-insert_self service p.entry b.db.services_db;
      gone = p.gone;
    },
  )
