-- ===== src/System/Masking.antt =====
-- A request that reaches all copies of a service, some of which are down, refuse it, or compute
-- something wrong (include/rsf_api.hpp, src/broker/broker_class.cpp, src/server/server_class.cpp).
use reliable_service_framewo.Prelude.{
  ◌+◌, Ensures-ok, sym, ℕ, zero, suc, ◌/◌, ◌^◌, ◌≤◌, ◌<◌, ◌≡◌, refl, ap, ◌∙◌, true, false, Bool,
  Option, some, ◌==◌, List, [], ◌∷◌, ◌++◌, map, length, replicate, ok, arith, count_if,
}
use reliable_service_framewo.Prelude.Int.{ℤ, pos, pos_part, IsInt32}
use reliable_service_framewo.Wire.{
  ByteOrder, IdFrame, Envelope, ServiceModule, RequestModule, service_available,
  service_not_reliable,
}
use reliable_service_framewo.Time.{TimeSpec}
use reliable_service_framewo.Database.{is_client, Database, ServiceRecord, find, find_registration}
use reliable_service_framewo.Vote.Majority.{occurrences, IsOpen}
use reliable_service_framewo.Broker.{Broker, to_server}
use reliable_service_framewo.Broker.Request.{get_request}
use reliable_service_framewo.Broker.Request.Accepted.{
  after_request, get_request_lem, IsServing, copies_of, get_request_accepted,
}
use reliable_service_framewo.Broker.Response.{response}
use reliable_service_framewo.Broker.Response.Collect.{Pending, Settled}
use reliable_service_framewo.Broker.Response.Masking.{
  values_of, length-map_value, collect, collect_majority, collect_open,
}
use reliable_service_framewo.Client.{read_response}
use reliable_service_framewo.Client.RoundTrip.{response_module, read_response-statuses}
use reliable_service_framewo.Server.Task.Served.{request_of, make_request_lem}
use reliable_service_framewo.System.{Part, on_dealer, deliver, first_response, request_service}
use reliable_service_framewo.System.Ready.{Ready, collect-Ready, after_request-Ready}
use reliable_service_framewo.System.Replies.{
  AllReturn, returned, next_copy, replies_of, arrivals, receive_all-collect, arrivals_lem, message,
  deliver_lem,
}

on_dealer-replicate :
    (n d : ℕ) (e : Envelope ServiceModule)
    → on_dealer d (replicate n (to_server d e)) ≡ replicate n (to_server d e)
unfolding on_dealer
on_dealer-replicate zero d e = refl
on_dealer-replicate (suc n) d e =
    let same : (d == d) ≡ true = ground arith in rw (same, on_dealer-replicate n d e) refl

find_registration_lem :
    (service : ℕ) (db : Database) (r : ServiceRecord)
    → find service db ≡ some r
    → find_registration service db ≡ pos r.dealer_skt_index
unfolding find_registration
find_registration_lem service db r found = rw (found, find_registration) refl

module _ (bo : ByteOrder) (id_frame : IdFrame) (service : ℕ) (x : ℤ) (uninit_parameters : List ℕ)
    (hs : service < 2 ^ 32) (hx : IsInt32 x) where
  first_response_lem :
      (n i : ℕ) (e : Envelope ServiceModule) (status : ℕ) (y : ℤ)
      → first_response bo id_frame.client_id
          (replicate n (to_server i e) ++ response bo id_frame status y ∷ [])
        ≡ ok (response_module bo status y)
  unfolding first_response
  first_response_lem zero i e status y = ground arith
  first_response_lem (suc n) i e status y = first_response_lem n i e status y

  not_reliable_read :
      (y old : ℤ) → read_response bo (response_module bo service_not_reliable y) old ≡ (false, old)
  unfolding read_response
  not_reliable_read y old = rw (bo.ntohl_htonl 2 (omega arith)) refl

  -- The call.
  module _ (pushed postponed : TimeSpec) (uninit : ℕ) (old : ℤ) (b : Broker)
      (s : IsServing service b) where
    abbrev request : Envelope RequestModule
    request = record { id_frame = id_frame; data_frame = request_of bo x service uninit_parameters }

    accepted :
        count_if (is_client id_frame.client_id) s.entry.request_records ≡ 0
        → (b1 : Broker) × (get_request bo request pushed postponed uninit b
            ≡ ok (b1, copies_of bo request s.entry))
          × Pending service id_frame.client_id [] b1
          × (b1.nmr ≡ b.nmr)
          × (b1 ≡ after_request bo request pushed postponed b s.entry)
    accepted free =
        let named = bo.ntohl_htonl service hs in
        let serving : IsServing (bo.ntohl (bo.htonl service)) b = record {
          entry = s.entry;
          found = rw named s.found;
          dealer = s.dealer;
          timed = rw named s.timed;
        } in
        let (b1, asked, pending, same_nmr) =
          get_request_accepted bo request pushed postponed uninit b serving free in
        (
          b1,
          asked,
          record {
            entry = pending.entry;
            found = rw named at pending.found;
            once = pending.once;
            gathered = pending.gathered;
          },
          same_nmr,
          let known = get_request_lem bo request pushed postponed uninit b serving in
              let same : ok (b1, copies_of bo request s.entry)
                  ≡ ok (
                    after_request bo request pushed postponed b s.entry,
                    copies_of bo request s.entry,
                  ) =
                sym asked ∙ known in
              cc,
        )

    answered_by :
        (stop : ℕ) (ps : List (Part × Option ℤ)) (status : ℕ) (y : ℤ) (heard : Bool × ℤ)
        (b1 b2 : Broker)
        → length ps ≡ s.entry.num_copies_reliable
        → s.entry.seq_id_request < 2 ^ 32
        → s.entry.seq_id_request < stop
        → AllReturn service x s.entry.seq_id_request stop ps
        → get_request bo request pushed postponed uninit b ≡ ok (b1, copies_of bo request s.entry)
        → collect bo id_frame service (arrivals bo id_frame service ps) b1
          ≡ ok (b2, response bo id_frame status y ∷ [])
        → read_response bo (response_module bo status y) old ≡ heard
        → request_service bo id_frame uninit_parameters pushed postponed uninit service
            (x ∷ [])
            old
            (map (λ p. p.0) ps)
            b
          ≡ ok (b2, map (next_copy s.entry.seq_id_request) ps, heard)
    unfolding request_service
    answered_by stop ps status y heard b1 b2 all small before returns asked answered read =
        let here : on_dealer (pos_part (find_registration service b.db))
              (copies_of bo request s.entry)
            ≡ copies_of bo request s.entry =
          ap (λ d. on_dealer (pos_part d) (copies_of bo request s.entry))
            (find_registration_lem service b.db s.entry s.found)
          ∙ on_dealer-replicate s.entry.num_copies_reliable s.entry.dealer_skt_index _ in
        let delivered : deliver bo (copies_of bo request s.entry) (map (λ p. p.0) ps)
            ≡ ok (map (next_copy s.entry.seq_id_request) ps, replies_of bo id_frame service ps) =
          rw (← all) (
            deliver_lem bo id_frame service x uninit_parameters hx s.entry.dealer_skt_index
              s.entry.seq_id_request stop ps small before returns) in
        let arrived =
          first_response_lem s.entry.num_copies_reliable s.entry.dealer_skt_index
            (record {
              id_frame = id_frame;
              data_frame =
                  message bo id_frame service x uninit_parameters hx s.entry.seq_id_request;
            })
            status y in
        rw (make_request_lem bo x service uninit_parameters, asked)
          (rw (here, delivered, receive_all-collect bo id_frame service ps b1 ∙ answered)
            (rw (arrived, read) refl))

    -- A client with no pending request for a service calls `request_service` with one `int32_t`
    -- argument, at a broker that has a dealer and a timeout for the service and a number for the
    -- request that does not wrap, and each of the reliable copies (at most `nmr`, at most 128)
    -- gets the request: the copies that expect its number return some `int32_t` value each, and
    -- the others, which expect a number below it or from `stop` on, refuse it, or are down. If
    -- more than half of `nmr` copies return one `int32_t` value, then the call returns true with
    -- that value, the copies that served expect the next number, the broker gives the next request
    -- that number, and the client has no pending request afterwards.
    pub request_service_masks_faults :
        (stop : ℕ) (ps : List (Part × Option ℤ)) (y : ℤ)
        → count_if (is_client id_frame.client_id) s.entry.request_records ≡ 0
        → s.entry.seq_id_request + 1 < 2 ^ 32
        → s.entry.seq_id_request < stop
        → length ps ≡ s.entry.num_copies_reliable
        → length ps ≤ b.nmr
        → b.nmr ≤ 128
        → AllReturn service x s.entry.seq_id_request stop ps
        → b.nmr / 2 < occurrences y (returned ps)
        → IsInt32 y
        → (b' : Broker) × (request_service bo id_frame uninit_parameters pushed postponed uninit
              service
              (x ∷ [])
              old
              (map (λ p. p.0) ps)
              b
            ≡ ok (b', map (next_copy s.entry.seq_id_request) ps, (true, y)))
          × Settled service id_frame.client_id b'
          × Ready service (s.entry.seq_id_request + 1) s.entry.num_copies_reliable b.nmr b'
    request_service_masks_faults stop ps y free small before all few_parts few returns more hy =
        let (b1, asked, pending, same_nmr, behind) = accepted free in
        let (values, int32, short) =
          arrivals_lem bo id_frame service x ps s.entry.seq_id_request stop returns in
        let more' : b1.nmr / 2 < occurrences y (values_of (arrivals bo id_frame service ps)) =
          rw (same_nmr, values) more in
        let (b2, answered, settled) =
          collect_majority bo id_frame service [] (arrivals bo id_frame service ps) y b1 hs int32
            (omega arith) (omega arith) (λ v. omega arith) more' pending in
        (
          b2,
          answered_by stop ps service_available y (true, y) b1 b2 all (omega arith) before returns
              asked answered (read_response-statuses bo y old hy).0,
          settled,
          Ensures-ok
              (λ p.
                Ready service (s.entry.seq_id_request + 1) s.entry.num_copies_reliable b.nmr p.0)
              (collect bo id_frame service (arrivals bo id_frame service ps) b1)
              (collect-Ready bo id_frame service (s.entry.seq_id_request + 1)
                s.entry.num_copies_reliable b.nmr (arrivals bo id_frame service ps) b1 hs int32
                (rw behind (
                  after_request-Ready bo request pushed postponed b service s.entry.seq_id_request
                    s.entry.num_copies_reliable b.nmr (bo.ntohl_htonl service hs) small
                    (record { serving = s; numbered = refl; reliable = refl; redundancy = refl }))))
              answered,
        )

    -- When the copies that get such a request return `nmr` values (`nmr` from 1 to 128), none of
    -- them with a majority, then `request_service` returns false and leaves the client's result
    -- variable as it was, the copies that served expect the next number, and the client has no
    -- pending request afterwards.
    pub request_service_refuses :
        (stop : ℕ) (ps : List (Part × Option ℤ))
        → count_if (is_client id_frame.client_id) s.entry.request_records ≡ 0
        → s.entry.seq_id_request < 2 ^ 32
        → s.entry.seq_id_request < stop
        → length ps ≡ s.entry.num_copies_reliable
        → length (returned ps) ≡ b.nmr
        → 0 < b.nmr
        → b.nmr ≤ 128
        → AllReturn service x s.entry.seq_id_request stop ps
        → IsOpen b.nmr (returned ps)
        → (b' : Broker) × (request_service bo id_frame uninit_parameters pushed postponed uninit
              service
              (x ∷ [])
              old
              (map (λ p. p.0) ps)
              b
            ≡ ok (b', map (next_copy s.entry.seq_id_request) ps, (false, old)))
          × Settled service id_frame.client_id b'
    request_service_refuses stop ps free small before all everyone some_copies few returns nobody =
        let (b1, asked, pending, same_nmr, behind) = accepted free in
        let (values, int32, short) =
          arrivals_lem bo id_frame service x ps s.entry.seq_id_request stop returns in
        let arrived : length (arrivals bo id_frame service ps) ≡ b1.nmr = omega (
          arith,
          same_nmr,
          everyone,
          ap length values,
          length-map_value (arrivals bo id_frame service ps),
        ) in
        let nobody' : IsOpen b1.nmr (values_of (arrivals bo id_frame service ps)) =
          rw (same_nmr, values) nobody in
        let (result, b2, answered, settled) =
          collect_open bo id_frame service [] (arrivals bo id_frame service ps) b1 hs int32
            (omega arith) (omega arith) (omega arith) nobody' pending in
        (
          b2,
          answered_by stop ps service_not_reliable result (false, old) b1 b2 all small before
              returns asked answered (not_reliable_read result old),
          settled,
        )
