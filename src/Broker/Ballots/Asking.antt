-- ===== src/Broker/Ballots/Asking.antt =====
-- A request (`get_request` of src/broker/broker_class.cpp) opens a ballot.
use reliable_service_framewo.Prelude.{
  ℕ, ◌≡◌, refl, ap, ◌∙◌, none, some, [], ◌∷◌, arith, Option-cases, inl, inr,
}
use reliable_service_framewo.Wire.{
  ByteOrder, Envelope, RequestModule, service_not_available, request_timeout, heartbeat_interval,
}
use reliable_service_framewo.Time.{TimeSpec, time_add_ms}
use reliable_service_framewo.Database.{ServiceRecord, find, put, find_registration}
use reliable_service_framewo.Broker.{Broker, to_client, index_of}
use reliable_service_framewo.Broker.Request.{get_request, new_request}
use reliable_service_framewo.Broker.Request.Accepted.{
  IsServing, copies_of, queued_in, after_request, get_request_lem,
}
use reliable_service_framewo.Broker.Ballots.{update, ask, ask_known, ask_unknown}
use reliable_service_framewo.Broker.Ballots.Queue.{
  waits, ballot_of, ballot_of-append, append-IsFair,
}
use reliable_service_framewo.Broker.Ballots.Kept.{Kept-refl, Kept-trans, put-Kept, set-Kept}
use reliable_service_framewo.Broker.Ballots.View.{
  election_of, ballot_if, election_of-put, IsRunning, put-IsRunning, set-IsRunning, heard-replicate,
  heard_not_available,
}
use reliable_service_framewo.Broker.Ballots.Voting.{Refines}
use reliable_service_framewo.Broker.Ballots.Events.{UnknownOrFree}

module _ (bo : ByteOrder) where
  unknown-Refines :
      (e : Envelope RequestModule) (pushed postponed : TimeSpec) (uninit : ℕ) (b : Broker)
      → IsRunning b
      → find (bo.ntohl e.data_frame.service) b.db ≡ none
      → Refines bo b
          (get_request bo e pushed postponed uninit b)
          (ask (bo.ntohl e.data_frame.service) e.id_frame.client_id e.id_frame (election_of b.db))
  unfolding get_request find_registration ask
  unknown-Refines e pushed postponed uninit b running missing =
      let spec =
        ask_unknown (bo.ntohl e.data_frame.service) e.id_frame.client_id e.id_frame
          (election_of b.db) (ap ballot_if missing) in
      rw spec (record {
        next = b;
        sent =
            to_client (record {
              id_frame = e.id_frame;
              data_frame = record {
                service_status = bo.htonl service_not_available;
                result = uninit;
              };
            })
            ∷ [];
        ran = ground (arith, missing);
        seen = refl;
        told = heard_not_available bo e.id_frame uninit;
        running = running;
        kept = Kept-refl b;
      })

  known-Refines :
      (e : Envelope RequestModule) (pushed postponed : TimeSpec) (uninit : ℕ) (b : Broker)
      (r : ServiceRecord)
      → IsRunning b
      → find (bo.ntohl e.data_frame.service) b.db ≡ some r
      → waits r.request_records e.id_frame.client_id ≡ 0
      → Refines bo b
          (get_request bo e pushed postponed uninit b)
          (ask (bo.ntohl e.data_frame.service) e.id_frame.client_id e.id_frame (election_of b.db))
  known-Refines e pushed postponed uninit b r running found none_waits =
      let service = bo.ntohl e.data_frame.service in
      let serving : IsServing service b = record {
        entry = r;
        found = found;
        dealer = running.dealt service r found;
        timed = running.timed service r found;
      } in
      let opened = record (new_request e.id_frame.client_id) {
        timeout = time_add_ms pushed request_timeout;
      } in
      let queued = queued_in bo e pushed r in
      let spec =
        ask_known service e.id_frame.client_id e.id_frame (election_of b.db)
          (ballot_of r.request_records) (ap ballot_if found) in
      rw spec (record {
        next = after_request bo e pushed postponed b r;
        sent = copies_of bo e r;
        ran = get_request_lem bo e pushed postponed uninit b serving;
        seen =
            election_of-put service queued b.db
            ∙ ap (λ q. update (election_of b.db) service (some q))
                (ballot_of-append r.request_records opened);
        told = heard-replicate bo r.num_copies_reliable r.dealer_skt_index _;
        running =
            set-IsRunning (record b { db = put service queued b.db })
              (index_of service b.available_services) (time_add_ms postponed heartbeat_interval)
              (put-IsRunning b service r queued running found refl refl (
                append-IsFair b.nmr r.request_records opened (running.fair service r found)
                  none_waits refl));
        kept =
            Kept-trans b (record b { db = put service queued b.db })
              (after_request bo e pushed postponed b r) (put-Kept b service r queued found refl)
              (set-Kept (record b { db = put service queued b.db })
                (index_of service b.available_services) (time_add_ms postponed heartbeat_interval));
      })

  pub request-Refines :
      (e : Envelope RequestModule) (pushed postponed : TimeSpec) (uninit : ℕ) (b : Broker)
      → IsRunning b
      → UnknownOrFree (election_of b.db (bo.ntohl e.data_frame.service)) e.id_frame.client_id
      → Refines bo b
          (get_request bo e pushed postponed uninit b)
          (ask (bo.ntohl e.data_frame.service) e.id_frame.client_id e.id_frame (election_of b.db))
  request-Refines e pushed postponed uninit b running free =
      elim (Option-cases (find (bo.ntohl e.data_frame.service) b.db)) [
        | inl missing ↦ unknown-Refines e pushed postponed uninit b running missing
        | inr (r, found) ↦
            let none_waits : ballot_of r.request_records e.id_frame.client_id ≡ none =
              rw found at free in
            known-Refines e pushed postponed uninit b r running found (ground (arith, none_waits))
      ]
