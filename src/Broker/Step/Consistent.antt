-- ===== src/Broker/Step/Consistent.antt =====
-- What holds of the broker's vectors between two rounds of `step` (src/broker/broker_class.cpp).
use reliable_service_framewo.Prelude.{
  ℕ, ◌≡◌, ◌∙◌, List, [], ◌∷◌, length, length-append, length-set, Outcome, arith,
}
use reliable_service_framewo.Prelude.{
  ltb, Ensures, Ensures-bind, Ensures-after, in_bounds, Bool-cases, inl, inr, not, ◌&&◌,
}
use reliable_service_framewo.Prelude.Int.{negsuc, pos_part, ◌==ℤ◌}
use reliable_service_framewo.Wire.{
  ByteOrder, Envelope, RequestModule, RegistrationModule, heartbeat_interval,
}
use reliable_service_framewo.Time.{TimeSpec, time_add_ms}
use reliable_service_framewo.Database.{
  Database, Registered, find_registration, get_request_id, get_reliable_copies, push_request,
  push_registration,
}
use reliable_service_framewo.Database.Redundancy.{
  KeepsNmr, push_request-KeepsNmr, get_request_id-KeepsNmr, push_registration-KeepsNmr,
}
use reliable_service_framewo.Broker.{Broker, Output, update_timeout, index_of}
use reliable_service_framewo.Broker.Request.{get_request, forward, dealer_exists, new_request}
use reliable_service_framewo.Broker.Registration.{get_registration, make_available, contains}

-- Every available service has a dealer and a timeout, and the database has the broker's `nmr`.
pub record IsConsistent (b : Broker) : Type 0 where
  pub dealers_match : length b.dealers ≡ length b.available_services
  pub timeouts_match : length b.timeouts ≡ length b.available_services
  pub nmr_match : b.db.nmr ≡ b.nmr

-- What a handler leaves is consistent.
abbrev pub Keeps : Outcome (Broker × List Output) → Type 0
Keeps = Ensures (λ p. IsConsistent p.0)

-- A new database with the same redundancy.
pub with_db :
    (b : Broker) (db' : Database)
    → KeepsNmr b.db db'
    → IsConsistent b
    → IsConsistent (record b { db = db' })
with_db b db' same h = record {
  dealers_match = h.dealers_match;
  timeouts_match = h.timeouts_match;
  nmr_match = same ∙ h.nmr_match;
}

pub update_timeout-IsConsistent :
    (now : TimeSpec) (service : ℕ) (b : Broker)
    → IsConsistent b
    → Ensures IsConsistent (update_timeout now service b)
unfolding update_timeout
update_timeout-IsConsistent now service b h =
    let i = index_of service b.available_services in
    Ensures-after IsConsistent (in_bounds (ltb i (length b.timeouts))) _ λ _. record {
      dealers_match = h.dealers_match;
      timeouts_match =
          length-set b.timeouts i (time_add_ms now heartbeat_interval) ∙ h.timeouts_match;
      nmr_match = h.nmr_match;
    }

make_available-IsConsistent :
    (service : ℕ) (reg : Registered) (armed : TimeSpec) (b : Broker)
    → IsConsistent b
    → IsConsistent (make_available service reg armed b)
unfolding make_available
make_available-IsConsistent service reg armed b h =
    elim (Bool-cases (reg.ready && not (contains service b.available_services))) [
      | inl now_ready ↦ rw now_ready (record {
        dealers_match = omega (
          arith,
          h.dealers_match,
          length-append b.dealers (reg.port ∷ []),
          length-append b.available_services (service ∷ []),
        );
        timeouts_match = omega (
          arith,
          h.timeouts_match,
          length-append b.timeouts (time_add_ms armed heartbeat_interval ∷ []),
          length-append b.available_services (service ∷ []),
        );
        nmr_match = h.nmr_match;
      })
      | inr not_yet ↦ rw not_yet h
    ]

module _ (bo : ByteOrder) where
  pub get_request-Keeps :
      (e : Envelope RequestModule) (pushed postponed : TimeSpec) (uninit : ℕ) (b : Broker)
      → IsConsistent b
      → Keeps (get_request bo e pushed postponed uninit b)
  unfolding get_request forward
  get_request-Keeps e pushed postponed uninit b h =
      let service = bo.ntohl e.data_frame.service in
      let ret = find_registration service b.db in
      elim (Bool-cases (ret ==ℤ negsuc 0)) [
        | inl missing ↦ rw missing h
        | inr there ↦ rw there (
            Ensures-bind (λ p. KeepsNmr b.db p.0) (λ p. IsConsistent p.0)
              (get_request_id service b.db) _ (get_request_id-KeepsNmr service b.db)
              λ numbered same.
                Ensures-after (λ p. IsConsistent p.0) (get_reliable_copies service numbered.0) _
                  λ copies.
                    Ensures-after (λ p. IsConsistent p.0)
                      (in_bounds (dealer_exists copies (pos_part ret) b)) _
                      λ _.
                        Ensures-bind (KeepsNmr numbered.0) (λ p. IsConsistent p.0)
                          (push_request pushed (new_request e.id_frame.client_id) service
                            numbered.0)
                          _
                          (push_request-KeepsNmr service numbered.0 pushed
                            (new_request e.id_frame.client_id))
                          λ db' same'.
                            Ensures-bind IsConsistent (λ p. IsConsistent p.0)
                              (update_timeout postponed service (record b { db = db' })) _
                              (update_timeout-IsConsistent postponed service _
                                (with_db b db' (same' ∙ same) h))
                              λ b' h'. h')
      ]

  pub get_registration-Keeps :
      (e : Envelope RegistrationModule) (armed : TimeSpec) (b : Broker)
      → IsConsistent b
      → Keeps (get_registration bo e armed b)
  unfolding get_registration
  get_registration-Keeps e armed b h =
      let rm = record (e.data_frame) { service = bo.ntohl e.data_frame.service } in
      Ensures-bind (λ reg. KeepsNmr b.db reg.db) (λ p. IsConsistent p.0)
        (push_registration rm b.available_dealer_port b.db) _
        (push_registration-KeepsNmr rm b.available_dealer_port b.db)
        λ reg same. make_available-IsConsistent rm.service reg armed _ (record {
          dealers_match = h.dealers_match;
          timeouts_match = h.timeouts_match;
          nmr_match = same ∙ h.nmr_match;
        })
