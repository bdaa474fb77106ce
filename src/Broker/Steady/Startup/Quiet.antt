-- ===== src/Broker/Steady/Startup/Quiet.antt =====
-- A broker with nothing to do until a message comes in (src/broker/broker_class.cpp): the loops of
-- `step` over timeouts and requests, and `get_registration`.
use reliable_service_framewo.Prelude.{
  ℕ, zero, suc, ◌+◌, ◌≡◌, refl, sym, ap, ◌∙◌, true, false, not, ◌&&◌, some, List, [], ◌∷◌, length,
  All, All-map, All-append, All-get_elem?, if◌then◌else◌, ltb, Ensures-if, Ensures-after, ok,
  Ensures, Ensures-bind, Bool-cases, Option-cases, inl, inr, arith, ◌==◌, ◌⊎◌,
}
use reliable_service_framewo.Prelude.Map.{lookup, insert, lookup-insert}
use reliable_service_framewo.Wire.{
  ByteOrder, Envelope, RegistrationModule, c_string, heartbeat_interval,
}
use reliable_service_framewo.Time.{TimeSpec, is_later, time_add_ms}
use reliable_service_framewo.Database.{
  ServiceRecord, find, append, Database, Registered, get_pending_requests, push_registration,
  new_record,
}
use reliable_service_framewo.Broker.{Broker}
use reliable_service_framewo.Broker.Registration.{
  get_registration, make_available, add_dealer, contains,
}
use reliable_service_framewo.Broker.Heartbeat.{expire_loop}
use reliable_service_framewo.Broker.Pending.{Sweep, sweep_services, sweep_requests}

-- No request is pending, the available services are known, and no timeout is over at any of the readings.
pub record IsQuiet (IsReading : TimeSpec → Type 0) (b : Broker) : Type 0 where
  pub none_waits : (s : ℕ) (r : ServiceRecord) → find s b.db ≡ some r → r.request_records ≡ []
  pub known : All (λ s. (r : ServiceRecord) × (find s b.db ≡ some r)) b.available_services
  pub early : All (λ t. (n : TimeSpec) → IsReading n → is_later n t ≡ false) b.timeouts

module _ (bo : ByteOrder) where
  pub sweep_services_idle :
      (now : TimeSpec) (i : ℕ) (ss : List ℕ) (s : Sweep)
      → ((t : ℕ) (r : ServiceRecord) → find t s.broker.db ≡ some r → r.request_records ≡ [])
      → All (λ t. (r : ServiceRecord) × (find t s.broker.db ≡ some r)) ss
      → sweep_services bo now i ss s ≡ ok s
  unfolding sweep_services sweep_requests get_pending_requests
  sweep_services_idle now i [] s none_waits known = refl
  sweep_services_idle now i (t ∷ ss) s none_waits ((r, found), known) =
      rw (found, none_waits t r found) (sweep_services_idle now (i + 1) ss s none_waits known)

  pub expire_loop_idle :
      (n i : ℕ) (now : TimeSpec) (uninit : List ℕ) (rearmed : TimeSpec) (b : Broker)
      → All (λ t. is_later now t ≡ false) b.timeouts
      → i + n ≡ length b.timeouts
      → expire_loop bo n i now uninit rearmed b ≡ ok (b, [])
  unfolding expire_loop
  expire_loop_idle zero i now uninit rearmed b early e = refl
  expire_loop_idle (suc n) i now uninit rearmed b early e =
      let (t, there, not_due) = All-get_elem? b.timeouts i early (omega arith) in
      rw (there, not_due, expire_loop_idle n (i + 1) now uninit rearmed b early (omega arith)) refl

module _ (IsReading : TimeSpec → Type 0) where
  -- A record with no pending requests is stored.
  stored-IsQuiet :
      (b b' : Broker) (s : ℕ) (r' : ServiceRecord)
      → IsQuiet IsReading b
      → r'.request_records ≡ []
      → b'.db.services_db ≡ insert s r' b.db.services_db
      → (b'.available_services ≡ b.available_services)
        ⊎ (b'.available_services ≡ append b.available_services s)
      → All (λ t. (n : TimeSpec) → IsReading n → is_later n t ≡ false) b'.timeouts
      → IsQuiet IsReading b'
  stored-IsQuiet b b' s r' h none_new stored services early =
      let at : (t : ℕ) → find t b'.db ≡ (if s == t then some r' else find t b.db) =
        λ t. ap (lookup t) stored ∙ lookup-insert s t r' b.db.services_db in
      let kept : (t : ℕ)
          → (r : ServiceRecord) × (find t b.db ≡ some r)
          → (r : ServiceRecord) × (find t b'.db ≡ some r) =
        λ t (r, found). elim (Bool-cases (s == t)) [
          | inl hit ↦ (r', rw hit at (at t))
          | inr miss ↦ (r, (rw miss at (at t)) ∙ found)
        ] in
      let old = All-map b.available_services kept h.known in
      record {
        none_waits = λ t r e. elim (Bool-cases (s == t)) [
          | inl hit ↦ let same : some r' ≡ some r = rw hit at (sym (at t) ∙ e) in cc
          | inr miss ↦ h.none_waits t r (rw miss at (sym (at t) ∙ e))
        ];
        known = elim services [
          | inl same ↦ rw same old
          | inr more ↦ rw more (
              All-append (λ t. (r : ServiceRecord) × (find t b'.db ≡ some r)) b.available_services s
                old (r', at s ∙ (let hit : (s == s) ≡ true = ground arith in rw hit refl)))
        ];
        early = early;
      }

  -- All readings are within the interval of one heartbeat.
  abbrev pub AreClose : Type 0
  AreClose =
      (n a : TimeSpec)
      → IsReading n
      → IsReading a
      → is_later n (time_add_ms a heartbeat_interval) ≡ false

  module _ (close : AreClose) (bo : ByteOrder) where
    available-IsQuiet :
        (b b1 : Broker) (s : ℕ) (r' : ServiceRecord) (reg : Registered) (armed : TimeSpec)
        → IsReading armed
        → IsQuiet IsReading b
        → r'.request_records ≡ []
        → b1.db.services_db ≡ insert s r' b.db.services_db
        → b1.available_services ≡ b.available_services
        → b1.timeouts ≡ b.timeouts
        → IsQuiet IsReading (make_available s reg armed b1)
    unfolding make_available add_dealer
    available-IsQuiet b b1 s r' reg armed reading h none_new stored services times =
        let old : All (λ t. (n : TimeSpec) → IsReading n → is_later n t ≡ false) b1.timeouts =
          rw times h.early in
        elim (Bool-cases (reg.ready && not (contains s b1.available_services))) [
          | inl new ↦ rw new (
              stored-IsQuiet b _ s r' h none_new stored (inr (rw services refl)) (
                All-append (λ t. (n : TimeSpec) → IsReading n → is_later n t ≡ false) b1.timeouts
                  (time_add_ms armed heartbeat_interval) old λ n k. close n armed k reading))
          | inr known ↦ rw known (stored-IsQuiet b b1 s r' h none_new stored (inl services) old)
        ]

    refused-IsQuiet :
        (b b1 : Broker) (s : ℕ) (reg : Registered) (armed : TimeSpec)
        → IsQuiet IsReading b
        → b1.db ≡ b.db
        → b1.available_services ≡ b.available_services
        → b1.timeouts ≡ b.timeouts
        → reg.ready ≡ false
        → IsQuiet IsReading (make_available s reg armed b1)
    unfolding make_available
    refused-IsQuiet b b1 s reg armed h same services times refused = rw refused (record {
      none_waits = rw same h.none_waits;
      known = rw (services, same) h.known;
      early = rw times h.early;
    })

    -- The record that a registration stores, unless it is refused.
    abbrev Stores : ℕ → Database → Registered → Type 0
    Stores s db reg =
        ((r' : ServiceRecord) × (r'.request_records ≡ [])
          × (reg.db.services_db ≡ insert s r' db.services_db))
        ⊎ ((reg.db ≡ db) × (reg.ready ≡ false))

    push_registration-Stores :
        (rm : RegistrationModule) (port : ℕ) (db : Database)
        → ((r : ServiceRecord) → find rm.service db ≡ some r → r.request_records ≡ [])
        → Ensures (Stores rm.service db) (push_registration rm port db)
    unfolding push_registration new_record
    push_registration-Stores rm port db none_waits =
        let Q = Stores rm.service db in
        elim (Option-cases (find rm.service db)) [
          | inl missing ↦
              rw (push_registration, missing)
                (Ensures-after Q (c_string rm.signature) _
                  λ owner. inl (new_record db owner port, refl, refl))
          | inr (r, found) ↦
              rw (push_registration, found)
                (Ensures-if Q (ltb r.num_copies_registered db.nmr) _ _
                  (inl (_, none_waits r found, refl)) (inr (refl, refl)))
        ]

    pub get_registration-IsQuiet :
        (e : Envelope RegistrationModule) (armed : TimeSpec) (b : Broker)
        → IsReading armed
        → IsQuiet IsReading b
        → Ensures (λ p. IsQuiet IsReading p.0) (get_registration bo e armed b)
    unfolding get_registration
    get_registration-IsQuiet e armed b reading h =
        let s = bo.ntohl e.data_frame.service in
        let rm = record (e.data_frame) { service = s } in
        Ensures-bind (Stores s b.db) (λ p. IsQuiet IsReading p.0)
          (push_registration rm b.available_dealer_port b.db) _
          (push_registration-Stores rm b.available_dealer_port b.db (h.none_waits s))
          λ reg stores. elim stores [
            | inl (r', none_new, stored) ↦
                available-IsQuiet b _ s r' reg armed reading h none_new stored refl refl
            | inr (same, refused) ↦ refused-IsQuiet b _ s reg armed h same refl refl refused
          ]
