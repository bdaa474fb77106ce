-- ===== src/Broker/Steady/Startup.antt =====
-- How a service becomes available at a steady broker (`get_registration` of
-- src/broker/broker_class.cpp): the copies register one after the other.
pub mod Deployed
pub mod Started
pub mod Partial
pub mod Quiet
pub mod Loop
pub mod Rounds
use reliable_service_framewo.Prelude.{
  ℕ, zero, suc, ◌+◌, ◌%◌, ◌^◌, ◌≤◌, ◌<◌, ◌≡◌, refl, ap, ◌∙◌, false, true, not, ◌&&◌, ◌||◌, some,
  none, List, [], ◌∷◌, ◌++◌, ltb, ◌==◌, if◌then◌else◌, length, All, Outcome, ok, ◌>>=◌, Returns,
  Returns-bind, Option-cases, inl, inr, arith,
}
use reliable_service_framewo.Prelude.Map.{insert, lookup-insert_self, insert_twice}
use reliable_service_framewo.Wire.{
  ByteOrder, Envelope, RegistrationModule, heartbeat_interval, c_string,
}
use reliable_service_framewo.Time.{TimeSpec, time_add_ms}
use reliable_service_framewo.Database.{
  Database, ServiceRecord, find, put, new_record, push_registration, append,
}
use reliable_service_framewo.Broker.{Broker, Output, to_registrant}
use reliable_service_framewo.Broker.Registration.{
  get_registration, make_available, add_dealer, contains,
}
use reliable_service_framewo.Broker.Step.{Handler, idle, ◌then_run◌}
use reliable_service_framewo.Broker.Ballots.View.{heard}
use reliable_service_framewo.Broker.Steady.{AreNumbered, IsSteady, known_below}

-- A registration, with the reading of the clock that its handler takes.
abbrev pub Registering : Type 0
Registering = Envelope RegistrationModule × TimeSpec

contains-none :
    (i s : ℕ) (ss : List ℕ) → AreNumbered i ss → i + length ss ≤ s → contains s ss ≡ false
unfolding contains
contains-none i s [] numbered above = refl
contains-none i s (x ∷ ss) (e, numbered) above =
    ground (arith, e, contains-none (suc i) s ss numbered)

-- The service `s` in a broker that does not know it.
module _ (b : Broker) (s : ℕ) (owner : List ℕ) where
  -- With `k` of its copies registered.
  abbrev pub entry_with : ℕ → ServiceRecord
  entry_with k = record (new_record b.db owner b.available_dealer_port) {
    num_copies_registered = k;
    num_copies_reliable = k;
  }

  abbrev pub with_copies : ℕ → Broker
  with_copies k = record b {
    db = record (b.db) {
      services_db = insert s (entry_with k) b.db.services_db;
      next_dealer_skt_index = (b.db.next_dealer_skt_index + 1) % 2 ^ 16;
    };
    available_dealer_port = (b.available_dealer_port + 1) % 2 ^ 16;
  }

  -- With all of them.
  abbrev pub available_from : TimeSpec → Broker
  available_from armed = record (with_copies b.db.nmr) {
    dealers = append b.dealers b.available_dealer_port;
    available_services = append b.available_services s;
    timeouts = append b.timeouts (time_add_ms armed heartbeat_interval);
  }

module _ (bo : ByteOrder) where
  unfoldable pub register_all : List Registering → Handler
  register_all [] = idle
  register_all ((e, armed) ∷ es) = get_registration bo e armed then_run register_all es

  abbrev pub IsCopy : ℕ → Registering → Type 0
  IsCopy s (e, armed) = bo.ntohl e.data_frame.service ≡ s

  module _ (b : Broker) (s : ℕ) (owner : List ℕ) (e : Envelope RegistrationModule)
      (armed : TimeSpec) (h : IsSteady b) (its : bo.ntohl e.data_frame.service ≡ s)
      (next : s ≡ length b.available_services) (many : 2 ≤ b.db.nmr) (few : b.db.nmr ≤ 255) where
    abbrev pub told : List Output
    told = to_registrant e.id_frame (bo.htons b.available_dealer_port) ∷ []

    pub first_registration :
        find s b.db ≡ none
        → c_string e.data_frame.signature ≡ ok owner
        → get_registration bo e armed b ≡ ok (with_copies b s owner 1, told)
    unfolding get_registration push_registration make_available new_record
    first_registration missing signed = rw its (rw (push_registration, missing, signed) refl)

    pub further_registration :
        (k : ℕ)
        → 1 ≤ k
        → k + 1 < b.db.nmr
        → get_registration bo e armed (with_copies b s owner k)
          ≡ ok (with_copies b s owner (k + 1), told)
    unfolding get_registration push_registration make_available new_record
    further_registration k some_copies below =
        let fewer : ltb k b.db.nmr ≡ true = ground arith in
        let more : (k + 1) % 2 ^ 8 ≡ k + 1 = omega arith in
        let not_ready : (k + 1 == b.db.nmr) ≡ false = ground arith in
        rw its (
          rw
            (
              push_registration,
              lookup-insert_self s (entry_with b s owner k) b.db.services_db,
              fewer,
              more,
              not_ready,
              insert_twice s (entry_with b s owner k) (entry_with b s owner (k + 1))
                  b.db.services_db,
            )
            refl)

    last_registration :
        (k : ℕ)
        → k + 1 ≡ b.db.nmr
        → get_registration bo e armed (with_copies b s owner k)
          ≡ ok (available_from b s owner armed, told)
    unfolding get_registration push_registration make_available new_record add_dealer
    last_registration k all =
        let fewer : ltb k b.db.nmr ≡ true = ground arith in
        let more : (k + 1) % 2 ^ 8 ≡ b.db.nmr = omega arith in
        let ready : (b.db.nmr == b.db.nmr) ≡ true = ground arith in
        let new : contains s b.available_services ≡ false =
          contains-none 0 s b.available_services h.numbered (omega (arith, next)) in
        rw its (
          rw
            (
              push_registration,
              lookup-insert_self s (entry_with b s owner k) b.db.services_db,
              fewer,
              more,
              ready,
              new,
              insert_twice s (entry_with b s owner k) (entry_with b s owner b.db.nmr)
                  b.db.services_db,
            )
            refl)

  -- The copies of one service: the first with a signature that is a text.
  abbrev pub AreCopies : ℕ → List Registering → Type 0
  AreCopies s [] = Unit
  AreCopies s (first ∷ others) =
      All (IsCopy s) (first ∷ others)
      × ((owner : List ℕ) × (c_string (first.0).data_frame.signature ≡ ok owner))

  module _ (b : Broker) (s : ℕ) (h : IsSteady b) (next : s ≡ length b.available_services)
      (many : 2 ≤ b.db.nmr) (few : b.db.nmr ≤ 255) where
    -- What the last registration leaves.
    abbrev pub Registered : List ℕ → Broker × List Output → Type 0
    Registered owner p =
        (armed : TimeSpec) × (p.0 ≡ available_from b s owner armed) × (heard bo (p.1) ≡ [])

    others_register :
        (owner : List ℕ) (k : ℕ) (e : Registering) (es : List Registering)
        → 1 ≤ k
        → k + length (e ∷ es) ≡ b.db.nmr
        → All (IsCopy s) (e ∷ es)
        → Returns (Registered owner) (register_all (e ∷ es) (with_copies b s owner k))
    unfolding register_all heard
    others_register owner k (e, armed) [] some_copies all (its, tt_) =
        rw (last_registration b s owner e armed h its next many few k (omega arith))
          (armed, refl, refl)
    others_register owner k (e, armed) (e' ∷ es) some_copies all (its, later) =
        rw (further_registration b s owner e armed h its next many few k some_copies (omega arith))
          (Returns-bind (Registered owner) (Registered owner)
            (register_all (e' ∷ es) (with_copies b s owner (k + 1))) _
            (others_register owner (k + 1) e' es (omega arith) (omega arith) later) λ rest r. r)

    pub register_all-Registered :
        (es : List Registering)
        → length es ≡ b.db.nmr
        → AreCopies s es
        → (owner : List ℕ) × Returns (Registered owner) (register_all es b)
    unfolding register_all heard
    register_all-Registered [] all copies = absurd (omega arith)
    register_all-Registered (e ∷ []) all copies = absurd (omega arith)
    register_all-Registered ((e, armed) ∷ e' ∷ es) all ((its, later), (owner, signed)) =
        let missing : find s b.db ≡ none = elim (Option-cases (find s b.db)) [
          | inl gone ↦ gone
          | inr (r, found) ↦ absurd (omega (arith, known_below b s r h found))
        ] in
        (
          owner,
          rw (first_registration b s owner e armed h its next many few missing signed) (
              Returns-bind (Registered owner) (Registered owner)
                (register_all (e' ∷ es) (with_copies b s owner 1)) _
                (others_register owner 1 e' es (omega arith) (omega arith) later) λ rest r. r),
        )
