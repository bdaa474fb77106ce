-- ===== src/Database/Registration.antt =====
-- `push_registration` (src/broker/service_database_class.cpp) over the registrations of one service.
use reliable_service_framewo.Prelude.{
  ℕ, zero, suc, ◌+◌, ◌%◌, ◌^◌, ◌≤◌, ◌<◌, ◌≡◌, refl, ◌∙◌, inl, inr, Option-cases, Ensures-ok,
  Ensures-after, Bool, true, false, none, some, List, [], ◌∷◌, ◌++◌, replicate, Outcome, ok, ◌>>=◌,
  ◌==◌, arith,
}
use mathlib.Core.Path.{subst}
use reliable_service_framewo.Prelude.Map.{lookup-insert_self}
use reliable_service_framewo.Wire.{RegistrationModule, c_string}
use reliable_service_framewo.Database.{
  Database, ServiceRecord, Registered, find, put, new_record, push_registration, reg_fail,
}

-- The same registration `n` times: the ports that are returned, with `ready`, and the database.
unfoldable pub registrations :
    ℕ → RegistrationModule → ℕ → Database → Outcome (List (ℕ × Bool) × Database)
registrations zero rm socket db = ok ([], db)
registrations (suc n) rm socket db = do
  reg ← push_registration rm socket db
  rest ← registrations n rm reg.next_socket reg.db
  ok ((reg.port, reg.ready) ∷ rest.0, rest.1)

-- The service has `n` copies registered, and a dealer port.
pub record Copies (service port n : ℕ) (db : Database) : Type 0 where
  pub entry : ServiceRecord
  pub found : find service db ≡ some entry
  pub registered : entry.num_copies_registered ≡ n
  pub reliable : entry.num_copies_reliable ≡ n
  pub socket : entry.dealer_socket ≡ port

module _ (rm : RegistrationModule) (port : ℕ) where
  -- One more copy, while some are missing.
  one_more :
      (socket n : ℕ) (db : Database)
      → Copies rm.service port n db
      → n < db.nmr
      → db.nmr ≤ 255
      → (db' : Database) × (push_registration rm socket db
          ≡ ok (record { db = db'; next_socket = socket; ready = n + 1 == db.nmr; port = port }))
        × Copies rm.service port (n + 1) db'
        × (db'.nmr ≡ db.nmr)
  unfolding push_registration
  one_more socket n db c missing small =
      let after : ServiceRecord = record (c.entry) {
        num_copies_registered = (c.entry.num_copies_registered + 1) % 2 ^ 8;
        num_copies_reliable = (c.entry.num_copies_reliable + 1) % 2 ^ 8;
      } in
      (
        put rm.service after db,
        ground (arith, c.found, c.registered, c.socket),
        record {
          entry = after;
          found = lookup-insert_self rm.service after db.services_db;
          registered = omega (arith, c.registered);
          reliable = omega (arith, c.reliable);
          socket = c.socket;
        },
        refl,
      )

  -- The first copy of a new service.
  first_copy :
      (socket : ℕ) (owner : List ℕ) (db : Database)
      → socket ≡ port
      → find rm.service db ≡ none
      → c_string rm.signature ≡ ok owner
      → (db' : Database) × (next : ℕ) × (push_registration rm socket db
          ≡ ok (record { db = db'; next_socket = next; ready = false; port = port }))
        × Copies rm.service port 1 db'
        × (db'.nmr ≡ db.nmr)
  unfolding push_registration
  first_copy socket owner db same missing signed =
      let entry = new_record db owner socket in
      let db' : Database = record (put rm.service entry db) {
        next_dealer_skt_index = (db.next_dealer_skt_index + 1) % 2 ^ 16;
      } in
      (
        db',
        (socket + 1) % 2 ^ 16,
        ground (arith, missing, signed),
        record {
          entry = entry;
          found = lookup-insert_self rm.service entry db.services_db;
          registered = unfold new_record in refl;
          reliable = unfold new_record in refl;
          socket = unfold new_record in same;
        },
        refl,
      )

  -- A further copy is refused.
  one_too_many :
      (socket n : ℕ) (db : Database)
      → Copies rm.service port n db
      → n ≡ db.nmr
      → push_registration rm socket db
        ≡ ok (record { db = db; next_socket = socket; ready = false; port = reg_fail })
  unfolding push_registration
  one_too_many socket n db c full = ground (arith, c.found, c.registered)

  registrations-suc :
      (n socket : ℕ) (reg : Registered) (db db' : Database) (ports : List (ℕ × Bool))
      → push_registration rm socket db ≡ ok reg
      → registrations n rm reg.next_socket reg.db ≡ ok (ports, db')
      → registrations (suc n) rm socket db ≡ ok ((reg.port, reg.ready) ∷ ports, db')
  unfolding registrations
  registrations-suc n socket reg db db' ports e e' = rw (e, e')

  -- The last copy makes the service ready, and one more is refused.
  last-Copies :
      (k n socket : ℕ) (db : Database)
      → Copies rm.service port n db
      → n + suc k ≡ db.nmr
      → db.nmr ≤ 255
      → (db' : Database) × (registrations (suc (suc k)) rm socket db
          ≡ ok (replicate k (port, false) ++ (port, true) ∷ (reg_fail, false) ∷ [], db'))
        × Copies rm.service port db.nmr db'
        × (db'.nmr ≡ db.nmr)
  last-Copies zero n socket db c all small =
      let (db1, e, c', same) = one_more socket n db c (omega arith) small in
      let full : (n + 1 == db.nmr) ≡ true = ground arith in
      let refused = one_too_many socket (n + 1) db1 c' (omega arith) in
      (
        db1,
        registrations-suc 1 socket _ db db1 _ (rw full at e)
            (registrations-suc 0 socket _ db1 db1 [] refused (unfold registrations in refl)),
        subst (λ m. Copies rm.service port m db1) (omega arith) c',
        same,
      )
  last-Copies (suc k) n socket db c all small =
      let (db1, e, c', same) = one_more socket n db c (omega arith) small in
      let missing : (n + 1 == db.nmr) ≡ false = ground arith in
      let (db2, e', c'', same') = last-Copies k (n + 1) socket db1 c' (omega arith) (omega arith) in
      (
        db2,
        registrations-suc (suc (suc k)) socket _ db db2 _ (rw missing at e) e',
        subst (λ m. Copies rm.service port m db2) same c'',
        same' ∙ same,
      )

-- When copies of a new service register one after the other, with `nmr` from 2 to 255, each is
-- given the port of the first, exactly the last of the `nmr` copies makes the service ready, one
-- more is refused, and all `nmr` copies then count as registered and reliable.
pub registrations_lifecycle :
    (k : ℕ) (rm : RegistrationModule) (owner : List ℕ) (socket : ℕ) (db : Database)
    → db.nmr ≡ k + 2
    → db.nmr ≤ 255
    → find rm.service db ≡ none
    → c_string rm.signature ≡ ok owner
    → (db' : Database) × (registrations (k + 3) rm socket db
        ≡ ok (
          (socket, false) ∷ replicate k (socket, false) ++ (socket, true) ∷ (reg_fail, false) ∷ [],
          db',
        ))
      × Copies rm.service socket db.nmr db'
registrations_lifecycle k rm owner socket db many small missing signed =
    let (db1, next, e, c, same) = first_copy rm socket socket owner db refl missing signed in
    let (db2, e', c', same') = last-Copies rm socket k 1 next db1 c (omega arith) (omega arith) in
    let rounds : k + 3 ≡ suc (suc (suc k)) = omega arith in
    (
      db2,
      rw rounds (registrations-suc rm socket (suc (suc k)) socket _ db db2 _ e e'),
      subst (λ m. Copies rm.service socket m db2) same c',
    )

-- With a redundancy of one, and at least one copy counted for a service that is known, no
-- registration makes a service ready.
pub single_never_ready :
    (rm : RegistrationModule) (socket : ℕ) (db : Database) {reg : Registered}
    → db.nmr ≡ 1
    → ((r : ServiceRecord) → find rm.service db ≡ some r → 1 ≤ r.num_copies_registered)
    → push_registration rm socket db ≡ ok reg
    → reg.ready ≡ false
unfolding push_registration
single_never_ready rm socket db {reg} single counted e = elim (Option-cases (find rm.service db)) [
  | inl new ↦
      Ensures-ok (λ r. r.ready ≡ false) (push_registration rm socket db)
        (rw (new, push_registration)
          (Ensures-after (λ r. r.ready ≡ false) (c_string rm.signature) _ (λ owner. refl)))
        e
  | inr (r, old) ↦ ground (arith, counted r old)
]
