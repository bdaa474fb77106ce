-- ===== src/Database/Redundancy.antt =====
-- No method of the database (src/broker/service_database_class.cpp) changes its `nmr`.
use reliable_service_framewo.Prelude.{
  ℕ, ◌≡◌, refl, inl, inr, Ensures, Ensures-after, or_exit, or_undefined, in_bounds, Option-cases,
  Bool-cases, ltb, length,
}
use reliable_service_framewo.Prelude.Int.{ℤ}
use reliable_service_framewo.Wire.{RegistrationModule, c_string}
use reliable_service_framewo.Time.{TimeSpec}
use reliable_service_framewo.Database.{
  Database, RequestRecord, find, push_registration, push_request, delete_request, push_result,
  register_pong, check_pong, check_copies, get_request_id,
}

abbrev pub KeepsNmr : Database → Database → Type 0
KeepsNmr db db' = db'.nmr ≡ db.nmr

module _ (service : ℕ) (db : Database) where
  pub delete_request-KeepsNmr : (c : ℕ) → Ensures (KeepsNmr db) (delete_request service c db)
  unfolding delete_request
  delete_request-KeepsNmr c = Ensures-after (KeepsNmr db) (or_exit (find service db)) _ (λ r. refl)

  pub push_request-KeepsNmr :
      (now : TimeSpec) (rr : RequestRecord) → Ensures (KeepsNmr db) (push_request now rr service db)
  unfolding push_request
  push_request-KeepsNmr now rr =
      Ensures-after (KeepsNmr db) (or_exit (find service db)) _ (λ r. refl)

  pub push_result-KeepsNmr :
      (x : ℤ) (c : ℕ) → Ensures (λ p. KeepsNmr db p.0) (push_result service x c db)
  unfolding push_result
  push_result-KeepsNmr x c =
      Ensures-after (λ p. KeepsNmr db p.0) (or_exit (find service db)) _ (λ r. refl)

  pub register_pong-KeepsNmr : (id : ℕ) → Ensures (KeepsNmr db) (register_pong id service db)
  unfolding register_pong
  register_pong-KeepsNmr id =
      Ensures-after (KeepsNmr db) (or_exit (find service db)) _
        λ r. Ensures-after (KeepsNmr db) (in_bounds (ltb id (length r.new_pong))) _ (λ _. refl)

  pub check_pong-KeepsNmr : Ensures (KeepsNmr db) (check_pong service db)
  unfolding check_pong
  check_pong-KeepsNmr =
      Ensures-after (KeepsNmr db) (or_undefined (find service db)) _
        λ r. Ensures-after (KeepsNmr db) (check_copies db.nmr r.new_pong r.lost_pong) _ (λ _. refl)

  pub get_request_id-KeepsNmr : Ensures (λ p. KeepsNmr db p.0) (get_request_id service db)
  unfolding get_request_id
  get_request_id-KeepsNmr =
      Ensures-after (λ p. KeepsNmr db p.0) (or_exit (find service db)) _ (λ r. refl)

pub push_registration-KeepsNmr :
    (rm : RegistrationModule) (socket : ℕ) (db : Database)
    → Ensures (λ reg. KeepsNmr db reg.db) (push_registration rm socket db)
unfolding push_registration
push_registration-KeepsNmr rm socket db = elim (Option-cases (find rm.service db)) [
  | inl new ↦
      rw (new, push_registration)
        (Ensures-after (λ reg. KeepsNmr db reg.db) (c_string rm.signature) _ (λ _. refl))
  | inr (r, old) ↦
      rw (old, push_registration)
        (elim (Bool-cases (ltb r.num_copies_registered db.nmr)) [
          | inl fewer ↦ rw fewer refl
          | inr full ↦ rw full refl
        ])
]
