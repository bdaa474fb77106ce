-- ===== src/Database/Queue/Delete.antt =====
-- The loop of `delete_request` (src/broker/service_database_class.cpp), which goes on to `j + 1` also
-- after an erasure has moved the next record to `j`.
use mathlib.Core.List.{append_assoc, append-nil}
use reliable_service_framewo.Prelude.{
  ℕ, zero, suc, ◌+◌, ◌≤◌, ◌≡◌, refl, ap, Bool, true, false, not, inl, inr, some, List, [], ◌∷◌,
  ◌++◌, arith, length, get_elem?, erase_at, count_if, filter_if, length-append, Bool-cases,
  if◌then◌else◌, ltb,
}
use reliable_service_framewo.Database.Queue.{
  RequestRecord, is_client, append, delete_at, delete_loop, delete_client,
}

-- The records that are left, by recursion on the list: `skip` says that the last one was erased.
unfoldable pub survivors : ℕ → Bool → List RequestRecord → List RequestRecord
survivors c skip [] = []
survivors c true (r ∷ rs) = r ∷ survivors c false rs
survivors c false (r ∷ rs) = elim (is_client c r) [
  | true ↦ survivors c true rs
  | false ↦ r ∷ survivors c false rs
]

get_elem?-length :
    (done : List RequestRecord) (r : RequestRecord) (rs : List RequestRecord)
    → get_elem? (done ++ r ∷ rs) (length done) ≡ some r
get_elem?-length [] r rs = refl
get_elem?-length (d ∷ done) r rs = get_elem?-length done r rs

erase_at-length :
    (done : List RequestRecord) (r : RequestRecord) (rs : List RequestRecord)
    → erase_at (done ++ r ∷ rs) (length done) ≡ done ++ rs
erase_at-length [] r rs = refl
erase_at-length (d ∷ done) r rs = ap (◌∷◌ d) (erase_at-length done r rs)

-- One round on the record behind `done`.
delete_at-length :
    (c : ℕ) (done : List RequestRecord) (r : RequestRecord) (rs : List RequestRecord)
    → delete_at c (length done) (done ++ r ∷ rs)
      ≡ (if is_client c r then done ++ rs else done ++ r ∷ rs)
unfolding delete_at
delete_at-length c done r rs =
    rw (get_elem?-length done r rs, delete_at) (rw (erase_at-length done r rs))

in_list :
    (done : List RequestRecord) (r : RequestRecord) (rs : List RequestRecord)
    → ltb (length done) (length (done ++ r ∷ rs)) ≡ true
in_list done r rs = ground (arith, length-append done (r ∷ rs))

-- Past the end the loop stops at once.
delete_loop_end : (n c j : ℕ) (rs : List RequestRecord) → length rs ≤ j → delete_loop n c j rs ≡ rs
unfolding delete_loop
delete_loop_end zero c j rs h = refl
delete_loop_end (suc n) c j rs h = ground arith

delete_loop_step :
    (n c : ℕ) (done : List RequestRecord) (r : RequestRecord) (rs : List RequestRecord)
    → delete_loop (suc n) c (length done) (done ++ r ∷ rs)
      ≡ delete_loop n c (length done + 1) (if is_client c r then done ++ rs else done ++ r ∷ rs)
unfolding delete_loop
delete_loop_step n c done r rs = rw (in_list done r rs, delete_at-length c done r rs)

-- The loop goes on behind a record that stays.
pass :
    (n c : ℕ) (done : List RequestRecord) (r : RequestRecord) (rs left : List RequestRecord)
    → delete_loop n c (length (append done r)) (append done r ++ rs) ≡ append done r ++ left
    → delete_loop n c (length done + 1) (done ++ r ∷ rs) ≡ done ++ r ∷ left
pass n c done r rs left h =
    let e : length (append done r) ≡ length done + 1 = length-append done (r ∷ []) in
    rw (← append_assoc done (r ∷ []) rs, ← append_assoc done (r ∷ []) left, ← e) h

mutual
  unfolding survivors

  skipped :
      (rs : List RequestRecord) (n c : ℕ) (done : List RequestRecord)
      → length rs ≤ suc n
      → delete_loop n c (length done + 1) (done ++ rs) ≡ done ++ survivors c true rs
  skipped [] n c done h = rw append-nil (delete_loop_end n c (length done + 1) done (omega arith))
  skipped (r ∷ rs) n c done h =
      pass n c done r rs (survivors c false rs)
        (delete_loop-survivors rs n c (append done r) (omega arith))

  delete_loop-survivors :
      (rs : List RequestRecord) (n c : ℕ) (done : List RequestRecord)
      → length rs ≤ n
      → delete_loop n c (length done) (done ++ rs) ≡ done ++ survivors c false rs
  delete_loop-survivors [] n c done h =
      rw append-nil (delete_loop_end n c (length done) done (omega arith))
  delete_loop-survivors (r ∷ rs) zero c done h = absurd (omega arith)
  delete_loop-survivors (r ∷ rs) (suc n) c done h = elim (Bool-cases (is_client c r)) [
    | inl hit ↦
        rw (delete_loop_step n c done r rs)
          (rw (hit, survivors) (skipped rs n c done (omega arith)))
    | inr miss ↦ rw (delete_loop_step n c done r rs) (
        rw (miss, survivors)
          (pass n c done r rs (survivors c false rs)
            (delete_loop-survivors rs n c (append done r) (omega arith))))
  ]

-- The erasing loop over indices equals a recursion on the list that keeps every record behind an
-- erased one untested.
pub delete_client-survivors :
    (c : ℕ) (rs : List RequestRecord) → delete_client c rs ≡ survivors c false rs
unfolding delete_client
delete_client-survivors c rs = delete_loop-survivors rs (length rs) c [] (omega arith)

-- With no record of the client nothing goes.
survivors_none :
    (c : ℕ) (rs : List RequestRecord) (skip : Bool)
    → count_if (is_client c) rs ≡ 0
    → survivors c skip rs ≡ rs
unfolding survivors
survivors_none c [] skip h = refl
survivors_none c (r ∷ rs) true h = ap (◌∷◌ r) (survivors_none c rs false (ground arith))
survivors_none c (r ∷ rs) false h = ground (arith, survivors_none c rs false)

filter_if_none :
    (c : ℕ) (rs : List RequestRecord)
    → count_if (is_client c) rs ≡ 0
    → filter_if (λ r. not (is_client c r)) rs ≡ rs
filter_if_none c [] h = refl
filter_if_none c (r ∷ rs) h = ground (arith, filter_if_none c rs)

survivors_filter :
    (c : ℕ) (rs : List RequestRecord)
    → count_if (is_client c) rs ≤ 1
    → survivors c false rs ≡ filter_if (λ r. not (is_client c r)) rs
unfolding survivors
survivors_filter c [] h = refl
survivors_filter c (r ∷ rs) h =
    ground (arith, survivors_none c rs true, filter_if_none c rs, survivors_filter c rs)

-- Deleting the requests of a client that has at most one leaves exactly the requests of the
-- others, in their order.
pub delete_client-filter :
    (c : ℕ) (rs : List RequestRecord)
    → count_if (is_client c) rs ≤ 1
    → delete_client c rs ≡ filter_if (λ r. not (is_client c r)) rs
delete_client-filter c rs h = rw (delete_client-survivors c rs) (survivors_filter c rs h)

survivors_adjacent :
    (c : ℕ) (before after : List RequestRecord) (r s : RequestRecord)
    → count_if (is_client c) before ≡ 0
    → r.client_id ≡ c
    → survivors c false (before ++ r ∷ s ∷ after) ≡ before ++ s ∷ survivors c false after
unfolding survivors
survivors_adjacent c [] after r s h e = ground arith
survivors_adjacent c (b ∷ before) after r s h e =
    ground (arith, survivors_adjacent c before after r s)

-- Of two neighbouring requests of one client, the first of that client, only the first goes.
pub delete_client_adjacent :
    (c : ℕ) (before after : List RequestRecord) (r s : RequestRecord)
    → count_if (is_client c) before ≡ 0
    → r.client_id ≡ c
    → delete_client c (before ++ r ∷ s ∷ after) ≡ before ++ s ∷ delete_client c after
delete_client_adjacent c before after r s none_before hit =
    rw (delete_client-survivors c (before ++ r ∷ s ∷ after), delete_client-survivors c after)
      (survivors_adjacent c before after r s none_before hit)
