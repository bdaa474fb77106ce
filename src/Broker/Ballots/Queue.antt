-- ===== src/Broker/Ballots/Queue.antt =====
-- The pending requests of one service as a ballot, and what the loops of
-- src/broker/service_database_class.cpp do to it.
use mathlib.Core.Path.{fun_ext}
use reliable_service_framewo.Prelude.{
  ℕ, ◌+◌, ◌≤◌, ◌<◌, ◌≡◌, refl, ◌≢◌, not, none, some, List, [], ◌∷◌, ltb, ◌==◌, if◌then◌else◌,
  length, All, count_if, filter_if, arith, Bool-cases, inl, inr,
}
use reliable_service_framewo.Prelude.Int.{ℤ, IsInt32}
use reliable_service_framewo.Database.{
  RequestRecord, is_client, append, delete_client, push_to_client, results_of_client,
}
use reliable_service_framewo.Database.Queue.Delete.{delete_client-filter}
use reliable_service_framewo.Database.Queue.Results.{
  push_to_client-results, push_to_client-other, push_to_client-count,
}
use reliable_service_framewo.Vote.Majority.{IsOpen}
use reliable_service_framewo.Broker.Ballots.{Ballot, update}

abbrev pub waits : List RequestRecord → ℕ → ℕ
waits rs c = count_if (is_client c) rs

abbrev pub votes_of : List RequestRecord → ℕ → List ℤ
votes_of rs c = results_of_client c rs []

abbrev pub ballot_of : List RequestRecord → Ballot
ballot_of rs c = if ltb 0 (waits rs c) then some (votes_of rs c) else none

-- No client waits twice, and who waits has fewer than `nmr` votes so far, with no majority among them.
pub record IsFair (nmr : ℕ) (rs : List RequestRecord) : Type 0 where
  pub once : (c : ℕ) → waits rs c ≤ 1
  pub missing : (c : ℕ) → length (votes_of rs c) < nmr
  pub int32 : (c : ℕ) → All IsInt32 (votes_of rs c)
  pub undecided : (c : ℕ) → IsOpen nmr (votes_of rs c)

results_of_client-append :
    (c : ℕ) (rs : List RequestRecord) (r : RequestRecord) (old : List ℤ)
    → results_of_client c (append rs r) old
      ≡ (if is_client c r then r.results else results_of_client c rs old)
unfolding results_of_client
results_of_client-append c [] r old = refl
results_of_client-append c (q ∷ rs) r old =
    results_of_client-append c rs r (if is_client c q then q.results else old)

waits-append :
    (c : ℕ) (rs : List RequestRecord) (r : RequestRecord)
    → waits (append rs r) c ≡ waits rs c + (if is_client c r then 1 else 0)
waits-append c [] r = ground arith
waits-append c (q ∷ rs) r = ground (arith, waits-append c rs r)

-- A new request opens the ballot of its client.
pub ballot_of-append :
    (rs : List RequestRecord) (r : RequestRecord)
    → ballot_of (append rs r) ≡ update (ballot_of rs) r.client_id (some r.results)
ballot_of-append rs r =
    fun_ext λ c. ground (arith, results_of_client-append c rs r [], waits-append c rs r)

pub append-IsFair :
    (nmr : ℕ) (rs : List RequestRecord) (r : RequestRecord)
    → IsFair nmr rs
    → waits rs r.client_id ≡ 0
    → r.results ≡ []
    → IsFair nmr (append rs r)
append-IsFair nmr rs r h none_waits fresh = record {
  once = λ c. ground (arith, waits-append c rs r, h.once c);
  missing = λ c. ground (arith, results_of_client-append c rs r [], h.missing c);
  int32 = λ c. rw (results_of_client-append c rs r []) (elim (Bool-cases (is_client c r)) [
    | inl hit ↦ rw hit (rw fresh tt)
    | inr miss ↦ rw miss (h.int32 c)
  ]);
  undecided = λ c v. rw (results_of_client-append c rs r []) (elim (Bool-cases (is_client c r)) [
    | inl hit ↦ rw hit (rw fresh (omega arith))
    | inr miss ↦ rw miss (h.undecided c v)
  ]);
}

waits-filter_self :
    (c : ℕ) (rs : List RequestRecord) → waits (filter_if (λ r. not (is_client c r)) rs) c ≡ 0
waits-filter_self c [] = refl
waits-filter_self c (r ∷ rs) = ground (arith, waits-filter_self c rs)

waits-filter_ne :
    (c d : ℕ) (rs : List RequestRecord)
    → c ≢ d
    → waits (filter_if (λ r. not (is_client c r)) rs) d ≡ waits rs d
waits-filter_ne c d [] h = refl
waits-filter_ne c d (r ∷ rs) h = ground (arith, waits-filter_ne c d rs)

results_of_client-filter_ne :
    (c d : ℕ) (rs : List RequestRecord) (old : List ℤ)
    → c ≢ d
    → results_of_client d (filter_if (λ r. not (is_client c r)) rs) old ≡ results_of_client d rs old
unfolding results_of_client
results_of_client-filter_ne c d [] old h = refl
results_of_client-filter_ne c d (r ∷ rs) old h =
    ground
      (arith, results_of_client-filter_ne c d rs old, results_of_client-filter_ne c d rs r.results)

results_of_client-filter_self :
    (c : ℕ) (rs : List RequestRecord) (old : List ℤ)
    → results_of_client c (filter_if (λ r. not (is_client c r)) rs) old ≡ old
unfolding results_of_client
results_of_client-filter_self c [] old = refl
results_of_client-filter_self c (r ∷ rs) old =
    ground (arith, results_of_client-filter_self c rs old)

-- Deleting the request of a client that waits once at most closes its ballot.
pub ballot_of-delete :
    (c : ℕ) (rs : List RequestRecord)
    → waits rs c ≤ 1
    → ballot_of (delete_client c rs) ≡ update (ballot_of rs) c none
ballot_of-delete c rs once = rw (delete_client-filter c rs once) (
    fun_ext λ d. elim (Bool-cases (c == d)) [
      | inl same ↦ ground (arith, waits-filter_self c rs)
      | inr other ↦ ground (arith, waits-filter_ne c d rs, results_of_client-filter_ne c d rs [])
    ])

-- Whatever the client's own votes were, the other ballots are fair when its request goes.
pub delete-IsFair :
    (nmr c : ℕ) (rs : List RequestRecord)
    → 0 < nmr
    → waits rs c ≤ 1
    → ((d : ℕ)
        → c ≢ d
        → (waits rs d ≤ 1)
          × (length (votes_of rs d) < nmr)
          × All IsInt32 (votes_of rs d)
          × IsOpen nmr (votes_of rs d))
    → IsFair nmr (delete_client c rs)
delete-IsFair nmr c rs some_copies once others = rw (delete_client-filter c rs once) (record {
  once = λ d. elim (Bool-cases (c == d)) [
    | inl same ↦ ground (arith, waits-filter_self c rs)
    | inr other ↦ ground (arith, waits-filter_ne c d rs, others d)
  ];
  missing = λ d. elim (Bool-cases (c == d)) [
    | inl same ↦ ground (arith, results_of_client-filter_self c rs [])
    | inr other ↦ ground (arith, results_of_client-filter_ne c d rs [], others d)
  ];
  int32 = λ d. elim (Bool-cases (c == d)) [
    | inl same ↦
        let e : c ≡ d = ground arith in rw (← e) (rw (results_of_client-filter_self c rs []) tt)
    | inr other ↦
        let ne : c ≢ d = ground arith in
        rw (results_of_client-filter_ne c d rs [] ne) (others d ne).2
  ];
  undecided = λ d v. elim (Bool-cases (c == d)) [
    | inl same ↦ ground (arith, results_of_client-filter_self c rs [])
    | inr other ↦
        let ne : c ≢ d = ground arith in
        rw (results_of_client-filter_ne c d rs [] ne) ((others d ne).3 v)
  ];
})

All-append : (xs : List ℤ) (x : ℤ) → All IsInt32 xs → IsInt32 x → All IsInt32 (append xs x)
All-append [] x h k = (k, tt)
All-append (y ∷ xs) x h k = (h.0, All-append xs x h.1 k)

-- One more vote of a client that waits.
module _ (c : ℕ) (x : ℤ) (rs : List RequestRecord) (ret : ℤ) (asked : 0 < waits rs c) where
  abbrev pub with_vote : List RequestRecord
  with_vote = (push_to_client c x rs ret).0

  abbrev pub votes_with : List ℤ
  votes_with = append (votes_of rs c) x

  pub votes_of-push : votes_of with_vote c ≡ votes_with
  votes_of-push = (push_to_client-results c x rs [] ret asked).0

  pub ballot_of-push : ballot_of with_vote ≡ update (ballot_of rs) c (some votes_with)
  ballot_of-push = fun_ext λ d. elim (Bool-cases (c == d)) [
    | inl same ↦ ground (arith, votes_of-push, push_to_client-count c c x rs ret)
    | inr other ↦
        ground (arith, push_to_client-other c d x rs [] ret, push_to_client-count c d x rs ret)
  ]

  -- The other clients' ballots stay.
  pub others_stay :
      (nmr : ℕ)
      → IsFair nmr rs
      → (d : ℕ) → c ≢ d
      → (waits with_vote d ≤ 1)
        × (length (votes_of with_vote d) < nmr)
        × All IsInt32 (votes_of with_vote d)
        × IsOpen nmr (votes_of with_vote d)
  others_stay nmr h d ne =
      let same = push_to_client-other c d x rs [] ret ne in
      (
        omega (arith, push_to_client-count c d x rs ret, h.once d),
        rw same (h.missing d),
        rw same (h.int32 d),
        rw same (h.undecided d),
      )

  pub push-IsFair :
      (nmr : ℕ)
      → IsFair nmr rs
      → IsInt32 x
      → length votes_with < nmr
      → IsOpen nmr votes_with
      → IsFair nmr with_vote
  push-IsFair nmr h hx short open_still = record {
    once = λ d. omega (arith, push_to_client-count c d x rs ret, h.once d);
    missing = λ d. elim (Bool-cases (c == d)) [
      | inl same ↦ let e : c ≡ d = ground arith in rw (← e) (rw votes_of-push short)
      | inr other ↦ (others_stay nmr h d (ground arith)).1
    ];
    int32 = λ d. elim (Bool-cases (c == d)) [
      | inl same ↦
          let e : c ≡ d = ground arith in
          rw (← e) (rw votes_of-push (All-append (votes_of rs c) x (h.int32 c) hx))
      | inr other ↦ (others_stay nmr h d (ground arith)).2
    ];
    undecided = λ d v. elim (Bool-cases (c == d)) [
      | inl same ↦ let e : c ≡ d = ground arith in rw (← e) (rw votes_of-push (open_still v))
      | inr other ↦ (others_stay nmr h d (ground arith)).3 v
    ];
  }

  pub votes_with-IsInt32 : (nmr : ℕ) → IsFair nmr rs → IsInt32 x → All IsInt32 votes_with
  votes_with-IsInt32 nmr h hx = All-append (votes_of rs c) x (h.int32 c) hx
