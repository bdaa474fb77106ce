-- ===== src/Database/Queue/Results.antt =====
-- The loops of `push_result` and `get_result` (src/broker/service_database_class.cpp).
use reliable_service_framewo.Prelude.{
  ℕ, ◌<◌, ◌≡◌, refl, ◌≢◌, inl, inr, List, [], ◌∷◌, arith, length, count_if, Bool-cases,
}
use reliable_service_framewo.Prelude.Int.{ℤ, pos}
use reliable_service_framewo.Database.Queue.{
  RequestRecord, is_client, append, push_to_client, results_of_client,
}

-- Behind a record of the client: what `get_result` would read and the value of `ret` agree.
push_started :
    (c : ℕ) (x : ℤ) (rs : List RequestRecord) (old : List ℤ)
    → let (rs', ret) = push_to_client c x rs (pos (length (append old x))) in
      let new = append (results_of_client c rs old) x in
      (results_of_client c rs' (append old x) ≡ new) × (ret ≡ pos (length new))
unfolding push_to_client results_of_client
push_started c x [] old = (refl, refl)
push_started c x (r ∷ rs) old =
    ground (arith, push_started c x rs old, push_started c x rs r.results)

-- For a client with a pending request, pushing a result appends it to what `get_result` reads, and
-- the returned count is the new number of results.
pub push_to_client-results :
    (c : ℕ) (x : ℤ) (rs : List RequestRecord) (old : List ℤ) (ret : ℤ)
    → 0 < count_if (is_client c) rs
    → let (rs', n) = push_to_client c x rs ret in
      let new = append (results_of_client c rs old) x in
      (results_of_client c rs' old ≡ new) × (n ≡ pos (length new))
unfolding push_to_client results_of_client
push_to_client-results c x [] old ret h = absurd (omega arith)
push_to_client-results c x (r ∷ rs) old ret h = elim (Bool-cases (is_client c r)) [
  | inl hit ↦ ground (arith, push_started c x rs r.results)
  | inr miss ↦ ground (arith, push_to_client-results c x rs old ret)
]

-- Pushing a result for one client leaves what `get_result` reads for every other client.
pub push_to_client-other :
    (c d : ℕ) (x : ℤ) (rs : List RequestRecord) (old : List ℤ) (ret : ℤ)
    → c ≢ d
    → results_of_client d (push_to_client c x rs ret).0 old ≡ results_of_client d rs old
unfolding push_to_client results_of_client
push_to_client-other c d x [] old ret h = refl
push_to_client-other c d x (r ∷ rs) old ret h = elim (Bool-cases (is_client c r)) [
  | inl hit ↦ ground (arith, push_to_client-other c d x rs old (pos (length (append r.results x))))
  | inr miss ↦
      ground
        (arith, push_to_client-other c d x rs r.results ret, push_to_client-other c d x rs old ret)
]

-- With no pending request of the client nothing changes, `ret` included.
pub push_to_client_none :
    (c : ℕ) (x : ℤ) (rs : List RequestRecord) (ret : ℤ)
    → count_if (is_client c) rs ≡ 0
    → push_to_client c x rs ret ≡ (rs, ret)
unfolding push_to_client
push_to_client_none c x [] ret h = refl
push_to_client_none c x (r ∷ rs) ret h = ground (arith, push_to_client_none c x rs ret)

-- The records stay in their places with their clients.
pub push_to_client-count :
    (c d : ℕ) (x : ℤ) (rs : List RequestRecord) (ret : ℤ)
    → count_if (is_client d) (push_to_client c x rs ret).0 ≡ count_if (is_client d) rs
unfolding push_to_client
push_to_client-count c d x [] ret = refl
push_to_client-count c d x (r ∷ rs) ret = elim (Bool-cases (is_client c r)) [
  | inl hit ↦ ground (arith, push_to_client-count c d x rs (pos (length (append r.results x))))
  | inr miss ↦ ground (arith, push_to_client-count c d x rs ret)
]
