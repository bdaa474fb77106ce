-- ===== src/Broker/Steady/Once.antt =====
-- The request of a client that waits once (src/broker/service_database_class.cpp).
use reliable_service_framewo.Prelude.{
  ℕ, ◌≤◌, ◌≡◌, refl, true, not, List, [], ◌∷◌, ◌++◌, filter_if, arith,
}
use reliable_service_framewo.Prelude.Int.{ℤ}
use reliable_service_framewo.Database.{RequestRecord, is_client, results_of_client}
use reliable_service_framewo.Broker.Ballots.Queue.{waits}

-- A request whose client waits once only.
module _ (c : ℕ) where
  filter-none :
      (rs : List RequestRecord) → waits rs c ≡ 0 → filter_if (λ r. not (is_client c r)) rs ≡ rs
  filter-none [] h = refl
  filter-none (r ∷ rs) h = ground (arith, filter-none rs)

  waits_one :
      (done : List RequestRecord) (q : RequestRecord) (rs : List RequestRecord)
      → is_client c q ≡ true
      → 1 ≤ waits (done ++ q ∷ rs) c
  waits_one [] q rs its = ground arith
  waits_one (d ∷ done) q rs its = ground (arith, waits_one done q rs its)

  pub filter-once :
      (done : List RequestRecord) (q : RequestRecord) (rs : List RequestRecord)
      → is_client c q ≡ true
      → waits (done ++ q ∷ rs) c ≤ 1
      → filter_if (λ r. not (is_client c r)) (done ++ q ∷ rs) ≡ done ++ rs
  filter-once [] q rs its once = ground (arith, filter-none rs)
  filter-once (d ∷ done) q rs its once =
      ground (arith, filter-once done q rs its, waits_one done q rs its)

  results_of_client-none :
      (rs : List RequestRecord) (old : List ℤ) → waits rs c ≡ 0 → results_of_client c rs old ≡ old
  unfolding results_of_client
  results_of_client-none [] old h = refl
  results_of_client-none (r ∷ rs) old h = ground (arith, results_of_client-none rs old)

  pub results_of_client-once :
      (done : List RequestRecord) (q : RequestRecord) (rs : List RequestRecord) (old : List ℤ)
      → is_client c q ≡ true
      → waits (done ++ q ∷ rs) c ≤ 1
      → results_of_client c (done ++ q ∷ rs) old ≡ q.results
  unfolding results_of_client
  results_of_client-once [] q rs old its once = ground (arith, results_of_client-none rs q.results)
  results_of_client-once (d ∷ done) q rs old its once =
      ground (arith, waits_one done q rs its, results_of_client-once done q rs old its)
