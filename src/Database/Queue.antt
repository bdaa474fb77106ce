-- ===== src/Database/Queue.antt =====
-- src/broker/service_database_class.cpp: the loops of `delete_request`, `push_result` and
-- `get_result` over the pending requests of one service.
pub mod Delete
pub mod Results
use reliable_service_framewo.Prelude.{
  ℕ, zero, suc, ◌+◌, Bool, none, some, List, [], ◌∷◌, ◌++◌, ltb, ◌==◌, if◌then◌else◌, length,
  get_elem?, erase_at,
}
use reliable_service_framewo.Prelude.Int.{ℤ, pos}
use reliable_service_framewo.Time.{TimeSpec}

-- `request_record_t`
pub record RequestRecord : Type 0 where
  pub client_id : ℕ
  pub results : List ℤ
  pub timeout : TimeSpec

-- `v.push_back(a)`
abbrev pub append {ℓ} : {A : Type ℓ} → List A → A → List A
append xs a = xs ++ a ∷ []

abbrev pub is_client : ℕ → RequestRecord → Bool
is_client c r = r.client_id == c

-- The body of the loop in `delete_request`: `if (records[j].client_id == c) records.erase(j)`.
unfoldable pub delete_at : ℕ → ℕ → List RequestRecord → List RequestRecord
delete_at c j rs = elim (get_elem? rs j) [
  | none ↦ rs
  | some r ↦ if is_client c r then erase_at rs j else rs
]

-- `for (j = 0; j < records.size(); j++)`, where the size falls as records go. The first argument is
-- the rounds that are left at most.
unfoldable pub delete_loop : ℕ → ℕ → ℕ → List RequestRecord → List RequestRecord
unfolding delete_at
delete_loop zero c j rs = rs
delete_loop (suc n) c j rs =
    let rest = delete_loop n c (j + 1) (delete_at c j rs) in if ltb j (length rs) then rest else rs

unfoldable pub delete_client : ℕ → List RequestRecord → List RequestRecord
unfolding delete_loop
delete_client c rs = delete_loop (length rs) c 0 rs

-- The loop of `push_result`, and the value of `ret` behind it.
unfoldable pub push_to_client : ℕ → ℤ → List RequestRecord → ℤ → List RequestRecord × ℤ
push_to_client c x [] ret = ([], ret)
push_to_client c x (r ∷ rs) ret =
    let r' = record r { results = append r.results x } in
    let here = is_client c r in
    let (rs', ret') = push_to_client c x rs (if here then pos (length r'.results) else ret) in
    ((if here then r' else r) ∷ rs', ret')

-- The loop of `get_result`.
unfoldable pub results_of_client : ℕ → List RequestRecord → List ℤ → List ℤ
results_of_client c [] ret = ret
results_of_client c (r ∷ rs) ret = results_of_client c rs (if is_client c r then r.results else ret)
