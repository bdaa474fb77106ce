-- ===== src/Vote/Majority.antt =====
-- `RSF_Broker::vote` (src/broker/broker_class.cpp) against the number of occurrences of a value.
use native.Mathlib.Nat.{add_assoc, add_comm, add-zero, zero-add}
use native.Mathlib.Numerals.{add-one}
use reliable_service_framewo.Prelude.{
  ℕ, zero, suc, ◌+◌, ◌/◌, ◌≤◌, ◌<◌, ◌≡◌, refl, sym, ap, ◌∙◌, ◌≢◌, ◌⊎◌, inl, inr, some, List, [],
  ◌∷◌, arith, ltb, length, get_elem?, get_or, count_if, count_if-le-length, get_elem?-get_or, ok,
  Bool-cases, if◌then◌else◌,
}
use reliable_service_framewo.Prelude.Int.{ℤ, pos, negsuc, ◌==ℤ◌, ==ℤ_iff}
use reliable_service_framewo.Vote.{count_equal, count_all, max_index, vote}

abbrev pub occurrences : ℤ → List ℤ → ℕ
occurrences v = count_if (λ y. v ==ℤ y)

count_equal-occurrences :
    (x : ℤ) (ys : List ℤ) (count : ℕ)
    → count + length ys ≤ 255
    → count_equal x ys count ≡ count + occurrences x ys
unfolding count_equal
count_equal-occurrences x [] count h = omega arith
count_equal-occurrences x (y ∷ ys) count h = elim (Bool-cases (x ==ℤ y)) [
  | inl e ↦ ground (arith, count_equal-occurrences x ys (count + 1))
  | inr e ↦ ground (arith, count_equal-occurrences x ys count)
]

length-count_all : (values xs : List ℤ) → length (count_all values xs) ≡ length xs
unfolding count_all
length-count_all values [] = refl
length-count_all values (x ∷ xs) = omega (arith, length-count_all values xs)

get_or-count_all :
    (values xs : List ℤ) (i : ℕ)
    → length values ≤ 255
    → i < length xs
    → get_or (count_all values xs) i 0 ≡ occurrences (get_or xs i (pos 0)) values
unfolding count_all
get_or-count_all values [] i h lt = elim lt [ ]
get_or-count_all values (x ∷ xs) zero h lt =
    omega (arith, count_equal-occurrences x values 0 (omega arith))
get_or-count_all values (x ∷ xs) (suc i) h lt = get_or-count_all values xs i h (omega arith)

-- Every entry of the list is at most `m`.
abbrev IsBound : ℕ → List ℕ → Type 0
IsBound m xs = (k : ℕ) → k < length xs → get_or xs k 0 ≤ m

IsBound-cons : (m c : ℕ) (xs : List ℕ) → c ≤ m → IsBound m xs → IsBound m (c ∷ xs)
IsBound-cons m c xs h b zero lt = h
IsBound-cons m c xs h b (suc k) lt = b k (omega arith)

-- The loop for `max` ends within the vector, at an entry that none exceeds. `rest` is `count` from
-- `i` on.
max_index-bounds :
    (count rest : List ℕ) (i max : ℕ)
    → i + length rest ≤ length count
    → ((k : ℕ) → get_or count (i + k) 0 ≡ get_or rest k 0)
    → max < length count
    → let m = max_index count rest i max in
      (m < length count) × (get_or count max 0 ≤ get_or count m 0) × IsBound (get_or count m 0) rest
unfolding max_index
max_index-bounds count [] i max fits same h = (h, omega arith, λ k lt. elim lt [ ])
max_index-bounds count (c ∷ rest) i max fits same h =
    let later : (k : ℕ) → get_or count (i + 1 + k) 0 ≡ get_or rest k 0 =
      λ k. rw (add_assoc i 1 k, add_comm 1 k, add-one k) (same (suc k)) in
    let here : get_or count i 0 ≡ c = rw add-zero at (same 0) in
    let best : ℕ = if ltb (get_or count max 0) c then i else max in
    let better : (best < length count)
        × (get_or count max 0 ≤ get_or count best 0)
        × (c ≤ get_or count best 0) =
      ground arith in
    let (inside, grows, covers) =
      max_index-bounds count rest (i + 1) best (omega arith) later better.0 in
    (inside, omega arith, IsBound-cons _ c rest (omega arith) covers)

-- Where a value that occurs stands.
position_of :
    (v : ℤ) (values : List ℤ)
    → 0 < occurrences v values
    → (k : ℕ) × (k < length values) × (get_or values k (pos 0) ≡ v)
position_of v [] h = absurd (omega arith)
position_of v (x ∷ xs) h = elim (Bool-cases (v ==ℤ x)) [
  | inl e ↦ (0, omega arith, sym ((==ℤ_iff v x).0 e))
  | inr e ↦ let (k, lt, at) = position_of v xs (ground arith) in (suc k, omega arith, at)
]

max_index-lem :
    (values : List ℤ)
    → 0 < length values
    → let count = count_all values values in
      let m = max_index count count 0 0 in (m < length values) × IsBound (get_or count m 0) count
max_index-lem values h =
    let count = count_all values values in
    let l : length count ≡ length values = length-count_all values values in
    let (inside, _, covers) =
      max_index-bounds count count 0 0 (omega arith) (λ k. rw zero-add) (omega arith) in
    (omega arith, covers)

-- What `vote` says of its values: the index and the value of an entry that more than half of `nmr`
-- entries equal, or -1 when no value occurs that often.
pub data Verdict (nmr : ℕ) (values : List ℤ) (result : ℤ) : ℤ × ℤ → Type 0 where
  majority :
      (i : ℕ) (x : ℤ)
      → get_elem? values i ≡ some x
      → nmr / 2 < occurrences x values
      → Verdict nmr values result (pos i, x)
  no_majority :
      ((v : ℤ) → occurrences v values ≤ nmr / 2) → Verdict nmr values result (negsuc 0, result)

occurrences-le_largest :
    (values : List ℤ) (m : ℕ) (v : ℤ)
    → length values ≤ 255
    → IsBound m (count_all values values)
    → occurrences v values ≤ m
occurrences-le_largest values m v short covers = elim (Bool-cases (ltb 0 (occurrences v values))) [
  | inl some_v ↦
      let (k, lt, at) = position_of v values (ground arith) in
      let bound : get_or (count_all values values) k 0 ≤ m =
        covers k (omega (arith, length-count_all values values)) in
      omega
        (arith, bound, get_or-count_all values values k short lt, ap (λ x. occurrences x values) at)
  | inr no_v ↦ ground arith
]

-- The largest count is that of its value, and bounds the occurrences of every value.
largest :
    (values : List ℤ)
    → 0 < length values
    → length values ≤ 255
    → let count = count_all values values in
      let m = max_index count count 0 0 in
      (m < length values)
      × (get_or count m 0 ≡ occurrences (get_or values m (pos 0)) values)
      × ((v : ℤ) → occurrences v values ≤ get_or count m 0)
largest values h short =
    let (inside, covers) = max_index-lem values h in
    (
      inside,
      get_or-count_all values values _ short inside,
      λ v. occurrences-le_largest values _ v short covers,
    )

-- For at most 128 values `vote` returns the index and the value of an entry that more than `nmr /
-- 2` entries equal, or -1 with the old result when no value occurs that often.
pub vote-Verdict :
    (nmr : ℕ) (values : List ℤ) (result : ℤ)
    → length values ≤ 128
    → (p : ℤ × ℤ) × (vote nmr values result ≡ ok p) × Verdict nmr values result p
unfolding vote
vote-Verdict nmr values result h =
    let count = count_all values values in
    let m = max_index count count 0 0 in
    let same = length-count_all values values in
    elim (Bool-cases (ltb 0 (length values))) [
      | inl filled ↦
          let (inside, counted, covers) = largest values (ground arith) (omega arith) in
          elim (Bool-cases (ltb (nmr / 2) (get_or count m 0))) [
            | inl more ↦ (
              (pos m, get_or values m (pos 0)),
              ground (arith, same, inside),
              majority m _ (get_elem?-get_or values m (pos 0) inside) (ground arith),
            )
            | inr less ↦ (
              (negsuc 0, result),
              ground (arith, same),
              no_majority (λ v. ground (arith, covers v)),
            )
          ]
      | inr empty ↦ (
        (negsuc 0, result),
        ground (arith, same),
        no_majority (λ v. ground (arith, count_if-le-length (λ y. v ==ℤ y) values)),
      )
    ]

-- Two values that differ cannot both occur in more than half of the entries.
pub occurrences-add :
    (v w : ℤ) (values : List ℤ)
    → v ≢ w
    → occurrences v values + occurrences w values ≤ length values
occurrences-add v w [] h = omega arith
occurrences-add v w (x ∷ xs) h = ground (arith, occurrences-add v w xs h)

Verdict-majority :
    {nmr : ℕ} {values : List ℤ} {result : ℤ} {p : ℤ × ℤ} (v : ℤ)
    → length values ≤ nmr
    → nmr / 2 < occurrences v values
    → Verdict nmr values result p
    → (i : ℕ) × (p ≡ (pos i, v))
Verdict-majority v h more (no_majority none_more) = absurd (omega (arith, none_more v))
Verdict-majority {values = values} v h more (majority i x at often) = elim (Bool-cases (v ==ℤ x)) [
  | inl e ↦ (i, ground (arith, (==ℤ_iff v x).0 e))
  | inr e ↦ absurd (omega (arith, occurrences-add v x values (λ q. cc ((==ℤ_iff v x).1 q))))
]

-- Of at most `nmr` values (`nmr` at most 128), one that occurs more than `nmr / 2` times is what
-- `vote` returns.
pub vote_majority :
    (nmr : ℕ) (values : List ℤ) (result v : ℤ)
    → nmr ≤ 128
    → length values ≤ nmr
    → nmr / 2 < occurrences v values
    → (i : ℕ) × (vote nmr values result ≡ ok (pos i, v))
vote_majority nmr values result v small h more =
    let (p, e, verdict) = vote-Verdict nmr values result (omega arith) in
    let (i, q) = Verdict-majority v h more verdict in (i, e ∙ ap ok q)

-- No value has the votes of more than half of `nmr` copies.
abbrev pub IsOpen : ℕ → List ℤ → Type 0
IsOpen nmr values = (v : ℤ) → occurrences v values ≤ nmr / 2

Verdict-cases :
    {nmr : ℕ} {values : List ℤ} {result : ℤ} {p : ℤ × ℤ}
    → Verdict nmr values result p
    → ((v : ℤ) × (nmr / 2 < occurrences v values)) ⊎ IsOpen nmr values
Verdict-cases (majority i x at often) = inl (x, often)
Verdict-cases (no_majority none_more) = inr none_more

pub majority_or_IsOpen :
    (nmr : ℕ) (values : List ℤ)
    → length values ≤ 128
    → ((v : ℤ) × (nmr / 2 < occurrences v values)) ⊎ IsOpen nmr values
majority_or_IsOpen nmr values h = Verdict-cases (vote-Verdict nmr values (pos 0) h).2

Verdict-open :
    {nmr : ℕ} {values : List ℤ} {result : ℤ} {p : ℤ × ℤ}
    → IsOpen nmr values
    → Verdict nmr values result p
    → p ≡ (negsuc 0, result)
Verdict-open none_more (majority i x at often) = absurd (omega (arith, none_more x))
Verdict-open none_more (no_majority _) = refl

pub vote_open :
    (nmr : ℕ) (values : List ℤ) (result : ℤ)
    → length values ≤ 128
    → IsOpen nmr values
    → vote nmr values result ≡ ok (negsuc 0, result)
vote_open nmr values result short none_more =
    let (p, e, verdict) = vote-Verdict nmr values result short in
    e ∙ ap ok (Verdict-open none_more verdict)
