-- ===== src/Vote.antt =====
-- src/broker/broker_class.cpp: `RSF_Broker::vote`. Its loops count on a `uint8_t`, so with more than
-- 255 values the first one never ends.
pub mod Majority
use reliable_service_framewo.Prelude.{
  ℕ, ◌+◌, ◌-◌, ◌/◌, ◌%◌, ◌^◌, List, [], ◌∷◌, ltb, if◌then◌else◌, length, get_or, Outcome, ok, hangs,
}
use reliable_service_framewo.Prelude.Int.{ℤ, pos, negsuc, ◌==ℤ◌}

-- The loop over `j`: `count[i]` for `values[i] = x`, a `uint8_t`.
unfoldable pub count_equal : ℤ → List ℤ → ℕ → ℕ
count_equal x [] count = count
count_equal x (y ∷ ys) count = count_equal x ys (if x ==ℤ y then (count + 1) % 2 ^ 8 else count)

-- The loop over `i` that fills `count`.
unfoldable pub count_all : List ℤ → List ℤ → List ℕ
count_all values [] = []
count_all values (x ∷ xs) = count_equal x values 0 ∷ count_all values xs

-- The loop that finds `max`; its second argument is what is left of `count` from `i` on.
unfoldable pub max_index : List ℕ → List ℕ → ℕ → ℕ → ℕ
max_index count [] i max = max
max_index count (c ∷ cs) i max =
    max_index count cs (i + 1) (if ltb (get_or count max 0) c then i else max)

-- `(int8_t) w`
abbrev pub to_int8 : ℕ → ℤ
to_int8 w = if ltb w (2 ^ 7) then pos w else negsuc (2 ^ 8 - w - 1)

-- The value that is returned, and what is left in the reference argument `result`.
unfoldable pub vote : ℕ → List ℤ → ℤ → Outcome (ℤ × ℤ)
vote nmr values result =
    let count = count_all values values in
    let max = max_index count count 0 0 in
    if ltb 255 (length values)
    then hangs
    else if ltb 0 (length count)
    then (if ltb (nmr / 2) (get_or count max 0)
        then ok (to_int8 max, get_or values max (pos 0))
        else ok (negsuc 0, result))
    else ok (negsuc 0, result)
