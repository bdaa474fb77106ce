-- ===== src/Params.antt =====
-- include/communication.hpp: `serialize` and `deserialize` for `int32_t` parameters, with what they
-- use of `std::to_string` and of `>>` on a stream. Characters are their codes.
pub mod RoundTrip
use reliable_service_framewo.Prelude.{
  ℕ, zero, suc, ◌+◌, ◌-◌, ◌*◌, ◌/◌, ◌%◌, ◌^◌, Bool, ◌&&◌, ◌||◌, List, [], ◌∷◌, ◌++◌, Option, none,
  some, ltb, leb, ◌==◌, if◌then◌else◌,
}
use reliable_service_framewo.Prelude.Int.{ℤ, pos, negsuc}

-- The digits of a number in front of `out`. The first argument is the most digits that there are.
unfoldable pub digits : ℕ → ℕ → List ℕ → List ℕ
digits zero n out = out
digits (suc f) n out =
    let more = digits f (n / 10) ((b'0' + n % 10) ∷ out) in
    if ltb n 10 then (b'0' + n) ∷ out else more

-- `std::to_string`, for at most ten digits
unfoldable pub to_string : ℤ → List ℕ
to_string (pos n) = digits 10 n []
to_string (negsuc n) = b'-' ∷ digits 10 (suc n) []

unfoldable pub serialize : List ℤ → List ℕ
serialize [] = []
serialize (h ∷ t) = to_string h ++ b' ' ∷ serialize t

is_space : ℕ → Bool
is_space c = c == b' ' || (leb 9 c && leb c 13)

is_digit : ℕ → Bool
is_digit c = leb b'0' c && leb c b'9'

unfoldable pub skip_space : List ℕ → List ℕ
unfolding is_space
skip_space [] = []
skip_space (c ∷ s) = let rest = skip_space s in if is_space c then rest else c ∷ s

-- The number that the leading digits extend `n` to, and the rest of the text.
unfoldable pub read_digits : List ℕ → ℕ → ℕ × List ℕ
unfolding is_digit
read_digits [] n = (n, [])
read_digits (c ∷ s) n =
    let rest = read_digits s (n * 10 + (c - b'0')) in if is_digit c then rest else (n, c ∷ s)

starts_with_digit : List ℕ → Bool
unfolding is_digit
starts_with_digit [] = Bool.false
starts_with_digit (c ∷ s) = is_digit c

-- A number behind its sign, with the bound that the `int32_t` sets it. `none` is a failed stream.
unfoldable pub read_magnitude : (ℕ → ℤ) → ℕ → List ℕ → Option (ℤ × List ℕ)
unfolding starts_with_digit
read_magnitude sign bound s =
    let (n, rest) = read_digits s 0 in
    if starts_with_digit s && leb n bound then some (sign n, rest) else none

abbrev pub negative : ℕ → ℤ
negative zero = pos 0
negative (suc n) = negsuc n

-- `stream >> h`
unfoldable pub read_sign : List ℕ → Option (ℤ × List ℕ)
read_sign [] = none
read_sign (c ∷ s) =
    if c == b'-'
    then read_magnitude negative (2 ^ 31) s
    else if c == b'+'
    then read_magnitude pos (2 ^ 31 - 1) s
    else read_magnitude pos (2 ^ 31 - 1) (c ∷ s)

unfoldable pub extract : List ℕ → Option (ℤ × List ℕ)
extract s = read_sign (skip_space s)

-- As many parameters as are asked for, or `none` from the first failure on.
unfoldable pub deserialize : ℕ → List ℕ → Option (List ℤ)
deserialize zero s = some []
deserialize (suc n) s = elim (extract s) [
  | none ↦ none
  | some (h, rest) ↦ elim (deserialize n rest) [ none ↦ none | some t ↦ some (h ∷ t) ]
]
