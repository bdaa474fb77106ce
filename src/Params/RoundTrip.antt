-- ===== src/Params/RoundTrip.antt =====
-- What a client serializes is what a server reads (include/communication.hpp).
use native.Mathlib.Nat.{pow-suc}
use reliable_service_framewo.Prelude.{
  ℕ, zero, suc, ◌+◌, ◌*◌, ◌/◌, ◌%◌, ◌^◌, ◌<◌, ◌≤◌, ◌≡◌, refl, ◌∙◌, ap, inl, inr, true, Bool-cases,
  ltb, ◌-◌, List, [], ◌∷◌, ◌++◌, some, All, length, arith,
}
use reliable_service_framewo.Prelude.Int.{ℤ, pos, negsuc, IsInt32}
use reliable_service_framewo.Params.{
  digits, to_string, serialize, read_digits, read_magnitude, read_sign, extract, deserialize,
  skip_space, negative, starts_with_digit,
}

read_digits_digit :
    (d k : ℕ) (out : List ℕ)
    → d < 10
    → read_digits ((b'0' + d) ∷ out) k ≡ read_digits out (k * 10 + d)
unfolding read_digits
read_digits_digit d k out h =
    let same : k * 10 + (b'0' + d - b'0') ≡ k * 10 + d = omega arith in rw same (ground arith)

-- Reading the digits of a number leads on to what stands behind them.
pub read_digits-digits :
    (f n : ℕ) (out : List ℕ) → n < 10 ^ f → read_digits (digits f n out) 0 ≡ read_digits out n
unfolding digits
read_digits-digits zero n out h = let e : n ≡ 0 = omega arith in rw e
read_digits-digits (suc f) n out h = elim (Bool-cases (ltb n 10)) [
  | inl small ↦
      rw small (read_digits_digit n 0 out (ground arith) ∙ ap (read_digits out) (omega arith))
  | inr large ↦
      let room : n / 10 < 10 ^ f = omega (arith, pow-suc 10 f) in
      rw large (
        read_digits-digits f (n / 10) ((b'0' + n % 10) ∷ out) room
        ∙ read_digits_digit (n % 10) (n / 10) out (omega arith)
        ∙ ap (read_digits out) (omega arith))
]

read_digits_stop : (n : ℕ) (s : List ℕ) → read_digits (b' ' ∷ s) n ≡ (n, b' ' ∷ s)
unfolding read_digits
read_digits_stop n s = refl

starts_digit : (d : ℕ) (s : List ℕ) → d < 10 → starts_with_digit ((b'0' + d) ∷ s) ≡ true
unfolding starts_with_digit
starts_digit d s h = ground arith

-- There is a first digit.
pub first_digit :
    (f n : ℕ) (out : List ℕ)
    → n < 10 ^ suc f
    → (d : ℕ) × (s : List ℕ) × (digits (suc f) n out ≡ (b'0' + d) ∷ s) × (d < 10)
unfolding digits
first_digit zero n out h = (n, out, ground arith, omega arith)
first_digit (suc f) n out h = elim (Bool-cases (ltb n 10)) [
  | inl small ↦ (n, out, rw small, ground arith)
  | inr large ↦
      let room : n / 10 < 10 ^ suc f = omega (arith, pow-suc 10 (suc f)) in
      let (d, s, e, lt) = first_digit f (n / 10) ((b'0' + n % 10) ∷ out) room in
      (d, s, rw large e, lt)
]

-- Behind the digits stands the space that `serialize` puts there.
read_magnitude-digits :
    (sign : ℕ → ℤ) (bound n : ℕ) (s : List ℕ)
    → n ≤ bound
    → n < 10 ^ 10
    → read_magnitude sign bound (digits 10 n (b' ' ∷ s)) ≡ some (sign n, b' ' ∷ s)
unfolding read_magnitude
read_magnitude-digits sign bound n s h room =
    let (d, t, e, lt) = first_digit 9 n (b' ' ∷ s) room in
    let whole : read_digits (digits 10 n (b' ' ∷ s)) 0 ≡ (n, b' ' ∷ s) =
      read_digits-digits 10 n (b' ' ∷ s) room ∙ read_digits_stop n s in
    let starts : starts_with_digit (digits 10 n (b' ' ∷ s)) ≡ true = rw e (starts_digit d t lt) in
    ground (arith, whole, starts)

digits-append : (f n : ℕ) (out more : List ℕ) → digits f n out ++ more ≡ digits f n (out ++ more)
unfolding digits
digits-append zero n out more = refl
digits-append (suc f) n out more =
    ground (arith, digits-append f (n / 10) ((b'0' + n % 10) ∷ out) more)

extract_digit :
    (d : ℕ) (s : List ℕ)
    → d < 10
    → extract ((b'0' + d) ∷ s) ≡ read_magnitude pos (2 ^ 31 - 1) ((b'0' + d) ∷ s)
unfolding extract read_sign skip_space
extract_digit d s h = ground arith

-- One number at the start of the stream.
extract-to_string :
    (x : ℤ) (s : List ℕ) → IsInt32 x → extract (to_string x ++ b' ' ∷ s) ≡ some (x, b' ' ∷ s)
unfolding to_string
extract-to_string (pos n) s h =
    let (d, t, e, lt) = first_digit 9 n (b' ' ∷ s) (omega arith) in
    let read = read_magnitude-digits pos (2 ^ 31 - 1) n s (omega arith) (omega arith) in
    rw (digits-append 10 n [] (b' ' ∷ s)) (rw e (extract_digit d t lt ∙ (rw e at read)))
extract-to_string (negsuc n) s h = rw (digits-append 10 (suc n) [] (b' ' ∷ s)) (
    unfold extract read_sign skip_space in
    read_magnitude-digits negative (2 ^ 31) (suc n) s (omega arith) (omega arith))

deserialize_space : (n : ℕ) (s : List ℕ) → deserialize n (b' ' ∷ s) ≡ deserialize n s
unfolding deserialize extract skip_space
deserialize_space zero s = refl
deserialize_space (suc n) s = refl

-- The server reads back the `int32_t` parameters that a client serialized, all of them and in
-- order.
pub deserialize-serialize :
    (xs : List ℤ) → All IsInt32 xs → deserialize (length xs) (serialize xs) ≡ some xs
unfolding deserialize serialize
deserialize-serialize [] h = refl
deserialize-serialize (x ∷ xs) h = ground (
  arith,
  extract-to_string x (serialize xs) h.0,
  deserialize_space (length xs) (serialize xs),
  deserialize-serialize xs h.1,
)
