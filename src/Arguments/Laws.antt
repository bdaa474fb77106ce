-- ===== src/Arguments/Laws.antt =====
-- `get_arg` on the options of a number of copies and of a service (src/utilities/util.cpp).
use reliable_service_framewo.Prelude.{ℕ, ◌+◌, ◌^◌, ◌≤◌, ◌<◌, ◌≡◌, ap, List, [], ◌∷◌, ok, arith}
use reliable_service_framewo.Prelude.Int.{pos}
use reliable_service_framewo.Params.{to_string, skip_space, read_digits}
use reliable_service_framewo.Params.RoundTrip.{read_digits-digits, first_digit}
use reliable_service_framewo.Arguments.{
  CommandOption, atoi, signed_digits, get_option, get_options, get_arg,
}

-- The value of an option as a shell passes it.
abbrev pub option : ℕ → ℕ → CommandOption
option letter n = record { letter = letter; optarg = to_string (pos n) }

signed_digits_digit :
    (d : ℕ) (s : List ℕ) (n : ℕ)
    → d < 10
    → (read_digits ((b'0' + d) ∷ s) 0).0 ≡ n
    → n < 2 ^ 31
    → atoi ((b'0' + d) ∷ s) ≡ ok (pos n)
unfolding atoi skip_space signed_digits
signed_digits_digit d s n h read small = ground (arith, read)

-- `atoi` reads a number that was written in decimal digits.
pub atoi-to_string : (n : ℕ) → n < 2 ^ 31 → atoi (to_string (pos n)) ≡ ok (pos n)
unfolding to_string read_digits
atoi-to_string n h =
    let (d, s, e, lt) = first_digit 9 n [] (omega arith) in
    let read = ap (λ r. r.0) (read_digits-digits 10 n [] (omega arith)) in
    rw e (signed_digits_digit d s n lt (rw e at read) h)

pub get_arg-option :
    (argc num service n s : ℕ)
    → 3 ≤ argc
    → num < 256
    → service < 256
    → (get_arg argc (option b'n' num ∷ option b's' service ∷ []) n s 2 ≡ ok (num, service))
      × (get_arg argc (option b's' service ∷ option b'n' num ∷ []) n s 2 ≡ ok (num, service))
unfolding get_arg get_options get_option
get_arg-option argc num service n s long hn hs =
    ground (arith, atoi-to_string num, atoi-to_string service)

-- When the number of copies is given twice (each at most 255) and the service not at all,
-- `get_arg` comes back with the second number, and with whatever the variable for the service
-- held.
pub get_arg_twice :
    (argc num num' n s : ℕ)
    → 3 ≤ argc
    → num < 256
    → num' < 256
    → get_arg argc (option b'n' num ∷ option b'n' num' ∷ []) n s 2 ≡ ok (num', s)
unfolding get_arg get_options get_option
get_arg_twice argc num num' n s long h h' = ground (arith, atoi-to_string num, atoi-to_string num')
