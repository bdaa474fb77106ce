-- ===== src/Arguments.antt =====
-- src/utilities/util.cpp: `get_arg`, for the deployment unit and for the client. What `getopt` makes
-- of the command line is an argument: the options in the order in which it returns them, an option
-- that it does not know or that lacks its argument as `?`.
pub mod Laws
use reliable_service_framewo.Prelude.{
  ℕ, ◌+◌, ◌-◌, ◌%◌, ◌^◌, List, [], ◌∷◌, ltb, leb, ◌==◌, if◌then◌else◌, Outcome, ok, exits,
  undefined, ◌>>=◌, ◌>>◌,
}
use reliable_service_framewo.Prelude.Int.{ℤ, pos, negsuc}
use reliable_service_framewo.Params.{skip_space, read_digits, negative}

pub record CommandOption : Type 0 where
  pub letter : ℕ
  pub optarg : List ℕ

-- A value that an `int` does not hold is undefined.
abbrev pub to_int : ℕ → (ℕ → ℤ) → ℕ → Outcome ℤ
to_int bound sign n = if leb n bound then ok (sign n) else undefined

-- `atoi` of the C library behind the white space: a sign, and the digits up to another character.
unfoldable pub signed_digits : List ℕ → Outcome ℤ
signed_digits [] = ok (pos 0)
signed_digits (c ∷ s) =
    if c == b'-'
    then to_int (2 ^ 31) negative (read_digits s 0).0
    else if c == b'+'
    then to_int (2 ^ 31 - 1) pos (read_digits s 0).0
    else to_int (2 ^ 31 - 1) pos (read_digits (c ∷ s) 0).0

unfoldable pub atoi : List ℕ → Outcome ℤ
atoi s = signed_digits (skip_space s)

-- `(uint8_t) x` and `(service_type_t) x`
abbrev pub to_uint8 : ℤ → ℕ
to_uint8 (pos n) = n % 2 ^ 8
to_uint8 (negsuc n) = 2 ^ 8 - n % 2 ^ 8 - 1

-- The variables that the loop sets, and the options that it has counted.
pub record Parsed : Type 0 where
  pub cnt_options : ℕ  -- uint8_t
  pub num_cp_server : ℕ  -- uint8_t
  pub service : ℕ  -- uint8_t

-- The body of the loop.
unfoldable pub get_option : CommandOption → Parsed → Outcome Parsed
get_option o p =
    let counted = record p { cnt_options = (p.cnt_options + 1) % 2 ^ 8 } in
    if o.letter == b'n'
    then (do x ← atoi o.optarg; ok (record counted { num_cp_server = to_uint8 x }))
    else if o.letter == b's'
    then (do x ← atoi o.optarg; ok (record counted { service = to_uint8 x }))
    else exits

unfoldable pub get_options : List CommandOption → Parsed → Outcome Parsed
get_options [] p = ok p
get_options (o ∷ os) p = do p' ← get_option o p; get_options os p'

-- `argv[optind] == NULL || argv[optind + 1] == NULL`, with `optind` at 1.
abbrev pub check_mandatory : ℕ → Outcome (Unit {0})
check_mandatory argc = if argc == 0 then undefined else if ltb argc 3 then exits else ok tt

-- `num_cp_server` and `service` are what the reference arguments hold before.
unfoldable pub get_arg : ℕ → List CommandOption → ℕ → ℕ → ℕ → Outcome (ℕ × ℕ)
get_arg argc os num_cp_server service num_options = do
  check_mandatory argc
  p ← get_options os (record { cnt_options = 0; num_cp_server = num_cp_server; service = service })
  if p.cnt_options == num_options then ok (p.num_cp_server, p.service) else exits

-- The overload of the client. The options are those of the other one, and `n` is refused.
unfoldable pub get_service_option : CommandOption → ℕ × ℤ → Outcome (ℕ × ℤ)
get_service_option o (cnt_options, service) =
    if o.letter == b's' then (do x ← atoi o.optarg; ok ((cnt_options + 1) % 2 ^ 8, x)) else exits

unfoldable pub get_service_options : List CommandOption → ℕ × ℤ → Outcome (ℕ × ℤ)
get_service_options [] p = ok p
get_service_options (o ∷ os) p = do p' ← get_service_option o p; get_service_options os p'

unfoldable pub get_service_arg : ℕ → List CommandOption → ℤ → ℕ → Outcome ℤ
get_service_arg argc os service num_options = do
  check_mandatory argc
  p ← get_service_options os (0, service)
  if p.0 == num_options then ok p.1 else exits
