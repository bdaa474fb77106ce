-- ===== src/Time.antt =====
-- src/utilities/util.cpp: arithmetic on `struct timespec`. Readings of the monotonic clock are not
-- negative, and 64-bit seconds do not overflow; `1e6` and `1e9` are exact at these sizes.
pub mod Laws
pub mod Wait
use reliable_service_framewo.Prelude.{ℕ, ◌+◌, ◌-◌, ◌*◌, ◌/◌, ◌%◌, Bool, ltb, if◌then◌else◌}
use reliable_service_framewo.Prelude.Int.{ℤ, pos, negsuc, ◌==ℤ◌}

pub record TimeSpec : Type 0 where
  pub tv_sec : ℕ
  pub tv_nsec : ℕ

abbrev pub giga : ℕ
giga = 1_000_000_000

-- The carry that `time_add_ms` and `time_add_ns` end with.
carry : TimeSpec → TimeSpec
carry t =
    if ltb giga t.tv_nsec then record t { tv_sec = t.tv_sec + 1; tv_nsec = t.tv_nsec - giga } else t

unfoldable pub time_add_ms : TimeSpec → ℕ → TimeSpec
unfolding carry
time_add_ms t ms =
    carry (record { tv_sec = t.tv_sec + ms / 1000; tv_nsec = t.tv_nsec + ms % 1000 * 1_000_000 })

unfoldable pub time_add_ns : TimeSpec → ℕ → TimeSpec
unfolding carry
time_add_ns t ns = carry (record t { tv_nsec = t.tv_nsec + ns })

unfoldable pub time_cmp : TimeSpec → TimeSpec → ℤ
time_cmp t u =
    if ltb u.tv_sec t.tv_sec
    then pos 1
    else if ltb t.tv_sec u.tv_sec
    then negsuc 0
    else if ltb u.tv_nsec t.tv_nsec
    then pos 1
    else if ltb t.tv_nsec u.tv_nsec
    then negsuc 0
    else pos 0

-- `time_cmp(…) == 1`
unfoldable pub is_later : TimeSpec → TimeSpec → Bool
unfolding time_cmp
is_later t u = time_cmp t u ==ℤ pos 1
