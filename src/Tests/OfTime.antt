-- ===== src/Tests/OfTime.antt =====
-- src/utilities/util.cpp: times around the carry.
use reliable_service_framewo.Prelude.{◌≡◌, refl, ◌⊎◌, ◌+◌, ◌*◌, ◌≤◌, true, false, arith}
use reliable_service_framewo.Prelude.Int.{pos}
use reliable_service_framewo.Time.{TimeSpec, giga, time_add_ms, time_cmp, is_later}
use reliable_service_framewo.Time.Laws.{nanos, is_later-time_add_ms, time_add_ms_abnormal}

abbrev before : TimeSpec
before = record { tv_sec = 4; tv_nsec = 999_999_999 }

abbrev after : TimeSpec
after = record { tv_sec = 5; tv_nsec = 2_000_000 }

-- Half a second.
abbrev half : TimeSpec
half = record { tv_sec = 7; tv_nsec = 500_000_000 }

is_later-time_add_ms_example :
    ((is_later after (time_add_ms before 2) ≡ true) × (nanos before + 2 * 1_000_000 ≤ nanos after))
    ⊎ ((is_later after (time_add_ms before 2) ≡ false)
        × (nanos after ≤ nanos before + 2 * 1_000_000))
is_later-time_add_ms_example = is_later-time_add_ms before after 2 (omega arith) (omega arith)

time_add_ms_abnormal_example :
    let u = time_add_ms half 2500 in
    let v : TimeSpec = record { tv_sec = 10; tv_nsec = 0 } in
    (u.tv_nsec ≡ giga) × (nanos v ≡ nanos u) × (time_cmp v u ≡ pos 1)
time_add_ms_abnormal_example = time_add_ms_abnormal half 2500 refl
