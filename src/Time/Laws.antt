-- ===== src/Time/Laws.antt =====
-- Times as numbers of nanoseconds.
use reliable_service_framewo.Prelude.{ℕ, ◌+◌, ◌*◌, ◌/◌, ◌%◌, ◌≤◌, ◌<◌, ◌≡◌, ◌⊎◌, true, false, arith}
use reliable_service_framewo.Prelude.Int.{pos, negsuc}
use reliable_service_framewo.Time.{TimeSpec, giga, time_add_ms, time_add_ns, time_cmp, is_later}

abbrev pub nanos : TimeSpec → ℕ
nanos t = t.tv_sec * giga + t.tv_nsec

-- What POSIX asks of a `struct timespec`, and what the carry gives.
abbrev pub IsNormal : TimeSpec → Type 0
IsNormal t = t.tv_nsec < giga

-- Adding milliseconds to a normal time adds exactly that many nanoseconds, and leaves a normal
-- time or one whose nanosecond field is exactly one second.
pub time_add_ms-nanos :
    (t : TimeSpec) (ms : ℕ)
    → IsNormal t
    → (nanos (time_add_ms t ms) ≡ nanos t + ms * 1_000_000)
      × (IsNormal (time_add_ms t ms) ⊎ ((time_add_ms t ms).tv_nsec ≡ giga))
unfolding time_add_ms
time_add_ms-nanos t ms h = ground arith

-- Adding at most a second of nanoseconds to a normal time adds exactly that many, and leaves a
-- normal time or one whose nanosecond field is exactly one second.
pub time_add_ns-nanos :
    (t : TimeSpec) (ns : ℕ)
    → IsNormal t
    → ns ≤ giga
    → (nanos (time_add_ns t ns) ≡ nanos t + ns)
      × (IsNormal (time_add_ns t ns) ⊎ ((time_add_ns t ns).tv_nsec ≡ giga))
unfolding time_add_ns
time_add_ns-nanos t ns h l = ground arith

-- On normal times `time_cmp` compares the numbers of nanoseconds, with the results 1, -1 and 0.
pub time_cmp-nanos :
    (t u : TimeSpec)
    → IsNormal t
    → IsNormal u
    → ((nanos u < nanos t) × (time_cmp t u ≡ pos 1))
      ⊎ ((nanos t < nanos u) × (time_cmp t u ≡ negsuc 0))
      ⊎ ((nanos t ≡ nanos u) × (time_cmp t u ≡ pos 0))
unfolding time_cmp
time_cmp-nanos t u ht hu = ground arith

-- A timer armed at a normal time is seen as passed at a normal reading only when its milliseconds
-- have passed, and as not passed only when the reading is no later than that.
pub is_later-time_add_ms :
    (t now : TimeSpec) (ms : ℕ)
    → IsNormal t
    → IsNormal now
    → ((is_later now (time_add_ms t ms) ≡ true) × (nanos t + ms * 1_000_000 ≤ nanos now))
      ⊎ ((is_later now (time_add_ms t ms) ≡ false) × (nanos now ≤ nanos t + ms * 1_000_000))
unfolding time_add_ms is_later
is_later-time_add_ms t now ms ht hn = ground arith

-- Whenever the nanoseconds add up to exactly one second the result is not normal, and compares as
-- earlier than the normal time of the same instant.
pub time_add_ms_abnormal :
    (t : TimeSpec) (ms : ℕ)
    → t.tv_nsec + ms % 1000 * 1_000_000 ≡ giga
    → let u = time_add_ms t ms in
      let v : TimeSpec = record { tv_sec = t.tv_sec + ms / 1000 + 1; tv_nsec = 0 } in
      (u.tv_nsec ≡ giga) × (nanos v ≡ nanos u) × (time_cmp v u ≡ pos 1)
unfolding time_add_ms time_cmp
time_add_ms_abnormal t ms h = ground arith
