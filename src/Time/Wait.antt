-- ===== src/Time/Wait.antt =====
-- src/utilities/util.cpp: `busy_wait` and `time_copy`.
use reliable_service_framewo.Prelude.{
  ℕ, zero, suc, ◌+◌, ◌*◌, ◌≤◌, ◌<◌, ◌≡◌, refl, ap, ◌⊎◌, ◌==◌, true, false, Option, none, some,
  if◌then◌else◌, Bool-cases, inl, inr, arith,
}
use reliable_service_framewo.Prelude.Int.{pos, ltb_ℤ}
use reliable_service_framewo.Time.{TimeSpec, time_add_ms, time_cmp}
use reliable_service_framewo.Time.Laws.{nanos, IsNormal}

unfoldable pub time_copy : TimeSpec → TimeSpec
time_copy src = record { tv_sec = src.tv_sec; tv_nsec = src.tv_nsec }

-- `do { now = clock k; } while (time_cmp(&now, &t) < 0);` from the reading `k` on, for as many rounds
-- as there is fuel. The result is the last reading, by its number.
unfoldable pub wait_loop : ℕ → TimeSpec → (ℕ → TimeSpec) → ℕ → Option ℕ
wait_loop zero t clock k = none
wait_loop (suc f) t clock k =
    let rest = wait_loop f t clock (k + 1) in
    if ltb_ℤ (time_cmp (clock k) t) (pos 0) then rest else some k

-- `start` is the first reading of the clock, and `clock` gives those of the loop.
unfoldable pub busy_wait : ℕ → ℕ → TimeSpec → (ℕ → TimeSpec) → Option ℕ
unfolding wait_loop
busy_wait fuel ms start clock = wait_loop fuel (time_add_ms start ms) clock 0

-- The test, in nanoseconds.
is_early :
    (start now : TimeSpec) (ms : ℕ)
    → IsNormal start
    → IsNormal now
    → ((ltb_ℤ (time_cmp now (time_add_ms start ms)) (pos 0) ≡ true)
        × (nanos now < nanos start + ms * 1_000_000))
      ⊎ ((ltb_ℤ (time_cmp now (time_add_ms start ms)) (pos 0) ≡ false)
          × (nanos start + ms * 1_000_000 ≤ nanos now))
unfolding time_add_ms time_cmp
is_early start now ms h k = ground arith

module _ (ms : ℕ) (start : TimeSpec) (clock : ℕ → TimeSpec) (normal : IsNormal start)
    (readings : (k : ℕ) → IsNormal (clock k)) where
  abbrev until : ℕ
  until = nanos start + ms * 1_000_000

  -- What the loop gives from the reading `k` on, when the reading `n` is late enough.
  abbrev EndsAt : ℕ → ℕ → Option ℕ → Type 0
  EndsAt k n r =
      (i : ℕ) × (r ≡ some i)
      × (i ≤ n)
      × (until ≤ nanos (clock i))
      × ((j : ℕ) → k ≤ j → j < i → nanos (clock j) < until)

  wait_loop_ends :
      (f k n : ℕ)
      → k + f ≡ n
      → until ≤ nanos (clock n)
      → EndsAt k n (wait_loop (suc f) (time_add_ms start ms) clock k)
  unfolding wait_loop
  wait_loop_ends zero k n e late = elim (is_early start (clock k) ms normal (readings k)) [
    | inl (on, early) ↦
        let here : k ≡ n = omega arith in
        absurd (omega (arith, early, ap (λ m. nanos (clock m)) here))
    | inr (off, done) ↦ (k, rw off refl, omega arith, done, λ j a b. absurd (omega arith))
  ]
  wait_loop_ends (suc f) k n e late = elim (is_early start (clock k) ms normal (readings k)) [
    | inl (on, early) ↦
        let (i, ends, low, done, before) = wait_loop_ends f (k + 1) n (omega arith) late in
        (
          i,
          rw on ends,
          low,
          done,
          λ j a b. elim (Bool-cases (k == j)) [
            | inl same ↦
                let here : k ≡ j = ground arith in
                omega (arith, early, ap (λ m. nanos (clock m)) here)
            | inr other ↦ before j (ground arith) b
          ],
        )
    | inr (off, done) ↦ (k, rw off refl, omega arith, done, λ j a b. absurd (omega arith))
  ]

  -- When some reading `n` of the clock is `ms` milliseconds or more behind the first, `busy_wait`
  -- ends within `n + 1` rounds (all readings are normal), at the first of its readings that is
  -- that late.
  pub busy_wait_ends :
      (n : ℕ)
      → until ≤ nanos (clock n)
      → (i : ℕ) × (busy_wait (suc n) ms start clock ≡ some i)
        × (i ≤ n)
        × (until ≤ nanos (clock i))
        × ((j : ℕ) → j < i → nanos (clock j) < until)
  unfolding busy_wait
  busy_wait_ends n late =
      let (i, ends, low, done, before) = wait_loop_ends n 0 n (omega arith) late in
      (i, ends, low, done, λ j b. before j (omega arith) b)
