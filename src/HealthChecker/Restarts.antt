-- ===== src/HealthChecker/Restarts.antt =====
-- When the health checkers restart a process (src/health_checker_broker/health_checker_broker_class.cpp
-- and src/health_checker_server/health_checker_server_class.cpp).
use reliable_service_framewo.Prelude.{
  ℕ, zero, suc, ◌-◌, ◌≤◌, ◌≡◌, refl, ap, Bool, true, false, List, [], ◌∷◌, All, arith, inl, inr,
  Bool-cases, if◌then◌else◌,
}
use reliable_service_framewo.HealthChecker.{
  HealthChecker, Action, ping, kill, start, heartbeat_liveness, step, run,
}

-- The counter stays between 1 and its start.
pub record IsAlert (h : HealthChecker) : Type 0 where
  pub counting : 1 ≤ h.hb_liveness
  pub bounded : h.hb_liveness ≤ heartbeat_liveness

step-IsAlert :
    (pong : Bool) (child : ℕ) (h : HealthChecker) → IsAlert h → IsAlert (step pong child h).0
unfolding step
step-IsAlert pong child h a = ground arith

run-IsAlert : (rounds : List (Bool × ℕ)) (h : HealthChecker) → IsAlert h → IsAlert (run rounds h).0
unfolding run
run-IsAlert [] h a = a
run-IsAlert ((pong, child) ∷ rounds) h a =
    run-IsAlert rounds (step pong child h).0 (step-IsAlert pong child h a)

-- Rounds without a pong, three by three, with the processes that `fork` would make in them.
abbrev pub quiet : List (ℕ × ℕ × ℕ) → List (Bool × ℕ)
quiet [] = []
quiet ((a, b, c) ∷ children) = (false, a) ∷ (false, b) ∷ (false, c) ∷ quiet children

-- The process is killed, and the one made in the last of three rounds is started.
abbrev pub restarts : ℕ → List (ℕ × ℕ × ℕ) → List Action
restarts pid [] = []
restarts pid ((a, b, c) ∷ children) = kill pid ∷ start c ∷ restarts c children

-- While a ping is out, the counter at its start, and no pong comes, the monitored process is
-- restarted in every third round, each time in place of the one before, and no other ping is sent.
pub silence_restarts :
    (children : List (ℕ × ℕ × ℕ)) (h : HealthChecker)
    → h.hb_liveness ≡ heartbeat_liveness
    → h.pong_arrived ≡ false
    → (run (quiet children) h).1 ≡ restarts h.pid children
unfolding run step
silence_restarts [] h full out = refl
silence_restarts ((a, b, c) ∷ children) h full out =
    let h' : HealthChecker = record {
      pid = c;
      hb_liveness = heartbeat_liveness;
      pong_arrived = false;
    } in
    rw (full, out)
      (ap (λ acts. kill h.pid ∷ start c ∷ acts) (silence_restarts children h' refl refl))

-- At most `k` rounds without a pong at first, and at most three behind each pong.
abbrev pub Answers : ℕ → List (Bool × ℕ) → Type 0
Answers k [] = Unit
Answers k ((true, child) ∷ rounds) = Answers 3 rounds
Answers zero ((false, child) ∷ rounds) = ⊥
Answers (suc k) ((false, child) ∷ rounds) = Answers k rounds

-- The rounds without a pong that the checker still bears.
abbrev pub patience : HealthChecker → ℕ
patience h = if h.pong_arrived then h.hb_liveness else h.hb_liveness - 1

step_answered :
    (child : ℕ) (h : HealthChecker)
    → step true child h ≡ (record h { hb_liveness = heartbeat_liveness; pong_arrived = true }, [])
unfolding step
step_answered child h = refl

step_sent :
    (child : ℕ) (h : HealthChecker)
    → h.pong_arrived ≡ true
    → step false child h ≡ (record h { pong_arrived = false }, ping ∷ [])
unfolding step
step_sent child h came = rw came

step_missed :
    (child : ℕ) (h : HealthChecker)
    → IsAlert h
    → h.pong_arrived ≡ false
    → 2 ≤ h.hb_liveness
    → step false child h ≡ (record h { hb_liveness = h.hb_liveness - 1 }, [])
unfolding step
step_missed child h alert out room = ground arith

-- A health checker whose counter is between 1 and its start, and at its start after a pong, only
-- sends pings, and restarts nothing, as long as no more rounds pass without a pong than it bears
-- at first, and no more than three behind each pong.
pub answering_no_restart :
    (rounds : List (Bool × ℕ)) (h : HealthChecker) (k : ℕ)
    → IsAlert h
    → (h.pong_arrived ≡ true → h.hb_liveness ≡ heartbeat_liveness)
    → k ≤ patience h
    → Answers k rounds
    → All (λ a. a ≡ ping) (run rounds h).1
unfolding run
answering_no_restart [] h k alert fresh bears ans = tt
answering_no_restart ((true, child) ∷ rounds) h k alert fresh bears ans =
    let h' : HealthChecker = record h { hb_liveness = heartbeat_liveness; pong_arrived = true } in
    rw (step_answered child h)
      (answering_no_restart rounds h' 3 (omega arith) (λ _. refl) (omega arith) ans)
answering_no_restart ((false, child) ∷ rounds) h zero alert fresh bears ans = absurd ans
answering_no_restart ((false, child) ∷ rounds) h (suc k) alert fresh bears ans =
    elim (Bool-cases h.pong_arrived) [
      | inl came ↦ rw (step_sent child h came) (
        refl,
        answering_no_restart rounds (record h { pong_arrived = false }) k
            (record { counting = alert.counting; bounded = alert.bounded }) (λ e. cc)
            (ground (arith, fresh came)) ans,
      )
      | inr out ↦
          let room : 2 ≤ h.hb_liveness = ground arith in
          let h' : HealthChecker = record h { hb_liveness = h.hb_liveness - 1 } in
          rw (step_missed child h alert out room) (
            answering_no_restart rounds h' k
              (record { counting = omega arith; bounded = omega arith }) (λ e. cc) (ground arith)
              ans)
    ]
