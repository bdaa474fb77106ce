-- ===== src/Tests/OfProcesses.antt =====
-- src/health_checker_broker and src/health_checker_server: rounds of the health checkers.
use reliable_service_framewo.Prelude.{ℕ, ◌≡◌, refl, Bool, true, false, List, [], ◌∷◌, All, arith}
use reliable_service_framewo.HealthChecker.{
  HealthChecker, ping, kill, start, heartbeat_liveness, run,
}
use reliable_service_framewo.HealthChecker.Restarts.{quiet, silence_restarts, answering_no_restart}

-- The state behind the first ping.
abbrev started : HealthChecker
started = record { pid = 50; hb_liveness = heartbeat_liveness; pong_arrived = false }

silence_restarts_example :
    (run (quiet ((51, 52, 53) ∷ (54, 55, 56) ∷ [])) started).1
    ≡ kill 50 ∷ start 53 ∷ kill 53 ∷ start 56 ∷ []
silence_restarts_example = silence_restarts ((51, 52, 53) ∷ (54, 55, 56) ∷ []) started refl refl

-- Two silent rounds, a pong, three silent rounds, and a pong.
abbrev answering : List (Bool × ℕ)
answering =
    (false, 51)
    ∷ (false, 52)
    ∷ (true, 53)
    ∷ (false, 54)
    ∷ (false, 55)
    ∷ (false, 56)
    ∷ (true, 57)
    ∷ []

answering_no_restart_example : All (λ a. a ≡ ping) (run answering started).1
answering_no_restart_example =
    answering_no_restart answering started 2
      (record { counting = omega arith; bounded = omega arith }) (λ _. refl) (omega arith) tt
