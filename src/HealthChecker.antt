-- ===== src/HealthChecker.antt =====
-- src/utilities/health_checker_class.cpp, src/health_checker_broker/health_checker_broker_class.cpp and
-- src/health_checker_server/health_checker_server_class.cpp. The two subclasses have the same `step`
-- and `restart_process` up to the interval of the poll and the program that is started.
pub mod Restarts
use reliable_service_framewo.Prelude.{
  ℕ, ◌+◌, ◌-◌, ◌%◌, ◌^◌, Bool, true, false, List, [], ◌∷◌, ◌++◌, ◌==◌, if◌then◌else◌,
}

abbrev pub heartbeat_liveness : ℕ
heartbeat_liveness = 3

pub record HealthChecker : Type 0 where
  pub pid : ℕ
  pub hb_liveness : ℕ  -- uint8_t
  pub pong_arrived : Bool  -- the local variable of `step`

pub data Action : Type 0 where
  ping : Action
  kill : ℕ → Action
  start : ℕ → Action

-- The constructor, and the first ping of `step`.
unfoldable pub create : ℕ → HealthChecker × List Action
create pid =
    (record { pid = pid; hb_liveness = heartbeat_liveness; pong_arrived = false }, ping ∷ [])

-- `restart_process`, in the parent; `child` is what `fork` returns, for a fork that succeeds.
unfoldable pub restart_process : ℕ → HealthChecker → HealthChecker × List Action
restart_process child h = (record h { pid = child }, kill h.pid ∷ start child ∷ [])

-- One round: whether the poll found a pong, and the process that a restart would start.
unfoldable pub step : Bool → ℕ → HealthChecker → HealthChecker × List Action
unfolding restart_process
step pong child h =
    let fewer = (h.hb_liveness + 2 ^ 8 - 1) % 2 ^ 8 in
    if pong
    then (record h { hb_liveness = heartbeat_liveness; pong_arrived = true }, [])
    else if h.pong_arrived
    then (record h { pong_arrived = false }, ping ∷ [])
    else if fewer == 0
    then restart_process child (record h { hb_liveness = heartbeat_liveness })
    else (record h { hb_liveness = fewer }, [])

unfoldable pub run : List (Bool × ℕ) → HealthChecker → HealthChecker × List Action
run [] h = (h, [])
run ((pong, child) ∷ rounds) h =
    let (h', acts) = step pong child h in let (h'', more) = run rounds h' in (h'', acts ++ more)
