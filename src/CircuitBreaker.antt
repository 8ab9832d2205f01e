-- ===== src/CircuitBreaker.antt =====
-- src/circuit-breaker.ts: the delay before a start that follows crashes. The file that keeps the state
-- is an optional value, absent where it is missing or no JSON; its timestamp is in milliseconds.
pub mod Delays
use pocketclaw_telegram.Prelude.{
  ℕ, List, Option, ◌*◌, ◌∷◌, min, none, some, [], ◌-◌, if◌then◌else◌, suc, length, ltb, zero, ◌+◌,
}

pub record CircuitBreakerState : Type 0 where
  pub attempt : ℕ
  pub timestamp : ℕ

abbrev pub reset_window_ms : ℕ
reset_window_ms = 60 * 60 * 1000

-- `BACKOFF_SCHEDULE_S`
abbrev pub backoff_schedule : List ℕ
backoff_schedule = 0 ∷ 0 ∷ 10 ∷ 30 ∷ 120 ∷ 300 ∷ 900 ∷ []

abbrev pub element : List ℕ → ℕ → ℕ
element [] i = 0
element (x ∷ xs) zero = x
element (x ∷ xs) (suc i) = element xs i

-- An attempt is at least 1, so the index is no less than 0.
unfoldable pub get_delay : ℕ → ℕ
get_delay attempt = element backoff_schedule (min (attempt - 1) (length backoff_schedule - 1))

-- A clock that went back gives a negative time, which is within the window.
unfoldable pub next_attempt : Option CircuitBreakerState → ℕ → ℕ
next_attempt none now = 1
next_attempt (some prev) now =
    if ltb (now - prev.timestamp) reset_window_ms then prev.attempt + 1 else 1

-- The state that is written, and the seconds to wait.
unfoldable pub enforce_startup_backoff : Option CircuitBreakerState → ℕ → CircuitBreakerState × ℕ
enforce_startup_backoff prev now = (
  (record { attempt = next_attempt prev now; timestamp = now }),
  get_delay (next_attempt prev now),
)

unfoldable pub reset_circuit_breaker : Option CircuitBreakerState → Option CircuitBreakerState
reset_circuit_breaker state = none

-- The starts that crash, each at its time, from the state that the first of them finds.
abbrev pub crash_all : Option CircuitBreakerState → List ℕ → Option CircuitBreakerState
crash_all state [] = state
crash_all state (now ∷ later) = crash_all (some (enforce_startup_backoff state now).0) later
