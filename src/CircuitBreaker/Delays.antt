-- ===== src/CircuitBreaker/Delays.antt =====
-- The delays of src/circuit-breaker.ts over a row of crashes.
use pocketclaw_telegram.Prelude.{
  if◌then◌else◌, Option, ℕ, List, ◌+◌, ◌≤◌, ◌∷◌, ◌≡◌, ◌<◌, ap, length, none, arith, [], min, ltb,
  ◌-◌, zero, true, ◌∙◌, max,
}
use pocketclaw_telegram.CircuitBreaker.{
  get_delay, enforce_startup_backoff, CircuitBreakerState, next_attempt, crash_all, some,
  reset_window_ms, element, backoff_schedule, suc,
}

-- The attempt that a state counts; none where there is no state.
abbrev pub attempt_of : Option CircuitBreakerState → ℕ
attempt_of none = 0
attempt_of (some s) = s.attempt

-- Each start comes less than an hour after the one before.
abbrev pub Close : ℕ → List ℕ → Type 0
Close last [] = Unit
Close last (now ∷ later) = (now < last + reset_window_ms) × Close now later

get_delay_top : (attempt : ℕ) → 7 ≤ attempt → get_delay attempt ≡ 900
unfolding get_delay
get_delay_top attempt h =
    let last : min (attempt - 1) 6 ≡ 6 = omega arith in ap (element backoff_schedule) last

-- The delay never falls from one attempt to the next, is at most 15 minutes, is none for the first two
-- attempts, and is 15 minutes from the seventh attempt on.
pub get_delay_bounds :
    (attempt : ℕ)
    → (get_delay attempt ≤ get_delay (attempt + 1))
      × (get_delay attempt ≤ 900)
      × (get_delay (min attempt 2) ≡ 0)
      × (get_delay (max attempt 7) ≡ 900)
unfolding get_delay
get_delay_bounds zero = (omega arith, omega arith, omega arith, omega arith)
get_delay_bounds (suc zero) = (omega arith, omega arith, omega arith, omega arith)
get_delay_bounds (suc (suc zero)) = (omega arith, omega arith, omega arith, omega arith)
get_delay_bounds (suc (suc (suc zero))) = (omega arith, omega arith, omega arith, omega arith)
get_delay_bounds (suc (suc (suc (suc zero)))) = (omega arith, omega arith, omega arith, omega arith)
get_delay_bounds (suc (suc (suc (suc (suc zero))))) =
    (omega arith, omega arith, omega arith, omega arith)
get_delay_bounds (suc (suc (suc (suc (suc (suc zero)))))) =
    (omega arith, omega arith, omega arith, omega arith)
get_delay_bounds (suc (suc (suc (suc (suc (suc (suc n))))))) =
    large (suc (suc (suc (suc (suc (suc (suc n))))))) (omega arith)
  where
    large :
        (m : ℕ)
        → 7 ≤ m
        → (get_delay m ≤ get_delay (m + 1))
          × (get_delay m ≤ 900)
          × (get_delay (min m 2) ≡ 0)
          × (get_delay (max m 7) ≡ 900)
    large m h =
        let now : get_delay m ≡ 900 = get_delay_top m h in
        let next : get_delay (m + 1) ≡ 900 = get_delay_top (m + 1) (omega arith) in
        let low : min m 2 ≡ 2 = omega arith in
        let high : max m 7 ≡ m = omega arith in
        (omega arith, omega arith, ap get_delay low, ap get_delay high ∙ now)

-- A row of crashes, each start less than an hour after the last, is counted: after it the breaker's
-- attempt is the one before plus the number of starts.
pub crash_all-counts :
    (prev : CircuitBreakerState) (times : List ℕ)
    → Close prev.timestamp times
    → attempt_of (crash_all (some prev) times) ≡ prev.attempt + length times
unfolding enforce_startup_backoff next_attempt
crash_all-counts prev [] h = omega arith
crash_all-counts prev (now ∷ later) h =
    let close : ltb (now - prev.timestamp) reset_window_ms ≡ true = ground (arith, h.0) in
    ap
      (λ b. attempt_of (
        crash_all (some (record { attempt = if b then prev.attempt + 1 else 1; timestamp = now }))
          later))
      close
    ∙ (crash_all-counts (record { attempt = prev.attempt + 1; timestamp = now }) later h.1
        ∙ omega arith)
