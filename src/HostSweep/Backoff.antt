-- ===== src/HostSweep/Backoff.antt =====
-- The wait before a retry: `resetStuckProcessingRows` in src/host-sweep.ts.
use pocketclaw_telegram.Prelude.{ℕ, zero, suc, ◌*◌, ◌/◌, ◌^◌, ◌≤◌, ◌<◌, ◌≡◌, arith}
use pocketclaw_telegram.HostSweep.{max_tries, backoff_sec}

-- For a message that is still retried, the wait doubles with each try, from 5 seconds to at most 80.
pub backoff_sec_bounds :
    (tries : ℕ)
    → tries < max_tries
    → (backoff_sec tries ≡ 5 * 2 ^ tries) × (5 ≤ backoff_sec tries) × (backoff_sec tries ≤ 80)
unfolding backoff_sec
backoff_sec_bounds tries h = (omega arith, (small tries h).0, (small tries h).1)
  where
    small : (n : ℕ) → n < 5 → (5 ≤ 5000 * 2 ^ n / 1000) × (5000 * 2 ^ n / 1000 ≤ 80)
    small zero h = omega arith
    small (suc zero) h = omega arith
    small (suc (suc zero)) h = omega arith
    small (suc (suc (suc zero))) h = omega arith
    small (suc (suc (suc (suc zero)))) h = omega arith
    small (suc (suc (suc (suc (suc n))))) h = absurd (omega arith)
