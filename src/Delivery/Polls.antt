-- ===== src/Delivery/Polls.antt =====
-- The two timer chains of src/delivery.ts, which both call `deliverSessionMessages`: its steps between
-- two suspensions, with the drains that have begun and not ended.
pub mod Exclusion
use pocketclaw_telegram.Prelude.{
  List, [], String, ℕ, Bool, if◌then◌else◌, select, any, ◌∷◌, eqb, not, ◌==◌, ◌&&◌,
}
use mathlib.Core.List.{Memᴰ}

-- `inflight` is `inflightDeliveries`; `drains` are the calls of `drainSession` under way, each with the
-- number of the chain that waits for it.
pub record Polls : Type 0 where
  pub inflight : List String
  pub drains : List (ℕ × String)

abbrev pub no_polls : Polls
no_polls = record { inflight = []; drains = [] }

abbrev pub is_inflight : String → Polls → Bool
is_inflight id p = any (λ s. s == id) p.inflight

-- The call up to the drain: the guard, and the session added.
unfoldable pub begin_drain : ℕ → String → Polls → Polls
begin_drain chain id p =
    if is_inflight id p
    then p
    else record { inflight = id ∷ p.inflight; drains = (chain, id) ∷ p.drains }

abbrev pub is_drain : ℕ → String → ℕ × String → Bool
is_drain chain id d = eqb d.0 chain && d.1 == id

-- The end of the call, whether the drain returned or threw: `finally`.
unfoldable pub end_drain : ℕ → String → Polls → Polls
end_drain chain id p = record {
  inflight = select (λ s. not (s == id)) p.inflight;
  drains = select (λ d. not (is_drain chain id d)) p.drains;
}

-- A chain calls for a session at any time, and a drain under way ends at any time.
pub data Step : Polls → Polls → Type 0 where
  begins : (chain : ℕ) (id : String) (p : Polls) → Step p (begin_drain chain id p)
  ends :
      (chain : ℕ) (id : String) (p : Polls)
      → Memᴰ (chain, id) p.drains
      → Step p (end_drain chain id p)

pub data Reachable : Polls → Type 0 where
  start : Reachable no_polls
  step : {p q : Polls} → Reachable p → Step p q → Reachable q
