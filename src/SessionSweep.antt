-- ===== src/SessionSweep.antt =====
-- One tick of the sweep over one session: `sweepSession` and `enforceRunningContainerSla` in
-- src/host-sweep.ts.
pub mod Cleaning
pub mod Ticks
mod Examples
use pocketclaw_telegram.Prelude.{
  ℕ, String, Bool, true, false, not, ◌&&◌, ◌||◌, Option, none, some, List, [], ◌∷◌, ltb,
  if◌then◌else◌,
}
use pocketclaw_telegram.SessionDb.Acks.{sync_processing_acks, get_processing_claims}
use pocketclaw_telegram.SessionDb.{InboundDb, OutboundDb, count_due_messages}
use pocketclaw_telegram.HostSweep.{
  StuckDecision, no_action, kill_ceiling, kill_claim, decide_stuck_action,
  reset_stuck_processing_rows,
}
use pocketclaw_telegram.Scheduling.{handle_recurrence}

pub data SweepAction : Type 0 where
  woke : SweepAction
  killed_for_ceiling : SweepAction
  killed_for_claim : String → SweepAction

-- `running` is `isContainerRunning`; `out_db` is null where the file does not open.
pub record SweptSession : Type 0 where
  pub in_db : InboundDb
  pub out_db : Option OutboundDb
  pub running : Bool
  pub actions : List SweepAction

-- What the tick reads besides: whether the agent group exists and the inbound database opens, the
-- clock, the heartbeat's time, whether a spawn succeeds, and whether the outbound database opens
-- for writing.
pub record Tick : Type 0 where
  pub reachable : Bool
  pub now : ℕ
  pub heartbeat : ℕ
  pub spawns : Bool
  pub writable : Bool

abbrev pub sync_step : SweptSession → SweptSession
sync_step s = elim s.out_db [
  | none ↦ s
  | some out ↦ record s { in_db = sync_processing_acks s.in_db out }
]

unfoldable pub is_wake_due : Tick → SweptSession → Bool
is_wake_due t s = ltb 0 (count_due_messages t.now s.in_db) && not s.running

abbrev pub wake_step : Tick → SweptSession → SweptSession
wake_step t s =
    if is_wake_due t s then record s { running = t.spawns; actions = woke ∷ s.actions } else s

-- `resetStuckProcessingRows` on an outbound database that opened.
unfoldable pub reset_step : Tick → OutboundDb → SweptSession → SweptSession
reset_step t out s =
    let (in_db, out') = reset_stuck_processing_rows t.now t.writable s.in_db out in
    record s { in_db = in_db; out_db = some out' }

-- The kill only asks the container to stop; the process is still registered when the tick ends.
unfoldable pub enforce_sla : Tick → OutboundDb → SweptSession → SweptSession
enforce_sla t out s =
    elim (decide_stuck_action t.now t.heartbeat out.container_state (get_processing_claims out)) [
      | no_action ↦ s
      | kill_ceiling age ceiling ↦
          reset_step t out (record s { actions = killed_for_ceiling ∷ s.actions })
      | kill_claim id age tolerance ↦
          reset_step t out (record s { actions = killed_for_claim id ∷ s.actions })
    ]

-- Steps 3 and 4, of which a tick takes one at most.
unfoldable pub clean_step : Tick → Bool → SweptSession → SweptSession
clean_step t just_woke s = elim s.out_db [
  | none ↦ s
  | some out ↦
      if s.running then (if just_woke then s else enforce_sla t out s) else reset_step t out s
]

module _ (next_run : String → ℕ → Option ℕ) (new_id : String → ℕ → String) where
  unfoldable pub recurrence_step : Tick → SweptSession → SweptSession
  recurrence_step t s = record s { in_db = handle_recurrence next_run new_id t.now s.in_db }

  abbrev pub tick_open : Tick → SweptSession → SweptSession
  tick_open t s =
      recurrence_step t (clean_step t (is_wake_due t (sync_step s)) (wake_step t (sync_step s)))

  unfoldable pub sweep_session : Tick → SweptSession → SweptSession
  sweep_session t s = if t.reachable then tick_open t s else s
