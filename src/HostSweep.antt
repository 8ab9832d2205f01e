-- ===== src/HostSweep.antt =====
-- src/host-sweep.ts: stuck containers, retries with backoff, and one sweep of a session.
pub mod Stuck
pub mod Backoff
pub mod Claimed
pub mod Settled
mod Examples
use pocketclaw_telegram.Prelude.{
  ℕ, zero, suc, ◌+◌, ◌-◌, ◌*◌, ◌/◌, ◌^◌, max, String, ◌==◌, Bool, true, false, not, ◌&&◌, ◌||◌,
  Option, none, some, List, [], ◌∷◌, ltb, leb, eqb, if◌then◌else◌,
}
use pocketclaw_telegram.SessionDb.Acks.{
  get_processing_claims, delete_orphan_processing_claims, sync_processing_acks,
}
use pocketclaw_telegram.SessionDb.{
  Timestamp, unreadable, at, MessageIn, InboundDb, ProcessingAck, ContainerState, OutboundDb,
  mark_message_failed, retry_with_backoff, get_message_for_retry, count_due_messages,
}

abbrev pub absolute_ceiling_ms : ℕ
absolute_ceiling_ms = 1800000

abbrev pub claim_stuck_ms : ℕ
claim_stuck_ms = 60000

abbrev pub max_tries : ℕ
max_tries = 5

abbrev pub backoff_base_ms : ℕ
backoff_base_ms = 5000

pub data StuckDecision : Type 0 where
  no_action : StuckDecision
  kill_ceiling : ℕ → ℕ → StuckDecision
  kill_claim : String → ℕ → ℕ → StuckDecision

abbrev is_bash : Option String → Bool
is_bash none = false
is_bash (some tool) = tool == "Bash"

unfoldable pub bash_timeout_ms : Option ContainerState → Option ℕ
bash_timeout_ms none = none
bash_timeout_ms (some s) = if is_bash s.current_tool then s.tool_declared_timeout_ms else none

abbrev pub or_zero : Option ℕ → ℕ
or_zero none = 0
or_zero (some n) = n

-- The loop over the claims. A claim in the future has a negative age in the source, which is within
-- any tolerance, as the truncated age 0 is.
unfoldable pub first_stuck : ℕ → ℕ → ℕ → List ProcessingAck → StuckDecision
first_stuck now heartbeat tolerance [] = no_action
first_stuck now heartbeat tolerance (c ∷ cs) =
    let rest = first_stuck now heartbeat tolerance cs in
    elim c.status_changed [
      | unreadable ↦ rest
      | at claimed_at ↦
          if leb (now - claimed_at) tolerance
          then rest
          else if ltb claimed_at heartbeat
          then rest
          else kill_claim c.message_id (now - claimed_at) tolerance
    ]

-- Times are whole milliseconds; a heartbeat of 0 is an absent file.
unfoldable pub decide_stuck_action :
    ℕ → ℕ → Option ContainerState → List ProcessingAck → StuckDecision
decide_stuck_action now heartbeat state claims =
    let ceiling = max absolute_ceiling_ms (or_zero (bash_timeout_ms state)) in
    let tolerance = max claim_stuck_ms (or_zero (bash_timeout_ms state)) in
    if not (eqb heartbeat 0) && ltb ceiling (now - heartbeat)
    then kill_ceiling (now - heartbeat) ceiling
    else first_stuck now heartbeat tolerance claims

-- `msg.processAfter && parseSqliteUtc(msg.processAfter) > now`
abbrev pub is_scheduled : ℕ → Option Timestamp → Bool
is_scheduled now none = false
is_scheduled now (some unreadable) = false
is_scheduled now (some (at t)) = ltb now t

unfoldable pub backoff_sec : ℕ → ℕ
backoff_sec tries = backoff_base_ms * 2 ^ tries / 1000

-- One round of the loop of `resetStuckProcessingRows`.
unfoldable pub reset_row : ℕ → InboundDb → String → InboundDb
reset_row now db message_id = elim (get_message_for_retry db message_id) [
  | none ↦ db
  | some msg ↦
      if is_scheduled now msg.process_after
      then db
      else if leb max_tries msg.tries
      then mark_message_failed db msg.id
      else retry_with_backoff now db msg.id (backoff_sec msg.tries)
]

unfoldable pub reset_rows : ℕ → InboundDb → List ProcessingAck → InboundDb
reset_rows now db [] = db
reset_rows now db (c ∷ cs) = reset_rows now (reset_row now db c.message_id) cs

-- `writable` says whether the outbound database opens for writing; if not, the error is logged and
-- the claims stay.
unfoldable pub reset_stuck_processing_rows :
    ℕ → Bool → InboundDb → OutboundDb → InboundDb × OutboundDb
reset_stuck_processing_rows now writable in_db out_db = (
  reset_rows now in_db (get_processing_claims out_db),
  (if writable then delete_orphan_processing_claims out_db else out_db),
)
