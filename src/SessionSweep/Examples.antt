-- ===== src/SessionSweep/Examples.antt =====
-- A tick over a session whose container is silent, and over one whose container is gone.
use pocketclaw_telegram.SessionDb.{ProcessingAck, OutboundDb, ack_processing, at, completed}
use pocketclaw_telegram.SessionSweep.{Tick, SweptSession, is_wake_due, sweep_session, sync_step}
use pocketclaw_telegram.Prelude.{String, true, ℕ, ◌∷◌, some, Option, ◌≡◌, [], ◌+◌, ◌⊎◌, false, suc}
use pocketclaw_telegram.SessionSweep.Cleaning.{kills, claims_of}
use pocketclaw_telegram.SessionSweep.Ticks.{sweep_session-kills}
use pocketclaw_telegram.Fixtures.{outbox, inbox, row}

abbrev claim : ProcessingAck
claim = record { message_id = "m-1"; status = ack_processing; status_changed = at 1000 }

abbrev claimed : OutboundDb
claimed = record outbox { processing_ack = claim ∷ [] }

abbrev tick : Tick
tick = record { reachable = true; now = 100000; heartbeat = 0; spawns = true; writable = true }

abbrev silent : SweptSession
silent = record { in_db = inbox; out_db = some claimed; running = true; actions = [] }

-- Nothing is due: the only message is one that the container has completed.
abbrev gone : SweptSession
gone = record {
  in_db = record { messages_in = record row { status = completed } ∷ []; delivered = [] };
  out_db = some claimed;
  running = false;
  actions = [];
}

abbrev next_run : String → ℕ → Option ℕ
next_run cron now = some (now + 1)

abbrev new_id : String → ℕ → String
new_id prefix n = prefix

sweep_session-kills_example :
    (kills (sweep_session next_run new_id tick silent).actions ≡ kills silent.actions)
    ⊎ ((silent.running ≡ true)
        × (is_wake_due tick (sync_step silent) ≡ false)
        × (kills (sweep_session next_run new_id tick silent).actions ≡ suc (kills silent.actions))
        × ((tick.writable ≡ false) ⊎ (claims_of (sweep_session next_run new_id tick silent) ≡ [])))
sweep_session-kills_example = sweep_session-kills next_run new_id tick silent
