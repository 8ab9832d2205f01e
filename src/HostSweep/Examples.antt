-- ===== src/HostSweep/Examples.antt =====
-- The sweep's rules at one silent claim.
use pocketclaw_telegram.SessionDb.{ProcessingAck, ack_processing}
use pocketclaw_telegram.HostSweep.Claimed.{Unique}
use pocketclaw_telegram.HostSweep.Settled.{settle, reset_rows-settle}
use pocketclaw_telegram.HostSweep.{
  decide_stuck_action, reset_rows, first_stuck, at, bash_timeout_ms, kill_claim,
}
use pocketclaw_telegram.Fixtures.{row, inbox}
use pocketclaw_telegram.Prelude.{◌≡◌, ◌∷◌, [], none, map, refl}
use pocketclaw_telegram.HostSweep.Stuck.{Justified, decide_stuck_action-Justified}

abbrev claim : ProcessingAck
claim = record { message_id = "m-1"; status = ack_processing; status_changed = at 1000 }

abbrev one : Unique (row ∷ [])
one = (refl, tt)

decide_stuck_action-Justified_example :
    Justified 100000 0 none (claim ∷ []) (kill_claim "m-1" 99000 60000)
unfolding decide_stuck_action first_stuck bash_timeout_ms
decide_stuck_action-Justified_example = decide_stuck_action-Justified 100000 0 none (claim ∷ [])

reset_rows-settle_example :
    reset_rows 100000 inbox (claim ∷ [])
    ≡ record inbox { messages_in = map (settle 100000 (claim ∷ [])) (row ∷ []) }
reset_rows-settle_example = reset_rows-settle 100000 inbox (claim ∷ []) one
