-- ===== src/Router/Examples.antt =====
-- Routing one event to one wired agent.
use pocketclaw_telegram.Router.Event.{evaluate_engage, declined, Event}
use pocketclaw_telegram.Router.Refused.{KeptOut, refused_command_stays_out}
use pocketclaw_telegram.Delivery.Attempts.{world_of}
use pocketclaw_telegram.CommandGate.{pass, gate_command, gate_text, trim, has_command}
use pocketclaw_telegram.World.{get_agent_group}
use pocketclaw_telegram.Router.Agents.{gate_result, deliver_to_agent, consider_agent, fan_out}
use pocketclaw_telegram.Prelude.{◌≡◌, ◌∷◌, false, [], true, none, some, ◌↔◌, refl, ◌≢◌}
use pocketclaw_telegram.Fixtures.{env, world, event, wiring, hooks, chat}
use pocketclaw_telegram.Router.FanOut.{Accounts, consider_agent-Accounts}
use pocketclaw_telegram.Router.Silence.{SilentTurns, fan_out-Silent}
use pocketclaw_telegram.Types.{mention_sticky}
use pocketclaw_telegram.Router.Engage.{Engages, evaluate_engage_iff}

evaluate_engage_iff_example :
    (evaluate_engage env world wiring "hi" true chat (some "t-1") ≡ true)
    ↔ Engages env world mention_sticky wiring "hi" true chat (some "t-1")
evaluate_engage_iff_example = evaluate_engage_iff env world wiring "hi" true chat (some "t-1")

consider_agent-Accounts_example :
    Accounts env hooks none chat event none "hi" false wiring world declined world
unfolding consider_agent evaluate_engage
consider_agent-Accounts_example =
    consider_agent-Accounts env hooks none chat event none "hi" false wiring world declined false
      world refl

fan_out-Silent_example :
    SilentTurns env hooks none chat event none "hi" (wiring ∷ []) false world world
unfolding fan_out consider_agent evaluate_engage get_agent_group
fan_out-Silent_example =
    fan_out-Silent env hooks none chat event none "hi" (wiring ∷ []) 0 false world world refl

-- A text that is no JSON is the command itself.
abbrev asks_help : Event
asks_help = record event { content = "/help" }

help_refused : gate_result env world wiring asks_help none ≢ pass
unfolding gate_result gate_command gate_text trim has_command
help_refused same = cc

refused_command_stays_out_example :
    KeptOut world (world_of (deliver_to_agent env wiring chat asks_help none true true world))
refused_command_stays_out_example =
    refused_command_stays_out env wiring asks_help chat none true true world help_refused
