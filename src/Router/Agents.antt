-- ===== src/Router/Agents.antt =====
-- `deliverToAgent` and the fan-out over the wired agents of src/router.ts.
use Prim.Native.String
use pocketclaw_telegram.Prelude.{
  ℕ, suc, ◌+◌, String, ◌==◌, Bool, true, false, not, ◌&&◌, ◌||◌, Option, none, some, List, [], ◌∷◌,
  eqb, if◌then◌else◌,
}
use pocketclaw_telegram.Types.{
  MessagingGroup, MessagingGroupAgent, EngageMode, mention_sticky, IgnoredMessagePolicy, drop,
  accumulate, SessionMode, per_thread, agent_shared, Session,
}
use pocketclaw_telegram.SessionDb.{NewMessage}
use pocketclaw_telegram.CommandGate.{GateResult, pass, filter, deny, gate_command}
use pocketclaw_telegram.Sessions.{get_session}
use pocketclaw_telegram.World.Outbound.{write_outbound_direct}
use pocketclaw_telegram.World.{
  World, Env, Ran, ok, M, ◌>>=◌, ◌>>◌, return, effect, typing_started, typing_stopped, woken,
  subscribed, get_agent_group, open_session, write_session_message,
}
use pocketclaw_telegram.Router.Event.{
  Event, Hooks, Adapter, Outcome, Address, engaged, accumulated, evaluate_engage, missing, declined,
}

-- `messageIdForAgent`
unfoldable pub message_id_for_agent : Env → ℕ → Option String → String → String
message_id_for_agent env draw base group =
    String.◌++◌
      (elim base [
        | none ↦ env.fresh "msg" draw
        | some id ↦ if id == "" then env.fresh "msg" draw else id
      ])
      (String.◌++◌ ":" group)

abbrev pub is_agent_shared : SessionMode → Bool
is_agent_shared agent_shared = true
is_agent_shared _ = false

unfoldable pub effective_session_mode : Bool → SessionMode → MessagingGroup → SessionMode
effective_session_mode supports_threads mode mg =
    if supports_threads && not (is_agent_shared mode) && not (eqb mg.is_group 0)
    then per_thread
    else mode

abbrev pub delivery_address : Event → Address
delivery_address e = elim e.reply_to [
  | none ↦ record {
    channel_type = e.channel_type;
    platform_id = e.platform_id;
    thread_id = e.thread_id;
  }
  | some a ↦ a
]

-- Gate results are asked for chat messages only.
unfoldable pub gate_result : Env → World → MessagingGroupAgent → Event → Option String → GateResult
gate_result env w agent e user =
    if e.kind == "chat" || e.kind == "chat-sdk"
    then gate_command env.parse_json w.permissions w.roles_table e.content user agent.agent_group_id
    else pass

-- Typing and wake, after the message is in the session's database.
unfoldable pub wake_session : Env → Session → M (Unit {0})
wake_session env s w =
    let started : Ran (Unit {0}) = effect (typing_started s.id) w in
    elim (get_session w.sessions s.id) [
      | none ↦ started
      | some fresh ↦
          if env.spawns fresh.id
          then (effect (typing_started s.id) >> effect (woken fresh.id)) w
          else (effect (typing_started s.id) >> effect (typing_stopped fresh.id)) w
    ]

abbrev pub routed_message : Env → World → MessagingGroupAgent → Event → Bool → NewMessage
routed_message env w agent e wake = record {
  id = message_id_for_agent env w.draws e.message_id agent.agent_group_id;
  kind = e.kind;
  timestamp = e.timestamp;
  platform_id = some (delivery_address e).platform_id;
  channel_type = some (delivery_address e).channel_type;
  thread_id = (delivery_address e).thread_id;
  content = e.content;
  process_after = none;
  recurrence = none;
  trigger = some wake;
  source_session_id = none;
  on_wake = none;
}

abbrev pub draw : M (Unit {0})
draw w = ok tt (record w { draws = w.draws + 1 })

abbrev pub route_message : Env → MessagingGroupAgent → Event → Session → Bool → M (Unit {0})
route_message env agent e s wake w =
    (write_session_message env s.id (routed_message env w agent e wake)
        >> (draw >> (if wake then wake_session env s else return tt)))
      w

abbrev pub after_gate :
    Env → MessagingGroupAgent → Event → Session → Bool → GateResult → M (Unit {0})
after_gate env agent e s wake filter w = ok tt w
after_gate env agent e s wake (deny command) w =
    (write_outbound_direct env s.id (env.fresh "deny" w.draws) "chat"
          (some (delivery_address e).platform_id) (some (delivery_address e).channel_type)
          (delivery_address e).thread_id (env.denial command)
        >> draw)
      w
after_gate env agent e s wake pass w = route_message env agent e s wake w

unfoldable pub deliver_to_agent :
    Env → MessagingGroupAgent → MessagingGroup → Event → Option String → Bool → Bool → M (Unit {0})
deliver_to_agent env agent mg e user supports_threads wake = do
  s ←
      open_session env agent.agent_group_id (some mg.id) e.thread_id
        (effective_session_mode supports_threads agent.session_mode mg)
  λ w. after_gate env agent e s wake (gate_result env w agent e user) w

-- A hook that is not registered lets everything through.
abbrev pub ask_access :
    Hooks → Event → Option String → MessagingGroup → MessagingGroupAgent → M Bool
ask_access hooks e user mg agent = elim hooks.access_gate [
  | none ↦ return true
  | some gate ↦ gate e user mg agent.agent_group_id
]

abbrev pub ask_scope : Hooks → Event → Option String → MessagingGroup → MessagingGroupAgent → M Bool
ask_scope hooks e user mg agent = elim hooks.sender_scope_gate [
  | none ↦ return true
  | some gate ↦ gate e user mg agent
]

abbrev pub is_accumulate : IgnoredMessagePolicy → Bool
is_accumulate accumulate = true
is_accumulate drop = false

abbrev pub is_sticky : EngageMode → Bool
is_sticky mention_sticky = true
is_sticky _ = false

abbrev pub supports : Option Adapter → Bool
supports none = false
supports (some a) = a.supports_threads

abbrev pub subscribes : Option Adapter → Bool
subscribes none = false
subscribes (some a) = a.supports_threads && a.can_subscribe

-- The subscription of a mention-sticky wiring; returns the flag `subscribed`.
abbrev pub subscribe_once :
    MessagingGroupAgent → Option Adapter → Event → MessagingGroup → Bool → M Bool
subscribe_once agent adapter e mg already = elim e.thread_id [
  | none ↦ return already
  | some thread ↦
      if not already && is_sticky agent.engage_mode && subscribes adapter && not (eqb mg.is_group 0)
      then effect (subscribed e.platform_id thread) >> return true
      else return already
]

abbrev pub engage_agent :
    Env
    → Option Adapter
    → MessagingGroup
    → Event
    → Option String
    → MessagingGroupAgent
    → Bool
    → M (Outcome × Bool)
engage_agent env adapter mg e user agent already = do
  deliver_to_agent env agent mg e user (supports adapter) true
  flag ← subscribe_once agent adapter e mg already
  return (engaged, flag)

abbrev pub ignore_agent :
    Env
    → Option Adapter
    → MessagingGroup
    → Event
    → Option String
    → MessagingGroupAgent
    → Bool
    → M (Outcome × Bool)
ignore_agent env adapter mg e user agent already =
    if is_accumulate agent.ignored_message_policy
    then (do
      deliver_to_agent env agent mg e user (supports adapter) false
      return (accumulated, already))
    else return (declined, already)

-- One round of the fan-out, for an agent whose group exists: the gates are asked only where the
-- wiring engages, and a refusal neither delivers nor accumulates.
unfoldable pub consider_agent :
    Env
    → Hooks
    → Option Adapter
    → MessagingGroup
    → Event
    → Option String
    → String
    → Bool
    → MessagingGroupAgent
    → M (Outcome × Bool)
consider_agent env hooks adapter mg e user message already agent w =
    if evaluate_engage env w agent message e.is_mention mg e.thread_id
    then (ask_access hooks e user mg agent >>= λ access.
          ask_scope hooks e user mg agent >>= λ scope.
          if access && scope
          then engage_agent env adapter mg e user agent already
          else return (declined, already))
        w
    else ignore_agent env adapter mg e user agent already w

abbrev pub fan_out_one :
    Env
    → Hooks
    → Option Adapter
    → MessagingGroup
    → Event
    → Option String
    → String
    → Bool
    → MessagingGroupAgent
    → M (Outcome × Bool)
fan_out_one env hooks adapter mg e user message already agent w =
    elim (get_agent_group w agent.agent_group_id) [
      | none ↦ ok (missing, already) w
      | some group ↦ consider_agent env hooks adapter mg e user message already agent w
    ]

-- `engagedCount++` and `accumulatedCount++`
abbrev pub counted : Outcome → ℕ → ℕ
counted engaged n = suc n
counted accumulated n = suc n
counted _ n = n

-- The loop; it returns `engagedCount + accumulatedCount`.
unfoldable pub fan_out :
    Env
    → Hooks
    → Option Adapter
    → MessagingGroup
    → Event
    → Option String
    → String
    → ℕ
    → Bool
    → List MessagingGroupAgent
    → M ℕ
fan_out env hooks adapter mg e user message n already [] = return n
fan_out env hooks adapter mg e user message n already (agent ∷ agents) =
    fan_out_one env hooks adapter mg e user message already agent >>= λ r.
    fan_out env hooks adapter mg e user message (counted r.0 n) r.1 agents
