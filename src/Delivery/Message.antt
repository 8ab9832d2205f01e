-- ===== src/Delivery/Message.antt =====
-- `deliverMessage` of src/delivery.ts, with `createPendingQuestion` of src/db/sessions.ts and
-- `normalizeOptions` of src/channels/ask-question.ts.
use pocketclaw_telegram.World.{
  World, Env, M, ok, ◌>>=◌, threw, Ran, get_messaging_group, sent, return,
}
use pocketclaw_telegram.Json.{type_error, Json, value, text, get, undefined}
use pocketclaw_telegram.Prelude.{
  String, Option, none, some, if◌then◌else◌, Bool, ◌==◌, List, select, is_text, ◌++◌, ◌∷◌, ◌&&◌,
  ◌||◌, [], not,
}
use pocketclaw_telegram.SessionDb.{MessageOut}
use pocketclaw_telegram.Types.{Session, MessagingGroup, channel}
use pocketclaw_telegram.AgentToAgent.Route.{RouteHost, route_agent_message}
use pocketclaw_telegram.AgentToAgent.Destinations.{has_destination}
use pocketclaw_telegram.Delivery.Questions.{track_question}

-- `deliver` is the channel adapter's answer to a message on an instance: `none` where it rejects,
-- else the id that the platform gave. `action` is the registry of system actions.
pub record Channels : Type 0 where
  pub deliver : World → MessageOut → String → Option (Option String)
  pub action : String → Option (Json → Session → M (Unit {0}))
  pub outbox : RouteHost

-- `ORDER BY (instance = channel_type) DESC, instance ASC LIMIT 1`; `before` is the order of texts.
abbrev pub preferred :
    (String → String → Bool) → String → MessagingGroup → MessagingGroup → MessagingGroup
preferred before type g h =
    if g.instance_name == type
    then g
    else if h.instance_name == type
    then h
    else if before h.instance_name g.instance_name
    then h
    else g

abbrev pub better :
    (String → String → Bool)
    → String
    → MessagingGroup
    → Option MessagingGroup
    → Option MessagingGroup
better before type g none = some g
better before type g (some h) = some (preferred before type g h)

abbrev pub best_group :
    (String → String → Bool) → String → List MessagingGroup → Option MessagingGroup
best_group before type [] = none
best_group before type (g ∷ gs) = better before type g (best_group before type gs)

abbrev pub is_at : String → String → MessagingGroup → Bool
is_at type platform g = g.channel_type == type && g.platform_id == platform

unfoldable pub get_messaging_group_by_platform :
    Env → World → String → String → Option MessagingGroup
get_messaging_group_by_platform env w type platform =
    best_group env.before type (select (is_at type platform) w.messaging_groups)

abbrev pub group_named : World → Option String → Option MessagingGroup
group_named w none = none
group_named w (some id) = if id == "" then none else get_messaging_group w id

abbrev pub origin_group : World → Session → Option MessagingGroup
origin_group w s = group_named w s.messaging_group_id

-- The session's own chat first, where the message goes to its address.
unfoldable pub delivery_group : Env → World → Session → String → String → Option MessagingGroup
delivery_group env w s type platform = elim (origin_group w s) [
  | none ↦ get_messaging_group_by_platform env w type platform
  | some g ↦
      if is_at type platform g then some g else get_messaging_group_by_platform env w type platform
]

-- May the session's agent send to this chat?
unfoldable pub may_send : World → Session → MessagingGroup → Bool
may_send w s g =
    is_text s.messaging_group_id g.id
    || not w.destinations_table
    || has_destination w.destinations s.agent_group_id channel g.id

abbrev pub answered : World → Option (Option String) → Ran (Option String)
answered w none = threw w
answered w (some id) = ok id w

abbrev pub call_adapter : Channels → MessageOut → String → M (Option String)
call_adapter ch msg instance_name w =
    answered (record w { effects = w.effects ++ sent msg instance_name ∷ [] })
      (ch.deliver w msg instance_name)

abbrev pub send_to :
    Env → Channels → MessageOut → Session → Json → MessagingGroup → M (Option String)
send_to env ch msg s content g =
    track_question env msg s content >>= λ done. call_adapter ch msg g.instance_name

abbrev pub deliver_to_group :
    Env → Channels → MessageOut → Session → Json → Option MessagingGroup → M (Option String)
deliver_to_group env ch msg s content none w = threw w
deliver_to_group env ch msg s content (some g) w =
    if may_send w s g then send_to env ch msg s content g w else threw w

unfoldable pub deliver_to_channel :
    Env → Channels → MessageOut → Session → Json → String → String → M (Option String)
deliver_to_channel env ch msg s content type platform w =
    deliver_to_group env ch msg s content (delivery_group env w s type platform) w

-- A message without an address: the question is stored, and nothing is sent.
abbrev pub deliver_nowhere : Env → MessageOut → Session → Json → M (Option String)
deliver_nowhere env msg s content = track_question env msg s content >>= λ done. return none

unfoldable pub handle_system_action : Channels → Json → Session → M (Option String)
handle_system_action ch content s w = elim (get content "action") [
  | type_error ↦ threw w
  | undefined ↦ ok none w
  | value v ↦ run_action v
]
  where
    registered : Option (Json → Session → M (Unit {0})) → Ran (Option String)
    registered none = ok none w
    registered (some f) = (f content s >>= λ done. return none) w

    run_action : Json → Ran (Option String)
    run_action (text name) = registered (ch.action name)
    run_action _ = ok none w

-- `if (msg.channel_type && msg.platform_id)`
abbrev pub addressed :
    Env → Channels → MessageOut → Session → Json → Option String → Option String → M (Option String)
addressed env ch msg s content (some type) (some platform) w =
    if type == "" || platform == ""
    then deliver_nowhere env msg s content w
    else deliver_to_channel env ch msg s content type platform w
addressed env ch msg s content _ _ w = deliver_nowhere env msg s content w

unfoldable pub deliver_parsed : Env → Channels → MessageOut → Session → Json → M (Option String)
deliver_parsed env ch msg s content w =
    if msg.kind == "system"
    then handle_system_action ch content s w
    else if is_text msg.channel_type "agent"
    then (if w.destinations_table
        then (route_agent_message env ch.outbox msg s >>= λ done. return none) w
        else threw w)
    else addressed env ch msg s content msg.channel_type msg.platform_id w

abbrev pub deliver_content : Env → Channels → MessageOut → Session → Option Json → M (Option String)
deliver_content env ch msg s none w = threw w
deliver_content env ch msg s (some content) w = deliver_parsed env ch msg s content w

-- Without an adapter the message counts as delivered.
unfoldable pub deliver_message : Env → Option Channels → MessageOut → Session → M (Option String)
deliver_message env none msg s w = ok none w
deliver_message env (some ch) msg s w = deliver_content env ch msg s (env.parse_json msg.content) w
