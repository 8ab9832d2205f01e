-- ===== src/AgentToAgent/Route.antt =====
-- `routeAgentMessage` of src/modules/agent-to-agent/agent-route.ts, and the approval handler of
-- message-gate.ts beside it.
use pocketclaw_telegram.SessionDb.{
  InboundDb, MessageOut, NewMessage, get_inbound_source_session_id,
  get_most_recent_peer_source_session_id,
}
use pocketclaw_telegram.World.{
  ◌>>=◌, World, Env, M, lookup_db, ok, effect, woken, threw, open_session, get_agent_group,
  write_session_message, ◌>>◌,
}
use pocketclaw_telegram.Prelude.{
  [], String, Option, Bool, ◌==◌, if◌then◌else◌, some, ◌&&◌, none, List, ◌+◌, not, ◌∷◌, ℕ,
}
use pocketclaw_telegram.Types.{Session, AgentMessagePolicy, agent, agent_shared, AgentGroup}
use pocketclaw_telegram.Approvals.{RequestApprovalOptions}
use pocketclaw_telegram.Json.{
  null, obj, field, end, Json, Property, value, get, type_error, undefined, text,
}
use pocketclaw_telegram.Sessions.{get_session, is_active, is_truthy}
use pocketclaw_telegram.AgentToAgent.Destinations.{has_destination, get_message_policy}
use pocketclaw_telegram.AgentToAgent.Files.{
  forward_attached_files, with_attachments, names_in, ForwardedAttachment,
}

unfoldable pub origin_session_id : InboundDb → MessageOut → String → Option String
origin_session_id db msg target =
    let direct : Option String = (elim msg.in_reply_to [
      | none ↦ none
      | some id ↦ if id == "" then none else get_inbound_source_session_id db id
    ]) in
    if is_truthy direct then direct else get_most_recent_peer_source_session_id db target

abbrev pub is_target_session : String → Session → Bool
is_target_session target s = s.agent_group_id == target && is_active s.status

abbrev pub if_serving : String → Option Session → Option Session
if_serving target none = none
if_serving target (some s) = if is_target_session target s then some s else none

-- The session of the conversation, where it still serves the target.
unfoldable pub return_session : World → String → Option String → Option Session
return_session w target none = none
return_session w target (some id) =
    if id == "" then none else if_serving target (get_session w.sessions id)

abbrev pub returned_or_opened : Env → String → Option Session → M Session
returned_or_opened env target (some s) w = ok s w
returned_or_opened env target none w = open_session env target none none agent_shared w

abbrev pub target_in : Env → MessageOut → String → Option InboundDb → M Session
target_in env msg target none w = threw w
target_in env msg target (some db) w =
    returned_or_opened env target (return_session w target (origin_session_id db msg target)) w

unfoldable pub resolve_target_session : Env → MessageOut → Session → String → M Session
resolve_target_session env msg source target w =
    target_in env msg target (lookup_db source.id w.inboxes) w

-- `wakeContainer`, as this module calls it.
abbrev pub wake_container : Env → Session → M (Unit {0})
wake_container env s w = if env.spawns s.id then effect (woken s.id) w else ok tt w

-- Which directories and files of the outboxes can be read, and the `requestApproval` that
-- agent-route.ts takes from the approvals module: Approvals.Request models it, and
-- Approvals.Request.Held gives it as a step of this state.
pub record RouteHost : Type 0 where
  pub outbox_dir : String → String → Bool
  pub readable : String → String → String → Bool
  pub request_approval : RequestApprovalOptions → M (Unit {0})

abbrev pub forward_named :
    Env → RouteHost → MessageOut → String → Session → Json → List String → M String
forward_named env box msg id source parsed [] w = ok msg.content w
forward_named env box msg id source parsed (name ∷ names) w =
    let done : List ForwardedAttachment × World =
      forward_attached_files box.outbox_dir box.readable source.id msg.id id (name ∷ names) w in
    ok (env.stringify (with_attachments parsed (done).0)) (done).1

abbrev pub forward_property :
    Env → RouteHost → MessageOut → String → Session → Json → Property → M String
forward_property env box msg id source parsed type_error w = threw w
forward_property env box msg id source parsed undefined w = ok msg.content w
forward_property env box msg id source parsed (value v) w =
    forward_named env box msg id source parsed (names_in (value v)) w

abbrev pub forward_parsed : Env → RouteHost → MessageOut → String → Session → Option Json → M String
forward_parsed env box msg id source none w = ok msg.content w
forward_parsed env box msg id source (some parsed) w =
    forward_property env box msg id source parsed (get parsed "files") w

-- The content to write, after the files are copied. A content of `null` throws.
unfoldable pub forward_file_attachments : Env → RouteHost → MessageOut → String → Session → M String
forward_file_attachments env box msg id source w =
    forward_parsed env box msg id source (env.parse_json msg.content) w

abbrev pub agent_message : Env → String → Session → String → NewMessage
agent_message env id source content = record {
  id = id;
  kind = "chat";
  timestamp = env.now;
  platform_id = some source.agent_group_id;
  channel_type = some "agent";
  thread_id = none;
  content = content;
  process_after = none;
  recurrence = none;
  trigger = none;
  source_session_id = some source.id;
  on_wake = none;
}

abbrev pub wake_found : Env → Option Session → M (Unit {0})
wake_found env none w = ok tt w
wake_found env (some fresh) w = wake_container env fresh w

abbrev pub wake_fresh : Env → Session → M (Unit {0})
wake_fresh env s w = wake_found env (get_session w.sessions s.id) w

abbrev pub drawn : Env → M String
drawn env w = ok (env.fresh "a2a" w.draws) (record w { draws = w.draws + 1 })

unfoldable pub perform_agent_route : Env → RouteHost → MessageOut → Session → String → M (Unit {0})
perform_agent_route env box msg source target = do
  s ← resolve_target_session env msg source target
  id ← drawn env
  content ← forward_file_attachments env box msg id source
  write_session_message env s.id (agent_message env id source content) >> wake_fresh env s

abbrev pub or_null : Option String → Json
or_null none = null
or_null (some t) = text t

-- What the approver is asked.
abbrev pub gate_request :
    MessageOut → Session → String → AgentMessagePolicy → RequestApprovalOptions
gate_request msg source target p = record {
  session = source;
  action = "a2a_message_gate";
  payload = obj (
      field "id" (text msg.id) (
        field "platform_id" (text target) (
          field "content" (text msg.content) (field "in_reply_to" (or_null msg.in_reply_to) end))));
  title = "Message approval";
  approver_user_id = some p.approver;
}

-- The message is held: `requestApproval` runs in its place, with all that it writes and throws.
abbrev pub hold_message :
    RouteHost → MessageOut → Session → String → AgentMessagePolicy → M (Unit {0})
hold_message box msg source target p = box.request_approval (gate_request msg source target p)

-- The edge's policy decides; a message to itself passes over it.
abbrev pub route_edge :
    Env → RouteHost → MessageOut → Session → String → Option AgentMessagePolicy → M (Unit {0})
route_edge env box msg source target (some p) w = hold_message box msg source target p w
route_edge env box msg source target none w = perform_agent_route env box msg source target w

abbrev pub route_found :
    Env → RouteHost → MessageOut → Session → String → Option AgentGroup → M (Unit {0})
route_found env box msg source target none w = threw w
route_found env box msg source target (some g) w =
    if target == source.agent_group_id
    then perform_agent_route env box msg source target w
    else route_edge env box msg source target
        (get_message_policy w.policies source.agent_group_id target) w

unfoldable pub route_agent_message_to :
    Env → RouteHost → MessageOut → Session → String → M (Unit {0})
route_agent_message_to env box msg source target w =
    if not (target == source.agent_group_id)
      && not (has_destination w.destinations source.agent_group_id agent target)
    then threw w
    else route_found env box msg source target (get_agent_group w target) w

abbrev pub route_named : Env → RouteHost → MessageOut → Session → Option String → M (Unit {0})
route_named env box msg source none w = threw w
route_named env box msg source (some target) w =
    if target == "" then threw w else route_agent_message_to env box msg source target w

unfoldable pub route_agent_message : Env → RouteHost → MessageOut → Session → M (Unit {0})
route_agent_message env box msg source w = route_named env box msg source msg.platform_id w

abbrev pub text_or : Property → String → String
text_or (value (text s)) d = s
text_or _ d = d

abbrev pub text_or_null : Property → Option String
text_or_null (value (text s)) = some s
text_or_null _ = none

-- The message that the payload of an approval describes.
abbrev pub held_message : Env → ℕ → Json → String → MessageOut
held_message env draw payload target = record {
  id = text_or (get payload "id") (env.fresh "a2a-gate" draw);
  seq = 0;
  timestamp = 0;
  deliver_after = none;
  kind = "chat";
  platform_id = some target;
  channel_type = some "agent";
  thread_id = none;
  content = text_or (get payload "content") "";
  in_reply_to = text_or_null (get payload "in_reply_to");
}

abbrev pub missing_target : String
missing_target = "Message approved but the target agent group was missing from the request."

-- The handler that runs when a held message is approved; of `msg` it reads the id, the content and
-- `in_reply_to` alone. `notify` writes a note to the source's agent.
unfoldable pub apply_a2a_message_gate :
    Env → RouteHost → (String → M (Unit {0})) → Json → Session → M (Unit {0})
apply_a2a_message_gate env box notify payload source w =
    elim (text_or_null (get payload "platform_id")) [
      | none ↦ notify missing_target w
      | some target ↦
          if target == ""
          then notify missing_target w
          else perform_agent_route env box (held_message env w.draws payload target) source target w
    ]
