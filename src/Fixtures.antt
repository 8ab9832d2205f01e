-- ===== src/Fixtures.antt =====
-- The data of the tests: one chat, one agent, one session, and an environment.
use pocketclaw_telegram.Types.{
  AgentGroup, MessagingGroup, MessagingGroupAgent, Session, mention_sticky, strict, all_senders,
  active, drop, running, per_thread,
}
use pocketclaw_telegram.SessionDb.{
  MessageIn, NewMessage, InboundDb, MessageOut, OutboundDb, pending,
}
use pocketclaw_telegram.Permissions.{Permissions}
use pocketclaw_telegram.World.{World, Env, return}
use pocketclaw_telegram.Prelude.{
  String, none, some, ◌∷◌, [], Option, true, false, ◌==◌, if◌then◌else◌,
}
use pocketclaw_telegram.Router.Event.{Event, Hooks}
use pocketclaw_telegram.AgentToAgent.Route.{RouteHost}
use pocketclaw_telegram.Delivery.Message.{Channels}
use pocketclaw_telegram.Approvals.{Office}
use pocketclaw_telegram.Approvals.Request.{RequestDesk}
use pocketclaw_telegram.Approvals.Request.Held.{requests}
use pocketclaw_telegram.Json.{Json, obj, end}

abbrev pub agent_a : AgentGroup
agent_a = record { id = "ag-1"; name = "A"; folder = "a"; created_at = 1 }

abbrev pub agent_b : AgentGroup
agent_b = record { id = "ag-2"; name = "B"; folder = "b"; created_at = 1 }

abbrev pub chat : MessagingGroup
chat = record {
  id = "mg-1";
  channel_type = "telegram";
  platform_id = "chat-1";
  instance_name = "telegram";
  name = none;
  is_group = 1;
  unknown_sender_policy = strict;
  denied_at = none;
  created_at = 1;
}

abbrev pub wiring : MessagingGroupAgent
wiring = record {
  id = "mga-1";
  messaging_group_id = "mg-1";
  agent_group_id = "ag-1";
  engage_mode = mention_sticky;
  engage_pattern = none;
  sender_scope = all_senders;
  ignored_message_policy = drop;
  session_mode = per_thread;
  priority = 0;
  created_at = 1;
}

abbrev pub session_a : Session
session_a = record {
  id = "s-a";
  agent_group_id = "ag-1";
  messaging_group_id = some "mg-1";
  thread_id = some "t-1";
  agent_provider = none;
  status = active;
  container_status = running;
  last_active = none;
  created_at = 1;
}

abbrev pub session_b : Session
session_b = record session_a { id = "s-b"; agent_group_id = "ag-2" }

abbrev pub row : MessageIn
row = record {
  id = "m-1";
  seq = 2;
  kind = "chat";
  timestamp = 1000;
  status = pending;
  process_after = none;
  recurrence = none;
  series_id = "m-1";
  tries = 0;
  trigger = true;
  platform_id = some "chat-1";
  channel_type = some "telegram";
  thread_id = none;
  content = "{}";
  source_session_id = none;
  on_wake = false;
}

abbrev pub new_message : NewMessage
new_message = record {
  id = "m-2";
  kind = "chat";
  timestamp = 2000;
  platform_id = some "chat-1";
  channel_type = some "telegram";
  thread_id = none;
  content = "{}";
  process_after = none;
  recurrence = none;
  trigger = none;
  source_session_id = none;
  on_wake = none;
}

abbrev pub inbox : InboundDb
inbox = record { messages_in = row ∷ []; delivered = [] }

abbrev pub out_row : MessageOut
out_row = record {
  id = "o-1";
  seq = 3;
  timestamp = 2000;
  deliver_after = none;
  kind = "chat";
  platform_id = some "chat-1";
  channel_type = some "telegram";
  thread_id = none;
  content = "{}";
  in_reply_to = none;
}

abbrev pub outbox : OutboundDb
outbox = record { messages_out = out_row ∷ []; processing_ack = []; container_state = none }

abbrev pub nobody : Permissions
nobody = record { users = []; user_roles = []; members = []; agent_group_ids = [] }

abbrev pub world : World
world = record {
  agent_groups = agent_a ∷ agent_b ∷ [];
  messaging_groups = chat ∷ [];
  wirings = wiring ∷ [];
  destinations = [];
  policies = [];
  permissions = nobody;
  roles_table = true;
  destinations_table = true;
  questions_table = true;
  questions = [];
  sessions = session_a ∷ session_b ∷ [];
  inboxes = ("s-a", inbox) ∷ ("s-b", inbox) ∷ [];
  outboxes = ("s-a", outbox) ∷ ("s-b", outbox) ∷ [];
  dropped = [];
  effects = [];
  draws = 0;
}

-- The only JSON text of the tests is `{}`.
abbrev pub read_object : String → Option Json
read_object content = if content == "{}" then some (obj end) else none

abbrev pub env : Env
env = record {
  now = 5000;
  parse_json = read_object;
  stringify = λ v. "{}";
  regex_test = λ pattern message. some (pattern == message);
  before = λ a b. false;
  fresh = λ prefix n. prefix;
  to_text = λ v. "";
  denial = λ command. "{}";
  stored_content = λ message content. content;
  spawns = λ id. true;
}

abbrev pub event : Event
event = record {
  channel_type = "telegram";
  platform_id = "chat-1";
  thread_id = some "t-1";
  instance_name = none;
  message_id = some "tg-7";
  kind = "chat";
  content = "{}";
  timestamp = 5000;
  is_mention = true;
  is_group = true;
  reply_to = none;
}

abbrev pub hooks : Hooks
hooks = record {
  interceptor = none;
  sender_resolver = none;
  access_gate = some (λ e user mg group. return false);
  sender_scope_gate = none;
  channel_request_gate = none;
}

abbrev pub approvals_desk : RequestDesk
approvals_desk = record {
  env = env;
  adapters = λ type. none;
  delivers = some true;
  options_json = "[]";
}

abbrev pub office : Office
office = record {
  world = world;
  approvals = [];
  sender_approvals = [];
  user_dms = [];
  cards = [];
  resolved = [];
  onecli = [];
}

abbrev pub files : RouteHost
files = record {
  outbox_dir = λ s m. true;
  readable = λ s m name. true;
  request_approval = requests approvals_desk office;
}

abbrev pub channels : Channels
channels = record {
  deliver = λ w m instance_name. some (some "p-1");
  action = λ name. none;
  outbox = files;
}
