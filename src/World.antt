-- ===== src/World.antt =====
-- The state that routing works on: the central database of src/db/, the databases of the sessions
-- under src/session-manager.ts, and the calls that leave the host. A step either returns or throws,
-- and what it wrote before it threw stays written.
pub mod Outbound
pub mod Runs
pub mod Direct
use pocketclaw_telegram.Prelude.{
  ℕ, ◌+◌, ◌*◌, max, String, ◌==◌, Bool, ◌&&◌, Option, none, some, List, [], ◌∷◌, ◌++◌, any, find,
  if◌then◌else◌, is_text,
}
use pocketclaw_telegram.Json.{Json}
use pocketclaw_telegram.Types.{
  AgentGroup, MessagingGroup, MessagingGroupAgent, Session, AgentDestination, AgentMessagePolicy,
  SessionMode,
}
use pocketclaw_telegram.Permissions.{Permissions}
use pocketclaw_telegram.SessionDb.{
  InboundDb, OutboundDb, MessageOut, NewMessage, insert_message, seconds,
}
use pocketclaw_telegram.Sessions.{Resolved, resolve_session, touch_session}

-- A row of `unregistered_senders`.
pub record Dropped : Type 0 where
  pub channel_type : String
  pub platform_id : String
  pub user_id : Option String
  pub sender_name : Option String
  pub reason : String
  pub messaging_group_id : Option String
  pub agent_group_id : Option String
  pub message_count : ℕ
  pub first_seen : ℕ
  pub last_seen : ℕ

pub data Effect : Type 0 where
  typing_started typing_stopped : String → Effect
  woken : String → Effect
  subscribed : String → String → Effect
  channel_requested : String → Effect
  approval_requested : String → String → Effect
  -- a file of an outbox: its session, its message and its name
  file_copied : String → String → String → Effect
  -- a card for an approver: its channel, the chat and the id of its question
  card_sent : String → String → String → Effect
  -- a call of the channel adapter: the message and the adapter's instance
  sent : MessageOut → String → Effect
  typing_paused : String → Effect

-- A row of `pending_questions`; the options are the JSON text that the table holds.
pub record PendingQuestion : Type 0 where
  pub question_id : String
  pub session_id : String
  pub message_out_id : String
  pub platform_id : Option String
  pub channel_type : Option String
  pub thread_id : Option String
  pub title : String
  pub options_json : String
  pub created_at : ℕ

pub record World : Type 0 where
  pub agent_groups : List AgentGroup
  pub messaging_groups : List MessagingGroup
  pub wirings : List MessagingGroupAgent
  pub destinations : List AgentDestination
  pub policies : List AgentMessagePolicy
  pub permissions : Permissions
  pub roles_table : Bool
  pub destinations_table : Bool
  pub questions_table : Bool
  pub questions : List PendingQuestion
  pub sessions : List Session
  pub inboxes : List (String × InboundDb)
  pub outboxes : List (String × OutboundDb)
  pub dropped : List Dropped
  pub effects : List Effect
  pub draws : ℕ

-- What the host reads and cannot change. `parse_json` and `stringify` are `JSON.parse` and
-- `JSON.stringify`;
-- `to_text` is the text to which a value is coerced; `regex_test p t` is `new RegExp(p).test(t)`,
-- `none` where the pattern throws; `before` is the order of texts in SQLite;
-- `fresh prefix n` is the id that the n-th draw of the clock and of `Math.random` makes;
-- `denial command` is the JSON text `{ text: 'Permission denied: … requires admin access.' }`;
-- `stored_content message content` is the content as `extractAttachmentFiles` returns it; `spawns`
-- says whether the container of a session starts.
pub record Env : Type 0 where
  pub now : ℕ
  pub parse_json : String → Option Json
  pub stringify : Json → String
  pub regex_test : String → String → Option Bool
  pub before : String → String → Bool
  pub fresh : String → ℕ → String
  pub to_text : Json → String
  pub denial : List ℕ → String
  pub stored_content : String → String → String
  pub spawns : String → Bool

pub data Ran {ℓ} (A : Type ℓ) : Type ℓ where
  ok : A → World → Ran A
  threw : World → Ran A

abbrev pub M : Type 0 → Type 0
M A = World → Ran A

abbrev pub continue {ℓ κ} : {A : Type ℓ} {B : Type κ} → Ran A → (A → World → Ran B) → Ran B
continue (ok a w) f = f a w
continue (threw w) f = threw w

infixl 5 ◌>>=◌ ◌>>◌
abbrev pub ◌>>=◌ : {A B : Type 0} → M A → (A → M B) → M B
◌>>=◌ m f w = continue (m w) f

abbrev pub ◌>>◌ : {A B : Type 0} → M A → M B → M B
◌>>◌ m f w = continue (m w) (λ a. f)

abbrev pub return : {A : Type 0} → A → M A
return a w = ok a w

abbrev pub effect : Effect → M (Unit {0})
effect e w = ok tt (record w { effects = w.effects ++ e ∷ [] })

abbrev pub lookup_db {ℓ} : {A : Type ℓ} → String → List (String × A) → Option A
lookup_db key [] = none
lookup_db key ((k, a) ∷ rest) = if k == key then some a else lookup_db key rest

abbrev pub replace_db {ℓ} : {A : Type ℓ} → String → A → List (String × A) → List (String × A)
replace_db key a [] = []
replace_db key a ((k, b) ∷ rest) =
    if k == key then (k, a) ∷ rest else (k, b) ∷ replace_db key a rest

abbrev pub coalesce : Option String → Option String → Option String
coalesce none old = old
coalesce (some s) old = some s

-- src/db/dropped-messages.ts: one row for each chat, counted up.
unfoldable pub record_dropped : Dropped → List Dropped → List Dropped
record_dropped d [] = d ∷ []
record_dropped d (r ∷ rs) =
    if r.channel_type == d.channel_type && r.platform_id == d.platform_id
    then record r {
      user_id = coalesce d.user_id r.user_id;
      sender_name = coalesce d.sender_name r.sender_name;
      reason = d.reason;
      message_count = r.message_count + 1;
      last_seen = d.last_seen;
    }
      ∷ rs
    else r ∷ record_dropped d rs

unfoldable pub get_agent_group : World → String → Option AgentGroup
get_agent_group w id = find (λ g. g.id == id) w.agent_groups

unfoldable pub get_messaging_group : World → String → Option MessagingGroup
get_messaging_group w id = find (λ g. g.id == id) w.messaging_groups

abbrev pub empty_inbound : InboundDb
empty_inbound = record { messages_in = []; delivered = [] }

abbrev pub empty_outbound : OutboundDb
empty_outbound = record { messages_out = []; processing_ack = []; container_state = none }

-- `CREATE TABLE IF NOT EXISTS` in a file that may be there.
abbrev pub ensure_db {ℓ} : {A : Type ℓ} → String → A → List (String × A) → List (String × A)
ensure_db key a dbs = elim (lookup_db key dbs) [ none ↦ dbs ++ (key, a) ∷ [] | some b ↦ dbs ]

abbrev pub opened : Resolved → World → World
opened r w =
    if r.created
    then record w {
      sessions = r.sessions;
      inboxes = ensure_db r.session.id empty_inbound w.inboxes;
      outboxes = ensure_db r.session.id empty_outbound w.outboxes;
      draws = w.draws + 1;
    }
    else record w { sessions = r.sessions }

abbrev pub opened_or_threw : Option Resolved → World → Ran Session
opened_or_threw none w = threw w
opened_or_threw (some r) w = ok r.session (opened r w)

-- `resolveSession`, with the folder of a new session.
unfoldable pub open_session : Env → String → Option String → Option String → SessionMode → M Session
open_session env group mg thread mode w =
    opened_or_threw
      (resolve_session env.now (env.fresh "sess" w.draws) w.sessions group mg thread mode) w

abbrev pub inserted_or_threw : Env → String → World → Option InboundDb → Ran (Unit {0})
inserted_or_threw env session_id w none = threw w
inserted_or_threw env session_id w (some db) = ok tt (record w {
  inboxes = replace_db session_id db w.inboxes;
  sessions = touch_session env.now w.sessions session_id;
})

abbrev pub insert_into : Env → String → NewMessage → World → Option InboundDb → Ran (Unit {0})
insert_into env session_id m w none = threw w
insert_into env session_id m w (some db) =
    inserted_or_threw env session_id w
      (insert_message db (record m { content = env.stored_content m.id m.content }))

-- `writeSessionMessage`. A session whose database is not there has no table to insert into.
unfoldable pub write_session_message : Env → String → NewMessage → M (Unit {0})
write_session_message env session_id m w =
    insert_into env session_id m w (lookup_db session_id w.inboxes)
