-- ===== src/SessionDb.antt =====
-- src/db/session-db.ts: the two databases of a session, and the statements that the host runs on
-- them. A table is a list of rows, oldest insert first; a statement is a function on the record.
-- Each unique key of src/db/schema.ts is checked where the statement inserts: `none` is the throw.
pub mod Acks
pub mod Outbound
pub mod Sequence
mod Examples
use pocketclaw_telegram.Prelude.{
  ℕ, ◌+◌, ◌-◌, ◌*◌, ◌/◌, ◌%◌, max, String, ◌==◌, Bool, true, false, not, ◌&&◌, ◌||◌, Option, none,
  some, List, [], ◌∷◌, ◌++◌, map, any, select, find, update, length, ltb, leb, eqb, if◌then◌else◌,
  is_text, is_some,
}

-- A TIMESTAMP column: milliseconds since the epoch, or a text that is no date.
pub data Timestamp : Type 0 where
  unreadable : Timestamp
  at : ℕ → Timestamp

pub data MessageInStatus : Type 0 where
  pending processing completed failed paused : MessageInStatus

pub record MessageIn : Type 0 where
  pub id : String
  pub seq : ℕ
  pub kind : String
  pub timestamp : ℕ
  pub status : MessageInStatus
  pub process_after : Option Timestamp
  pub recurrence : Option String
  pub series_id : String
  pub tries : ℕ
  pub trigger : Bool
  pub platform_id : Option String
  pub channel_type : Option String
  pub thread_id : Option String
  pub content : String
  pub source_session_id : Option String
  pub on_wake : Bool

pub data DeliveryStatus : Type 0 where
  delivered_ok delivery_failed : DeliveryStatus

pub record Delivered : Type 0 where
  pub message_out_id : String
  pub platform_message_id : Option String
  pub status : DeliveryStatus

pub record InboundDb : Type 0 where
  pub messages_in : List MessageIn
  pub delivered : List Delivered

pub record MessageOut : Type 0 where
  pub id : String
  pub seq : ℕ
  pub timestamp : ℕ
  pub deliver_after : Option Timestamp
  pub kind : String
  pub platform_id : Option String
  pub channel_type : Option String
  pub thread_id : Option String
  pub content : String
  pub in_reply_to : Option String

pub data AckStatus : Type 0 where
  ack_processing ack_completed ack_failed : AckStatus

pub record ProcessingAck : Type 0 where
  pub message_id : String
  pub status : AckStatus
  pub status_changed : Timestamp

pub record ContainerState : Type 0 where
  pub current_tool : Option String
  pub tool_declared_timeout_ms : Option ℕ

pub record OutboundDb : Type 0 where
  pub messages_out : List MessageOut
  pub processing_ack : List ProcessingAck
  pub container_state : Option ContainerState

abbrev pub is_pending : MessageInStatus → Bool
is_pending pending = true
is_pending _ = false

abbrev pub is_completed : MessageInStatus → Bool
is_completed completed = true
is_completed _ = false

-- `datetime(…)` keeps whole seconds.
abbrev pub seconds : ℕ → ℕ
seconds ms = ms / 1000

unfoldable pub max_seq : List MessageIn → ℕ
max_seq [] = 0
max_seq (m ∷ ms) = max m.seq (max_seq ms)

unfoldable pub next_even_seq : InboundDb → ℕ
next_even_seq db = let top = max_seq db.messages_in in if ltb top 2 then 2 else top + 2 - top % 2

abbrev pub has_id : String → List MessageIn → Bool
has_id id = any (λ m. m.id == id)

-- An `INSERT` of a row: the primary key must be new.
unfoldable pub insert_row : InboundDb → MessageIn → Option InboundDb
insert_row db row =
    if has_id row.id db.messages_in
    then none
    else some (record db { messages_in = db.messages_in ++ row ∷ [] })

-- The argument of `insertMessage`; an absent `trigger` is 1, and the others are null or 0.
pub record NewMessage : Type 0 where
  pub id : String
  pub kind : String
  pub timestamp : ℕ
  pub platform_id : Option String
  pub channel_type : Option String
  pub thread_id : Option String
  pub content : String
  pub process_after : Option Timestamp
  pub recurrence : Option String
  pub trigger : Option Bool
  pub source_session_id : Option String
  pub on_wake : Option Bool

abbrev pub or_default : Option Bool → Bool → Bool
or_default none d = d
or_default (some b) d = b

abbrev pub message_row : NewMessage → ℕ → MessageIn
message_row m next = record {
  id = m.id;
  seq = next;
  kind = m.kind;
  timestamp = m.timestamp;
  status = pending;
  process_after = m.process_after;
  recurrence = m.recurrence;
  series_id = m.id;
  tries = 0;
  trigger = or_default m.trigger true;
  platform_id = m.platform_id;
  channel_type = m.channel_type;
  thread_id = m.thread_id;
  content = m.content;
  source_session_id = m.source_session_id;
  on_wake = or_default m.on_wake false;
}

unfoldable pub insert_message : InboundDb → NewMessage → Option InboundDb
insert_message db m = insert_row db (message_row m (next_even_seq db))

-- `process_after IS NULL OR datetime(process_after) <= datetime('now')`
abbrev pub is_due : ℕ → Option Timestamp → Bool
is_due now none = true
is_due now (some unreadable) = false
is_due now (some (at t)) = leb (seconds t) (seconds now)

unfoldable pub count_due_messages : ℕ → InboundDb → ℕ
count_due_messages now db =
    length
      (select (λ m. is_pending m.status && m.trigger && is_due now m.process_after) db.messages_in)

unfoldable pub mark_message_failed : InboundDb → String → InboundDb
mark_message_failed db id = record db {
  messages_in = update (λ m. m.id == id) (λ m. record m { status = failed }) db.messages_in;
}

-- `datetime('now', '+N seconds')`
abbrev pub after_seconds : ℕ → ℕ → ℕ
after_seconds now n = (seconds now + n) * 1000

abbrev pub retried : ℕ → ℕ → MessageIn → MessageIn
retried now backoff m = record m {
  tries = m.tries + 1;
  process_after = some (at (after_seconds now backoff));
}

unfoldable pub retry_with_backoff : ℕ → InboundDb → String → ℕ → InboundDb
retry_with_backoff now db id backoff = record db {
  messages_in = update (λ m. m.id == id) (retried now backoff) db.messages_in;
}

-- With status 'pending', its only use.
unfoldable pub get_message_for_retry : InboundDb → String → Option MessageIn
get_message_for_retry db id = find (λ m. m.id == id && is_pending m.status) db.messages_in

-- `WHERE id = ?`, of the column `source_session_id`
unfoldable pub get_inbound_source_session_id : InboundDb → String → Option String
get_inbound_source_session_id db id = elim (find (λ m. m.id == id) db.messages_in) [
  | none ↦ none
  | some m ↦ m.source_session_id
]

-- `ORDER BY seq DESC LIMIT 1`
abbrev pub latest : List MessageIn → Option MessageIn
latest [] = none
latest (m ∷ ms) = elim (latest ms) [
  | none ↦ some m
  | some n ↦ if ltb m.seq n.seq then some n else some m
]

abbrev pub is_from_peer : String → MessageIn → Bool
is_from_peer peer m =
    is_text m.channel_type "agent" && is_text m.platform_id peer && is_some m.source_session_id

unfoldable pub get_most_recent_peer_source_session_id : InboundDb → String → Option String
get_most_recent_peer_source_session_id db peer =
    elim (latest (select (is_from_peer peer) db.messages_in)) [
      | none ↦ none
      | some m ↦ m.source_session_id
    ]
