-- ===== src/Runner.antt =====
-- The program in the container, container/agent-runner/src/: what db/messages-in.ts,
-- db/messages-out.ts and db/connection.ts read and write in the two databases of the session. The
-- container reads the inbound database and writes the outbound one.
pub mod Pending
pub mod Acks
pub mod Numbers
pub mod Commands
pub mod Blocks
pub mod Send
pub mod Query
pub mod Loop
mod Examples
use pocketclaw_telegram.Prelude.{
  String, List, ℕ, Option, ◌∷◌, [], Bool, select, find, if◌then◌else◌, max, leb, any, not, ◌==◌,
  eqb, suc, ◌&&◌, ◌++◌, ◌%◌, ◌*◌, none, some, zero, ◌+◌, ◌||◌,
}
use pocketclaw_telegram.SessionDb.Acks.{is_processing}
use pocketclaw_telegram.SessionDb.{
  MessageIn, OutboundDb, InboundDb, ProcessingAck, AckStatus, ack_processing, ack_completed,
  ack_failed, Timestamp, MessageOut, Delivered, is_pending, seconds, max_seq, is_due, at,
}
use mathlib.Core.List.{reverse}
use pocketclaw_telegram.World.Outbound.{max_seq_out}

-- A row of `destinations`, which the host projects into the inbound database.
pub data DestinationType : Type 0 where
  to_channel to_agent : DestinationType

pub record DestinationEntry : Type 0 where
  pub name : String
  pub kind : DestinationType
  pub channel_type : Option String
  pub platform_id : Option String
  pub agent_group_id : Option String

-- `ORDER BY seq DESC`
abbrev pub insert_newest : MessageIn → List MessageIn → List MessageIn
insert_newest m [] = m ∷ []
insert_newest m (x ∷ xs) = if leb x.seq m.seq then m ∷ x ∷ xs else x ∷ insert_newest m xs

abbrev pub newest_first : List MessageIn → List MessageIn
newest_first [] = []
newest_first (m ∷ ms) = insert_newest m (newest_first ms)

-- `LIMIT n`
abbrev pub take {ℓ} : {A : Type ℓ} → ℕ → List A → List A
take zero xs = []
take (suc n) [] = []
take (suc n) (x ∷ xs) = x ∷ take n xs

abbrev pub has_ack : String → List ProcessingAck → Bool
has_ack id = any (λ a. a.message_id == id)

-- The WHERE clause of `getPendingMessages`; the column `on_wake` is there.
abbrev pub is_waiting : ℕ → Bool → MessageIn → Bool
is_waiting now first m =
    is_pending m.status && is_due now m.process_after && (not m.on_wake || first)

-- The newest rows that wait, at most `limit` of them, those that were picked up before left out,
-- oldest first.
unfoldable pub get_pending_messages : ℕ → ℕ → Bool → InboundDb → OutboundDb → List MessageIn
get_pending_messages now limit first in_db out_db = reverse (
    select (λ m. not (has_ack m.id out_db.processing_ack))
      (take limit (newest_first (select (is_waiting now first) in_db.messages_in))))

abbrev pub ack_row : ℕ → AckStatus → String → ProcessingAck
ack_row now status id = record {
  message_id = id;
  status = status;
  status_changed = at (seconds now * 1000);
}

-- `INSERT OR REPLACE INTO processing_ack`: the row of the id goes, the new one comes last.
unfoldable pub put_ack : ℕ → AckStatus → String → List ProcessingAck → List ProcessingAck
put_ack now status id acks =
    select (λ a. not (a.message_id == id)) acks ++ ack_row now status id ∷ []

abbrev pub put_acks : ℕ → AckStatus → List String → List ProcessingAck → List ProcessingAck
put_acks now status [] acks = acks
put_acks now status (id ∷ ids) acks = put_acks now status ids (put_ack now status id acks)

abbrev pub mark : ℕ → AckStatus → List String → OutboundDb → OutboundDb
mark now status ids db = record db { processing_ack = put_acks now status ids db.processing_ack }

unfoldable pub mark_processing : ℕ → List String → OutboundDb → OutboundDb
mark_processing now ids db = mark now ack_processing ids db

unfoldable pub mark_completed : ℕ → List String → OutboundDb → OutboundDb
mark_completed now ids db = mark now ack_completed ids db

unfoldable pub mark_failed : ℕ → String → OutboundDb → OutboundDb
mark_failed now id db = mark now ack_failed (id ∷ []) db

-- What a new container does with the claims of one that crashed.
unfoldable pub clear_stale_processing_acks : OutboundDb → OutboundDb
clear_stale_processing_acks db = record db {
  processing_ack = select (λ a. not (is_processing a)) db.processing_ack;
}

unfoldable pub get_message_in : InboundDb → String → Option MessageIn
get_message_in db id = find (λ m. m.id == id) db.messages_in

pub record WriteMessageOut : Type 0 where
  pub id : String
  pub in_reply_to : Option String
  pub deliver_after : Option Timestamp
  pub kind : String
  pub platform_id : Option String
  pub channel_type : Option String
  pub thread_id : Option String
  pub content : String

abbrev pub next_odd : ℕ → ℕ
next_odd top = if eqb (top % 2) 0 then top + 1 else top + 2

-- The next odd number above both tables.
unfoldable pub next_odd_seq : InboundDb → OutboundDb → ℕ
next_odd_seq in_db out_db =
    next_odd (max (max_seq_out out_db.messages_out) (max_seq in_db.messages_in))

abbrev pub out_row_of : ℕ → ℕ → WriteMessageOut → MessageOut
out_row_of now next m = record {
  id = m.id;
  seq = next;
  timestamp = seconds now * 1000;
  deliver_after = m.deliver_after;
  kind = m.kind;
  platform_id = m.platform_id;
  channel_type = m.channel_type;
  thread_id = m.thread_id;
  content = m.content;
  in_reply_to = m.in_reply_to;
}

-- The number of the new row; `none` is the throw on an id that the table has.
unfoldable pub write_message_out :
    ℕ → InboundDb → OutboundDb → WriteMessageOut → Option (ℕ × OutboundDb)
write_message_out now in_db out_db m =
    if any (λ r. r.id == m.id) out_db.messages_out
    then none
    else some (
      next_odd_seq in_db out_db,
      record out_db {
        messages_out = out_db.messages_out ++ out_row_of now (next_odd_seq in_db out_db) m ∷ [];
      },
    )

abbrev pub delivered_id : List Delivered → String → String
delivered_id rows id = elim (find (λ d. d.message_out_id == id) rows) [
  | none ↦ id
  | some d ↦ elim d.platform_message_id [ none ↦ id | some p ↦ if p == "" then id else p ]
]

-- A number names a row of the inbound table, or else one of the outbound table.
unfoldable pub get_message_id_by_seq : InboundDb → OutboundDb → ℕ → Option String
get_message_id_by_seq in_db out_db n = elim (find (λ m. eqb m.seq n) in_db.messages_in) [
  | some m ↦ some m.id
  | none ↦ elim (find (λ m. eqb m.seq n) out_db.messages_out) [
    | none ↦ none
    | some m ↦ some (delivered_id in_db.delivered m.id)
  ]
]

pub record Routing : Type 0 where
  pub channel_type : Option String
  pub platform_id : Option String
  pub thread_id : Option String

unfoldable pub get_routing_by_seq : InboundDb → OutboundDb → ℕ → Option Routing
get_routing_by_seq in_db out_db n = elim (find (λ m. eqb m.seq n) in_db.messages_in) [
  | some m ↦ some (record {
    channel_type = m.channel_type;
    platform_id = m.platform_id;
    thread_id = m.thread_id;
  })
  | none ↦ elim (find (λ m. eqb m.seq n) out_db.messages_out) [
    | none ↦ none
    | some m ↦ some (record {
      channel_type = m.channel_type;
      platform_id = m.platform_id;
      thread_id = m.thread_id;
    })
  ]
]
