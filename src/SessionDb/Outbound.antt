-- ===== src/SessionDb/Outbound.antt =====
-- The statements of src/db/session-db.ts that delivery runs: the messages that are due, and the
-- table of deliveries.
use pocketclaw_telegram.Prelude.{
  ℕ, String, ◌==◌, Bool, true, false, Option, none, some, List, [], ◌∷◌, ◌++◌, any, select, leb,
  if◌then◌else◌,
}
use pocketclaw_telegram.SessionDb.{
  Timestamp, MessageOut, OutboundDb, Delivered, InboundDb, delivered_ok, delivery_failed, at,
  seconds, unreadable,
}

-- `deliver_after IS NULL OR deliver_after <= datetime('now')`, for texts in the format of `datetime`.
abbrev pub is_deliverable : ℕ → Option Timestamp → Bool
is_deliverable now none = true
is_deliverable now (some unreadable) = false
is_deliverable now (some (at t)) = leb (seconds t) (seconds now)

-- `ORDER BY timestamp ASC`, by insertion; rows of one timestamp keep their order.
abbrev pub insert_by_time : MessageOut → List MessageOut → List MessageOut
insert_by_time m [] = m ∷ []
insert_by_time m (x ∷ xs) =
    if leb m.timestamp x.timestamp then m ∷ x ∷ xs else x ∷ insert_by_time m xs

abbrev pub sort_by_time : List MessageOut → List MessageOut
sort_by_time [] = []
sort_by_time (m ∷ ms) = insert_by_time m (sort_by_time ms)

unfoldable pub get_due_outbound_messages : ℕ → OutboundDb → List MessageOut
get_due_outbound_messages now db =
    sort_by_time (select (λ m. is_deliverable now m.deliver_after) db.messages_out)

abbrev pub has_delivered : String → List Delivered → Bool
has_delivered id = any (λ d. d.message_out_id == id)

-- `INSERT OR IGNORE`
abbrev pub insert_delivered : InboundDb → Delivered → InboundDb
insert_delivered db row =
    if has_delivered row.message_out_id db.delivered
    then db
    else record db { delivered = db.delivered ++ row ∷ [] }

unfoldable pub mark_delivered : InboundDb → String → Option String → InboundDb
mark_delivered db id platform_id =
    insert_delivered db
      (record { message_out_id = id; platform_message_id = platform_id; status = delivered_ok })

unfoldable pub mark_delivery_failed : InboundDb → String → InboundDb
mark_delivery_failed db id =
    insert_delivered db
      (record { message_out_id = id; platform_message_id = none; status = delivery_failed })
