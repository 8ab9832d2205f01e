-- ===== src/SessionDb/Acks.antt =====
-- The statements of src/db/session-db.ts on the acknowledgements of the container.
use pocketclaw_telegram.SessionDb.{
  ack_processing, ack_completed, ack_failed, completed, ProcessingAck, MessageIn, InboundDb,
  OutboundDb, is_completed,
}
use pocketclaw_telegram.Prelude.{
  String, ◌==◌, Bool, true, false, not, ◌&&◌, List, [], ◌∷◌, select, update, if◌then◌else◌,
}

abbrev pub is_processing : ProcessingAck → Bool
is_processing a = elim a.status [
  | ack_processing ↦ true
  | ack_completed ↦ false
  | ack_failed ↦ false
]

abbrev pub complete_one : List MessageIn → String → List MessageIn
complete_one ms id =
    update (λ m. m.id == id && not (is_completed m.status)) (λ m. record m { status = completed })
      ms

unfoldable pub complete_all : List MessageIn → List ProcessingAck → List MessageIn
complete_all ms [] = ms
complete_all ms (a ∷ acks) =
    complete_all (if is_processing a then ms else complete_one ms a.message_id) acks

-- With nothing completed the source returns early, and the loop below changes nothing either.
unfoldable pub sync_processing_acks : InboundDb → OutboundDb → InboundDb
sync_processing_acks in_db out_db = record in_db {
  messages_in = complete_all in_db.messages_in out_db.processing_ack;
}

unfoldable pub get_processing_claims : OutboundDb → List ProcessingAck
get_processing_claims db = select is_processing db.processing_ack

unfoldable pub delete_orphan_processing_claims : OutboundDb → OutboundDb
delete_orphan_processing_claims db = record db {
  processing_ack = select (λ a. not (is_processing a)) db.processing_ack;
}
