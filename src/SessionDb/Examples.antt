-- ===== src/SessionDb/Examples.antt =====
-- Sequence numbers at a concrete table.
use pocketclaw_telegram.SessionDb.{
  InboundDb, next_even_seq, insert_message, insert_row, max_seq, ◌∷◌, message_row,
}
use pocketclaw_telegram.Fixtures.{inbox, row, new_message}
use pocketclaw_telegram.Prelude.{[], arith, refl}
use pocketclaw_telegram.SessionDb.Sequence.{Rising, insert_message-Rising}

abbrev grown : InboundDb
grown = record inbox { messages_in = row ∷ message_row new_message 4 ∷ [] }

insert_message-Rising_example : Rising 0 grown.messages_in
unfolding insert_message insert_row next_even_seq max_seq
insert_message-Rising_example =
    insert_message-Rising inbox grown new_message (omega arith, refl, tt) refl
