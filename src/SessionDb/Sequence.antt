-- ===== src/SessionDb/Sequence.antt =====
-- Sequence numbers of the host's rows: `nextEvenSeq` in src/db/session-db.ts.
use pocketclaw_telegram.Prelude.{ℕ, ◌+◌, ◌%◌, ◌≤◌, ◌<◌, some, List, [], ◌∷◌, ◌++◌, ◌≡◌, arith}
use pocketclaw_telegram.SessionDb.{
  MessageIn, InboundDb, NewMessage, max_seq, next_even_seq, insert_row, insert_message, message_row,
}

-- The host writes even sequence numbers, and no two rows share one: the list rises.
abbrev pub Rising : ℕ → List MessageIn → Type 0
Rising low [] = Unit {0}
Rising low (m ∷ ms) = (low < m.seq) × (m.seq % 2 ≡ 0) × Rising m.seq ms

Rising-append :
    (low : ℕ) (ms : List MessageIn) (row : MessageIn)
    → Rising low ms
    → low < row.seq
    → max_seq ms < row.seq
    → row.seq % 2 ≡ 0
    → Rising low (ms ++ row ∷ [])
unfolding max_seq
Rising-append low [] row r h k e = (h, e, tt)
Rising-append low (m ∷ ms) row r h k e =
    (r.0, r.1, Rising-append m.seq ms row r.2 (omega arith) (omega arith) e)

-- The next number is even, at least 2 and above every number in the table, whoever wrote it.
pub next_even_seq_lem :
    (db : InboundDb)
    → (next_even_seq db % 2 ≡ 0)
      × (2 ≤ next_even_seq db)
      × (max_seq db.messages_in < next_even_seq db)
      × (next_even_seq db ≤ max_seq db.messages_in + 2)
unfolding next_even_seq
next_even_seq_lem db = ground arith

-- While the sequence numbers of the table are even and rise from row to row, they do so after an
-- insert that `insertMessage` accepts.
pub insert_message-Rising :
    (db db' : InboundDb) (m : NewMessage)
    → Rising 0 db.messages_in
    → insert_message db m ≡ some db'
    → Rising 0 db'.messages_in
unfolding insert_message insert_row
insert_message-Rising db db' m r h =
    let n = next_even_seq_lem db in
    let row = message_row m (next_even_seq db) in
    let grown = Rising-append 0 db.messages_in row r (omega arith) n.2 n.0 in ground arith
