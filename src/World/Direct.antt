-- ===== src/World/Direct.antt =====
-- Sequence numbers of the rows that the host itself puts into a container's database:
-- `writeOutboundDirect` of src/session-manager.ts.
use pocketclaw_telegram.World.Outbound.{max_seq_out, direct_row}
use pocketclaw_telegram.Prelude.{ℕ, List, String, ◌<◌, Option, All, ◌∷◌, arith, ◌%◌, ◌≡◌, [], ◌+◌}
use pocketclaw_telegram.SessionDb.{OutboundDb, MessageOut}

seq-max : (ms : List MessageOut) (n : ℕ) → max_seq_out ms < n → All (λ m. m.seq < n) ms
unfolding max_seq_out
seq-max [] n h = tt
seq-max (m ∷ ms) n h = (omega arith, seq-max ms n (omega arith))

-- The row that the host adds has a sequence number above every row of the database, and of the parity
-- of the highest one: it is odd where the container's last row is odd.
pub direct_row_seq :
    (now : ℕ) (db : OutboundDb) (id kind : String) (platform channel thread : Option String)
    (content : String)
    → All
        (λ m. m.seq < (direct_row now db id kind platform channel thread content).seq)
        db.messages_out
      × ((direct_row now db id kind platform channel thread content).seq % 2
          ≡ max_seq_out db.messages_out % 2)
direct_row_seq now db id kind platform channel thread content =
    (seq-max db.messages_out (max_seq_out db.messages_out + 2) (omega arith), omega arith)
