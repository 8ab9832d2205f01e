-- ===== src/World/Outbound.antt =====
-- `writeOutboundDirect` of src/session-manager.ts: a message that the host puts into a container's
-- database.
use pocketclaw_telegram.Prelude.{
  ℕ, ◌+◌, ◌*◌, max, String, ◌==◌, Option, none, some, List, [], ◌∷◌, ◌++◌, any, if◌then◌else◌,
}
use pocketclaw_telegram.SessionDb.{OutboundDb, MessageOut, seconds}
use pocketclaw_telegram.World.{ok, Env, M, lookup_db, threw, replace_db}

unfoldable pub max_seq_out : List MessageOut → ℕ
max_seq_out [] = 0
max_seq_out (m ∷ ms) = max m.seq (max_seq_out ms)

-- The row of `writeOutboundDirect`: `COALESCE(MAX(seq), 0) + 2`, and `OR IGNORE` on the key.
abbrev pub direct_row :
    ℕ
    → OutboundDb
    → String
    → String
    → Option String
    → Option String
    → Option String
    → String
    → MessageOut
direct_row now db id kind platform channel thread content = record {
  id = id;
  seq = max_seq_out db.messages_out + 2;
  timestamp = seconds now * 1000;
  deliver_after = none;
  kind = kind;
  platform_id = platform;
  channel_type = channel;
  thread_id = thread;
  content = content;
  in_reply_to = none;
}

unfoldable pub insert_direct : OutboundDb → MessageOut → OutboundDb
insert_direct db row =
    if any (λ m. m.id == row.id) db.messages_out
    then db
    else record db { messages_out = db.messages_out ++ row ∷ [] }

unfoldable pub write_outbound_direct :
    Env
    → String
    → String
    → String
    → Option String
    → Option String
    → Option String
    → String
    → M (Unit {0})
write_outbound_direct env session_id id kind platform channel thread content w =
    elim (lookup_db session_id w.outboxes) [
      | none ↦ threw w
      | some db ↦ ok tt (record w {
        outboxes =
            replace_db session_id
              (insert_direct db (direct_row env.now db id kind platform channel thread content))
              w.outboxes;
      })
    ]
