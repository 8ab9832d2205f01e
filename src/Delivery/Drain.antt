-- ===== src/Delivery/Drain.antt =====
-- `deliverSessionMessages` and `drainSession` of src/delivery.ts: the queue of one session, with the
-- counts of failed attempts and the sessions in flight that the module keeps in memory.
use pocketclaw_telegram.Prelude.{
  ℕ, List, String, Bool, Option, ◌∷◌, not, if◌then◌else◌, ◌==◌, ◌++◌, select, any, ◌&&◌, some,
  is_text, [], ◌+◌, none, leb,
}
use pocketclaw_telegram.World.{
  World, Env, lookup_db, Ran, get_agent_group, ok, typing_paused, threw, replace_db,
}
use pocketclaw_telegram.SessionDb.Outbound.{
  mark_delivered, has_delivered, get_due_outbound_messages, mark_delivery_failed,
}
use pocketclaw_telegram.SessionDb.{InboundDb, MessageOut, OutboundDb}
use pocketclaw_telegram.Types.{Session}
use pocketclaw_telegram.Delivery.Message.{Channels, deliver_message}

abbrev pub max_delivery_attempts : ℕ
max_delivery_attempts = 3

pub record Desk : Type 0 where
  pub world : World
  pub attempts : List (String × ℕ)
  pub inflight : List String

abbrev pub attempts_of : List (String × ℕ) → String → ℕ
attempts_of [] id = 0
attempts_of ((k, n) ∷ rest) id = if k == id then n else attempts_of rest id

abbrev pub forget : List (String × ℕ) → String → List (String × ℕ)
forget [] id = []
forget ((k, n) ∷ rest) id = if k == id then forget rest id else (k, n) ∷ forget rest id

abbrev pub set_attempts : List (String × ℕ) → String → ℕ → List (String × ℕ)
set_attempts counts id n = (id, n) ∷ forget counts id

-- A write to the database of the session that is being drained.
abbrev pub write_inbox : (InboundDb → InboundDb) → Session → World → World
write_inbox f s w = elim (lookup_db s.id w.inboxes) [
  | none ↦ w
  | some db ↦ record w { inboxes = replace_db s.id (f db) w.inboxes }
]

abbrev pub is_user_facing : MessageOut → Bool
is_user_facing msg = not (msg.kind == "system") && not (is_text msg.channel_type "agent")

abbrev pub pause_typing : MessageOut → Session → World → World
pause_typing msg s w =
    if is_user_facing msg then record w { effects = w.effects ++ typing_paused s.id ∷ [] } else w

-- After `deliverMessage`: the message is marked delivered, or its failure counted.
unfoldable pub record_attempt : MessageOut → Session → Desk → Ran (Option String) → Desk
record_attempt msg s d (ok id w) = record d {
  world = pause_typing msg s (write_inbox (λ db. mark_delivered db msg.id id) s w);
  attempts = forget d.attempts msg.id;
}
record_attempt msg s d (threw w) =
    let n = attempts_of d.attempts msg.id + 1 in
    if leb max_delivery_attempts n
    then record d {
      world = write_inbox (λ db. mark_delivery_failed db msg.id) s w;
      attempts = forget d.attempts msg.id;
    }
    else record d { world = w; attempts = set_attempts d.attempts msg.id n }

module _ (env : Env) (channels : Option Channels) where
  unfoldable pub deliver_one : MessageOut → Session → Desk → Desk
  deliver_one msg s d = record_attempt msg s d (deliver_message env channels msg s d.world)

  unfoldable pub deliver_all : List MessageOut → Session → Desk → Desk
  deliver_all [] s d = d
  deliver_all (msg ∷ rest) s d = deliver_all rest s (deliver_one msg s d)

  abbrev pub undelivered : InboundDb → List MessageOut → List MessageOut
  undelivered db ms = select (λ m. not (has_delivered m.id db.delivered)) ms

  abbrev pub drain_opened : Session → Option OutboundDb → Option InboundDb → Desk → Desk
  drain_opened s none inbox d = d
  drain_opened s (some out) none d = d
  drain_opened s (some out) (some db) d =
      deliver_all (undelivered db (get_due_outbound_messages env.now out)) s d

  unfoldable pub drain_session : Session → Desk → Desk
  drain_session s d = elim (get_agent_group d.world s.agent_group_id) [
    | none ↦ d
    | some g ↦ drain_opened s (lookup_db s.id d.world.outboxes) (lookup_db s.id d.world.inboxes) d
  ]

  -- The guard against a second poll of the same session.
  unfoldable pub deliver_session_messages : Session → Desk → Desk
  deliver_session_messages s d =
      if any (λ id. id == s.id) d.inflight
      then d
      else (let drained = drain_session s (record d { inflight = s.id ∷ d.inflight }) in
          record drained { inflight = select (λ id. not (id == s.id)) drained.inflight })

  abbrev pub deliver_each : List Session → Desk → Desk
  deliver_each [] d = d
  deliver_each (s ∷ ss) d = deliver_each ss (deliver_session_messages s d)
