-- ===== src/Delivery/Attempts.antt =====
-- How `drainSession` of src/delivery.ts settles one message.
use pocketclaw_telegram.Prelude.{
  ◌≤◌, ◌∷◌, [], List, Bool, String, ℕ, if◌then◌else◌, ◌≡◌, some, Bool-cases, true, ◌==◌, ◌++◌, inl,
  ap, ◌∙◌, inr, sym, refl, arith, eq_refl, ◌⊎◌, leb, Option, ◌+◌, none, ◌<◌, false,
}
use pocketclaw_telegram.SessionDb.Outbound.{
  has_delivered, insert_delivered, mark_delivery_failed, mark_delivered,
}
use pocketclaw_telegram.SessionDb.{
  DeliveryStatus, delivered_ok, delivery_failed, InboundDb, Delivered, MessageOut,
}
use pocketclaw_telegram.World.{lookup_db, replace_db, Ran, World, ok, threw, typing_paused}
use pocketclaw_telegram.Delivery.Drain.{
  attempts_of, forget, record_attempt, Desk, write_inbox, pause_typing, is_user_facing,
  max_delivery_attempts, set_attempts,
}
use pocketclaw_telegram.Types.{Session}

attempts-forget : (counts : List (String × ℕ)) (id : String) → attempts_of (forget counts id) id ≡ 0
attempts-forget [] id = refl
attempts-forget ((k, n) ∷ rest) id = elim (Bool-cases (k == id)) [
  | inl e ↦
      ap (λ b. attempts_of (if b then forget rest id else (k, n) ∷ forget rest id) id) e
      ∙ attempts-forget rest id
  | inr e ↦
      ap (λ b. attempts_of (if b then forget rest id else (k, n) ∷ forget rest id) id) e
      ∙ (ap (λ b. if b then n else attempts_of (forget rest id) id) e ∙ attempts-forget rest id)
]

abbrev replaced_head {ℓ} :
    {A : Type ℓ} → Bool → String → A → String → A → List (String × A) → List (String × A)
replaced_head b key a k c rest = if b then (k, a) ∷ rest else (k, c) ∷ replace_db key a rest

lookup_replaced {ℓ} :
    {A : Type ℓ} (key : String) (a b : A) (dbs : List (String × A))
    → lookup_db key dbs ≡ some a
    → lookup_db key (replace_db key b dbs) ≡ some b
lookup_replaced key a b [] h = cc
lookup_replaced key a b ((k, c) ∷ rest) h = elim (Bool-cases (k == key)) [
  | inl e ↦
      ap (λ t. lookup_db key (replaced_head t key b k c rest)) e
      ∙ ap (λ t. if t then some b else lookup_db key rest) e
  | inr e ↦
      ap (λ t. lookup_db key (replaced_head t key b k c rest)) e
      ∙ (ap (λ t. if t then some c else lookup_db key (replace_db key b rest)) e
          ∙ lookup_replaced key a b rest
              (sym (ap (λ t. if t then some c else lookup_db key rest) e) ∙ h))
]

-- The row that `INSERT OR IGNORE` leaves: the table is as it was where the message had a row, else it
-- has one more, with that status and that id of the platform.
abbrev pub OneRow : DeliveryStatus → Option String → String → InboundDb → InboundDb → Type 0
OneRow status platform_id id db after =
    (after.messages_in ≡ db.messages_in)
    × (((has_delivered id db.delivered ≡ true) × (after.delivered ≡ db.delivered))
        ⊎ ((has_delivered id db.delivered ≡ false)
            × (after.delivered
                ≡ db.delivered
                  ++ record {
                    message_out_id = id;
                    platform_message_id = platform_id;
                    status = status;
                  }
                    ∷ [])))

insert_delivered-OneRow :
    (db : InboundDb) (row : Delivered)
    → OneRow row.status row.platform_message_id row.message_out_id db (insert_delivered db row)
insert_delivered-OneRow db row = by_test (has_delivered row.message_out_id db.delivered) refl
  where
    by_test :
        (b : Bool)
        → has_delivered row.message_out_id db.delivered ≡ b
        → OneRow row.status row.platform_message_id row.message_out_id db
            (if b then db else record db { delivered = db.delivered ++ row ∷ [] })
    by_test true e = (refl, inl (e, refl))
    by_test false e = (refl, inr (e, refl))

-- From one world to another, the session's inbound database has the row of the message.
abbrev pub Marked : DeliveryStatus → Option String → String → Session → World → World → Type 0
Marked status platform_id id s w after =
    (db db' : InboundDb) × (lookup_db s.id w.inboxes ≡ some db)
    × (lookup_db s.id after.inboxes ≡ some db')
    × OneRow status platform_id id db db'

lookup-write_inbox :
    (f : InboundDb → InboundDb) (s : Session) (w : World) (db : InboundDb)
    → lookup_db s.id w.inboxes ≡ some db
    → lookup_db s.id (write_inbox f s w).inboxes ≡ some (f db)
lookup-write_inbox f s w db h =
    ap (λ o. lookup_db s.id (written o).inboxes) h ∙ lookup_replaced s.id db (f db) w.inboxes h
  where
    written : Option InboundDb → World
    written none = w
    written (some b) = record w { inboxes = replace_db s.id (f b) w.inboxes }

inboxes-pause_typing :
    (msg : MessageOut) (s : Session) (w : World) → (pause_typing msg s w).inboxes ≡ w.inboxes
inboxes-pause_typing msg s w = elim (Bool-cases (is_user_facing msg)) [
  | inl e ↦
      ap
        (λ b.
          (if b then record w { effects = w.effects ++ typing_paused s.id ∷ [] } else w).inboxes)
        e
  | inr e ↦
      ap
        (λ b.
          (if b then record w { effects = w.effects ++ typing_paused s.id ∷ [] } else w).inboxes)
        e
]

abbrev pub world_of {ℓ} : {A : Type ℓ} → Ran A → World
world_of (ok a w) = w
world_of (threw w) = w

-- What `record_attempt` promises of an attempt that returned, and of one that threw.
abbrev pub Recorded : MessageOut → Session → Desk → Ran (Option String) → Desk → Type 0
Recorded msg s d (ok platform_id w) after =
    Marked delivered_ok platform_id msg.id s w after.world × (attempts_of after.attempts msg.id ≡ 0)
Recorded msg s d (threw w) after =
    ((attempts_of d.attempts msg.id + 1 < max_delivery_attempts)
      × (after.world ≡ w)
      × (attempts_of after.attempts msg.id ≡ attempts_of d.attempts msg.id + 1))
    ⊎ ((max_delivery_attempts ≤ attempts_of d.attempts msg.id + 1)
        × Marked delivery_failed none msg.id s w after.world
        × (attempts_of after.attempts msg.id ≡ 0))

threw-Recorded :
    (msg : MessageOut) (s : Session) (d : Desk) (w : World) (db : InboundDb) (b : Bool)
    → leb max_delivery_attempts (attempts_of d.attempts msg.id + 1) ≡ b
    → lookup_db s.id w.inboxes ≡ some db
    → Recorded msg s d (threw w) (
        if b
        then record d {
          world = write_inbox (λ db. mark_delivery_failed db msg.id) s w;
          attempts = forget d.attempts msg.id;
        }
        else record d {
          world = w;
          attempts = set_attempts d.attempts msg.id (attempts_of d.attempts msg.id + 1);
        })
unfolding mark_delivery_failed
threw-Recorded msg s d w db true e h = inr (
  ground arith,
  (
    db,
    mark_delivery_failed db msg.id,
    h,
    lookup-write_inbox (λ db. mark_delivery_failed db msg.id) s w db h,
    insert_delivered-OneRow db _,
  ),
  attempts-forget d.attempts msg.id,
)
threw-Recorded msg s d w db false e h = inl (ground arith, refl, ground (arith, eq_refl msg.id))

-- For a session whose inbound database is there: an attempt that returned leaves one row of the
-- message, 'delivered' with the id of the platform, and its failures are forgotten. One that threw as
-- the first or the second in a row changes nothing more, and its count is one higher; one that threw as
-- the third leaves one row, 'failed', and the count is forgotten. A row that was there stays as it was.
pub record_attempt-Recorded :
    (msg : MessageOut) (s : Session) (d : Desk) (r : Ran (Option String)) (db : InboundDb)
    → lookup_db s.id (world_of r).inboxes ≡ some db
    → Recorded msg s d r (record_attempt msg s d r)
unfolding record_attempt mark_delivered
record_attempt-Recorded msg s d (ok id w) db h = (
  (
    db,
    mark_delivered db msg.id id,
    h,
    ap (lookup_db s.id)
          (inboxes-pause_typing msg s (write_inbox (λ db. mark_delivered db msg.id id) s w))
        ∙ lookup-write_inbox (λ db. mark_delivered db msg.id id) s w db h,
    insert_delivered-OneRow db _,
  ),
  attempts-forget d.attempts msg.id,
)
record_attempt-Recorded msg s d (threw w) db h =
    threw-Recorded msg s d w db (leb max_delivery_attempts (attempts_of d.attempts msg.id + 1)) refl
      h
