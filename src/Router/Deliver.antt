-- ===== src/Router/Deliver.antt =====
-- Where `deliverToAgent` of src/router.ts writes.
use pocketclaw_telegram.Prelude.{
  String, ◌==◌, eq_iff, false, some, List, [], ◌∷◌, ◌≡◌, refl, ap, ◌∙◌, ◌≢◌, inl, inr, arith,
  Bool-cases, Option-cases, ℕ,
}
use text.Mathlib.TextLemmas.{append_cancel_left}
use pocketclaw_telegram.SessionDb.{InboundDb, NewMessage, insert_message}
use pocketclaw_telegram.World.{World, Env, ok, lookup_db, replace_db, write_session_message}
use pocketclaw_telegram.Router.Agents.{message_id_for_agent}

lookup-replace_self {ℓ} :
    {A : Type ℓ} (key : String) (a b : A) (dbs : List (String × A))
    → lookup_db key dbs ≡ some b
    → lookup_db key (replace_db key a dbs) ≡ some a
lookup-replace_self key a b [] h = cc
lookup-replace_self key a b ((k, c) ∷ rest) h = ground (arith, lookup-replace_self key a b rest)

pub lookup-replace_ne {ℓ} :
    {A : Type ℓ} (key other : String) (a : A) (dbs : List (String × A))
    → (key == other) ≡ false
    → lookup_db other (replace_db key a dbs) ≡ lookup_db other dbs
lookup-replace_ne key other a [] h = refl
lookup-replace_ne key other a ((k, c) ∷ rest) h =
    ground
      (arith, eq_iff k key, eq_iff k other, eq_iff key other, lookup-replace_ne key other a rest)

-- Writing a message adds it to the database of its session and leaves that of any other as it was.
pub write_session_message_lem :
    (env : Env) (id other : String) (m : NewMessage) (w w' : World)
    → (id == other) ≡ false
    → write_session_message env id m w ≡ ok tt w'
    → (db db' : InboundDb) × (lookup_db id w.inboxes ≡ some db)
      × (insert_message db (record m { content = env.stored_content m.id m.content }) ≡ some db')
      × (lookup_db id w'.inboxes ≡ some db')
      × (lookup_db other w'.inboxes ≡ lookup_db other w.inboxes)
unfolding write_session_message
write_session_message_lem env id other m w w' n h = elim (Option-cases (lookup_db id w.inboxes)) [
  | inl missing ↦ absurd (ground arith)
  | inr (db, found) ↦
      elim (Option-cases
        (insert_message db (record m { content = env.stored_content m.id m.content }))) [
          | inl taken ↦ absurd (ground arith)
          | inr (db', inserted) ↦
              let stored : w'.inboxes ≡ replace_db id db' w.inboxes = ground arith in
              (
                db,
                db',
                found,
                inserted,
                ap (lookup_db id) stored ∙ lookup-replace_self id db' db w.inboxes found,
                ap (lookup_db other) stored ∙ lookup-replace_ne id other db' w.inboxes n,
              )
        ]
]

-- The rows that one message becomes for two agents have different ids, whatever its own id is, if
-- both are made of that id.
pub message_id_for_agent_inj :
    (env : Env) (n n' : ℕ) (id g h : String)
    → id ≢ ""
    → message_id_for_agent env n (some id) g ≡ message_id_for_agent env n' (some id) h
    → g ≡ h
unfolding message_id_for_agent
message_id_for_agent_inj env n n' id g h named e = elim (Bool-cases (id == "")) [
  | inl empty ↦ absurd (named ((eq_iff id "").0 empty))
  | inr other ↦ append_cancel_left ":" g h (append_cancel_left id _ _ (rw other at e))
]
