-- ===== src/Runner/Acks.antt =====
-- The claims of container/agent-runner/src/db/messages-in.ts: what is picked up, finished or taken up
-- again, and what the host's sweep then sees.
use pocketclaw_telegram.Prelude.{
  String, List, Bool, ℕ, any, ◌≡◌, ◌==◌, true, if◌then◌else◌, ◌&&◌, select, not, arith, ◌∷◌, eq_iff,
  [], any-append, ◌∙◌, ap, ◌||◌, false, All, refl, All-imp, sym, Bool-cases, All-members, inl, inr,
}
use pocketclaw_telegram.SessionDb.Acks.{
  is_processing, complete_one, complete_all, sync_processing_acks,
}
use pocketclaw_telegram.SessionDb.{
  ProcessingAck, AckStatus, MessageIn, InboundDb, OutboundDb, is_completed,
}
use pocketclaw_telegram.Runner.{
  put_ack, ack_row, put_acks, has_ack, clear_stale_processing_acks, ack_completed, ack_processing,
  mark_completed, mark_processing, get_pending_messages,
}
use pocketclaw_telegram.Runner.Pending.{Fresh, get_pending_messages_lem}
use mathlib.Core.List.{Memᴰ}

abbrev pub mem : String → List String → Bool
mem id = any (λ i. i == id)

-- Some row of the id is no claim: its message is completed or failed.
abbrev pub is_settled : String → List ProcessingAck → Bool
is_settled id = any (λ a. a.message_id == id && not (is_processing a))

any-select_other :
    (p : ProcessingAck → Bool) (id j : String) (acks : List ProcessingAck)
    → ((a : ProcessingAck) → p a ≡ true → a.message_id ≡ id)
    → any p (select (λ a. not (a.message_id == j)) acks) ≡ (not (j == id) && any p acks)
any-select_other p id j [] h = ground arith
any-select_other p id j (a ∷ acks) h =
    ground (arith, any-select_other p id j acks h, h a, eq_iff a.message_id j, eq_iff j id)

-- A row of the id settles it, if it is no claim, and takes its settlement away, if it is one.
is_settled-put_ack :
    (now : ℕ) (status : AckStatus) (id j : String) (acks : List ProcessingAck)
    → is_settled id (put_ack now status j acks)
      ≡ (if j == id then not (is_processing (ack_row now status j)) else is_settled id acks)
unfolding put_ack
is_settled-put_ack now status id j acks =
    let settles : ProcessingAck → Bool = λ a. a.message_id == id && not (is_processing a) in
    any-append settles (select (λ a. not (a.message_id == j)) acks) (ack_row now status j ∷ [])
    ∙ ap (λ b. b || any settles (ack_row now status j ∷ []))
        (any-select_other settles id j acks (λ a t. ground (arith, eq_iff a.message_id id)))
    ∙ by_id (j == id) (not (is_processing (ack_row now status j))) (is_settled id acks)
  where
    by_id :
        (same done rest : Bool)
        → ((not same && rest) || ((same && done) || false)) ≡ (if same then done else rest)
    by_id true done rest = ground arith
    by_id false true true = refl
    by_id false true false = refl
    by_id false false true = refl
    by_id false false false = refl

pub is_settled-completed :
    (now : ℕ) (id : String) (ids : List String) (acks : List ProcessingAck)
    → is_settled id (put_acks now ack_completed ids acks) ≡ (mem id ids || is_settled id acks)
is_settled-completed now id [] acks = refl
is_settled-completed now id (i ∷ ids) acks =
    is_settled-completed now id ids (put_ack now ack_completed i acks)
    ∙ ap (λ b. mem id ids || b) (is_settled-put_ack now ack_completed id i acks)
    ∙ by_id (i == id) (mem id ids) (is_settled id acks)
  where
    by_id :
        (same rest old : Bool) → (rest || (if same then true else old)) ≡ ((same || rest) || old)
    by_id true true old = refl
    by_id true false old = refl
    by_id false rest old = refl

pub is_settled-processing :
    (now : ℕ) (id : String) (ids : List String) (acks : List ProcessingAck)
    → is_settled id (put_acks now ack_processing ids acks)
      ≡ (not (mem id ids) && is_settled id acks)
is_settled-processing now id [] acks = refl
is_settled-processing now id (i ∷ ids) acks =
    is_settled-processing now id ids (put_ack now ack_processing i acks)
    ∙ ap (λ b. not (mem id ids) && b) (is_settled-put_ack now ack_processing id i acks)
    ∙ by_id (i == id) (mem id ids) (is_settled id acks)
  where
    by_id :
        (same rest old : Bool)
        → (not rest && (if same then false else old)) ≡ (not (same || rest) && old)
    by_id true true old = refl
    by_id true false old = refl
    by_id false rest old = refl

-- After the claims are cleared, the ids that have a row are the settled ones.
pub has_ack-clear :
    (id : String) (acks : List ProcessingAck)
    → has_ack id (select (λ a. not (is_processing a)) acks) ≡ is_settled id acks
has_ack-clear id [] = refl
has_ack-clear id (a ∷ acks) = ground (arith, has_ack-clear id acks)

-- A message that was completed is not handed out again by a container that starts later, after it
-- has cleared the claims of the one before.
pub completed_stays :
    (now later limit : ℕ) (first : Bool) (ids : List String) (in_db : InboundDb)
    (out_db : OutboundDb)
    → All
        (λ m. mem m.id ids ≡ false)
        (get_pending_messages later limit first in_db
          (clear_stale_processing_acks (mark_completed now ids out_db)))
unfolding clear_stale_processing_acks mark_completed
completed_stays now later limit first ids in_db out_db =
    let out_db' = clear_stale_processing_acks (mark_completed now ids out_db) in
    All-imp (Fresh later limit first in_db out_db') _
      (get_pending_messages later limit first in_db out_db')
      (λ m f. by_test m.id (mem m.id ids) (is_settled m.id out_db.processing_ack) (
        sym (is_settled-completed now m.id ids out_db.processing_ack)
        ∙ sym (has_ack-clear m.id (put_acks now ack_completed ids out_db.processing_ack))
        ∙ f.4))
      (get_pending_messages_lem later limit first in_db out_db').0
  where
    by_test : (id : String) (a b : Bool) → (a || b) ≡ false → a ≡ false
    by_test id false b h = refl
    by_test id true b h = cc

-- A claim of a container that crashed does not outlive the start of the next: once it has cleared
-- the claims, the messages that have a row are those that were settled and were not claimed since.
pub crashed_claims_return :
    (now : ℕ) (ids : List String) (id : String) (out_db : OutboundDb)
    → has_ack id (clear_stale_processing_acks (mark_processing now ids out_db)).processing_ack
      ≡ (not (mem id ids) && is_settled id out_db.processing_ack)
unfolding clear_stale_processing_acks mark_processing
crashed_claims_return now ids id out_db =
    has_ack-clear id (put_acks now ack_processing ids out_db.processing_ack)
    ∙ is_settled-processing now id ids out_db.processing_ack

-- What is settled is completed in the inbound table.
abbrev SyncedBy : (String → Bool) → List MessageIn → Type 0
SyncedBy done = All (λ m. done m.id ≡ true → is_completed m.status ≡ true)

complete_one-SyncedBy :
    (done : String → Bool) (id : String) (ms : List MessageIn)
    → SyncedBy done ms
    → SyncedBy (λ i. done i || (i == id)) (complete_one ms id)
complete_one-SyncedBy done id [] h = tt
complete_one-SyncedBy done id (m ∷ ms) h =
    elim (Bool-cases (m.id == id && not (is_completed m.status))) [
      | inl e ↦ rw e ((λ t. refl), complete_one-SyncedBy done id ms h.1)
      | inr e ↦ rw e ((λ t. ground (arith, h.0)), complete_one-SyncedBy done id ms h.1)
    ]

complete_all-SyncedBy :
    (done : String → Bool) (ms : List MessageIn) (acks : List ProcessingAck)
    → SyncedBy done ms
    → SyncedBy (λ i. done i || is_settled i acks) (complete_all ms acks)
unfolding complete_all
complete_all-SyncedBy done ms [] h = All-imp _ _ ms (λ m k t. k (ground arith)) h
complete_all-SyncedBy done ms (a ∷ acks) h = elim (Bool-cases (is_processing a)) [
  | inl claim ↦ rw claim (
      All-imp _ _ (complete_all ms acks) (λ m k t. k (ground arith))
        (complete_all-SyncedBy done ms acks h))
  | inr settled ↦ rw settled (
      All-imp _ _ (complete_all (complete_one ms a.message_id) acks)
        (λ m k t. k (ground (arith, eq_iff m.id a.message_id, eq_iff a.message_id m.id)))
        (complete_all-SyncedBy (λ i. done i || (i == a.message_id)) (complete_one ms a.message_id)
          acks (complete_one-SyncedBy done a.message_id ms h)))
]

-- When the sweep copies the acknowledgements back, each row of the inbound table whose id the
-- container has completed has the status `completed`.
pub sync-mark_completed :
    (now : ℕ) (ids : List String) (in_db : InboundDb) (out_db : OutboundDb)
    → All
        (λ m. mem m.id ids ≡ true → is_completed m.status ≡ true)
        (sync_processing_acks in_db (mark_completed now ids out_db)).messages_in
unfolding sync_processing_acks mark_completed
sync-mark_completed now ids in_db out_db =
    let acks = put_acks now ack_completed ids out_db.processing_ack in
    All-imp _ _ (complete_all in_db.messages_in acks)
      (λ m k t. k (
        is_settled-completed now m.id ids out_db.processing_ack
        ∙ ap (λ b. b || is_settled m.id out_db.processing_ack) t))
      (complete_all-SyncedBy (λ i. false) in_db.messages_in acks
        (All-imp (λ m. Memᴰ m in_db.messages_in) _ in_db.messages_in (λ m member t. cc t)
          (All-members in_db.messages_in)))
