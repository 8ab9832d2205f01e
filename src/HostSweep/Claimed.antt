-- ===== src/HostSweep/Claimed.antt =====
-- What one claim does to the rows in `resetStuckProcessingRows` of src/host-sweep.ts.
use pocketclaw_telegram.Prelude.{
  ℕ, String, ◌==◌, false, not, Option, none, some, List, [], ◌∷◌, find, update, map, leb,
  if◌then◌else◌, ◌≡◌, refl, inl, inr, arith, Option-cases, Bool-cases, find→Memᴰ, ◌&&◌, eq_iff, sym,
  ◌∙◌, ap,
}
use pocketclaw_telegram.SessionDb.{
  MessageIn, InboundDb, failed, is_pending, has_id, mark_message_failed, retry_with_backoff,
  retried, get_message_for_retry,
}
use pocketclaw_telegram.HostSweep.{max_tries, is_scheduled, backoff_sec, reset_row}
use pocketclaw_telegram.HostSweep.Backoff.{backoff_sec_bounds}

-- The primary key of `messages_in`.
abbrev pub Unique : List MessageIn → Type 0
Unique [] = Unit
Unique (m ∷ ms) = (has_id m.id ms ≡ false) × Unique ms

-- A row that a claim names: one that waits and is not put off already is put off once more, or
-- failed at its last try.
abbrev pub once : ℕ → MessageIn → MessageIn
once now m =
    if is_pending m.status && not (is_scheduled now m.process_after)
    then if leb max_tries m.tries
      then record m { status = failed }
      else retried now (backoff_sec m.tries) m
    else m

abbrev pub claimed_once : ℕ → String → MessageIn → MessageIn
claimed_once now id m = if m.id == id then once now m else m

module _ (now : ℕ) (id : String) where
  -- The statement that runs for the row that the lookup found.
  abbrev resolve : Option MessageIn → List MessageIn → List MessageIn
  resolve none ms = ms
  resolve (some m) ms =
      if is_scheduled now m.process_after
      then ms
      else if leb max_tries m.tries
      then update (λ r. r.id == id) (λ r. record r { status = failed }) ms
      else update (λ r. r.id == id) (retried now (backoff_sec m.tries)) ms

  update_absent :
      (f : MessageIn → MessageIn) (ms : List MessageIn)
      → has_id id ms ≡ false
      → update (λ r. r.id == id) f ms ≡ ms
  update_absent f [] h = refl
  update_absent f (m ∷ ms) h = ground (arith, update_absent f ms)

  find_absent :
      (ms : List MessageIn)
      → has_id id ms ≡ false
      → find (λ m. m.id == id && is_pending m.status) ms ≡ none
  find_absent [] h = refl
  find_absent (m ∷ ms) h = ground (arith, find_absent ms)

  map_absent : (ms : List MessageIn) → has_id id ms ≡ false → map (claimed_once now id) ms ≡ ms
  map_absent [] h = refl
  map_absent (m ∷ ms) h =
      let other : (m.id == id) ≡ false = ground arith in rw (other, map_absent ms (ground arith))

  resolve_other :
      (o : Option MessageIn) (m : MessageIn) (ms : List MessageIn)
      → (m.id == id) ≡ false
      → resolve o (m ∷ ms) ≡ m ∷ resolve o ms
  resolve_other none m ms h = refl
  resolve_other (some r) m ms h = ground arith

  resolve_here :
      (m : MessageIn) (ms : List MessageIn)
      → m.id ≡ id
      → has_id id ms ≡ false
      → resolve (find (λ m. m.id == id && is_pending m.status) (m ∷ ms)) (m ∷ ms) ≡ once now m ∷ ms
  resolve_here m ms e absent = ground (
    arith,
    eq_iff m.id id,
    find_absent ms absent,
    update_absent (λ r. record r { status = failed }) ms absent,
    update_absent (retried now (backoff_sec m.tries)) ms absent,
  )

  resolve-map :
      (ms : List MessageIn)
      → Unique ms
      → resolve (find (λ m. m.id == id && is_pending m.status) ms) ms ≡ map (claimed_once now id) ms
  resolve-map [] u = refl
  resolve-map (m ∷ ms) u = elim (Bool-cases (m.id == id)) [
    | inl same ↦
        let e = (eq_iff m.id id).0 same in
        let absent : has_id id ms ≡ false = rw (← e) u.0 in
        resolve_here m ms e absent ∙ rw same (ap (◌∷◌ (once now m)) (sym (map_absent ms absent)))
    | inr other ↦ rw other (
        resolve_other (find (λ m. m.id == id && is_pending m.status) ms) m ms other
        ∙ ap (◌∷◌ m) (resolve-map ms u.1))
  ]

reset_row-resolve :
    (now : ℕ) (db : InboundDb) (id : String)
    → reset_row now db id
      ≡ record db { messages_in = resolve now id (get_message_for_retry db id) db.messages_in }
unfolding reset_row get_message_for_retry mark_message_failed retry_with_backoff
reset_row-resolve now db id =
    elim (Option-cases (find (λ m. m.id == id && is_pending m.status) db.messages_in)) [
      | inl e ↦ rw (e, reset_row) refl
      | inr (m, e) ↦
          let (_, test) = find→Memᴰ _ db.messages_in e in
          let same : m.id ≡ id = ground (arith, eq_iff m.id id) in
          rw (e, reset_row, same) (ground arith)
    ]

pub reset_row-map :
    (now : ℕ) (db : InboundDb) (id : String)
    → Unique db.messages_in
    → reset_row now db id ≡ record db { messages_in = map (claimed_once now id) db.messages_in }
unfolding get_message_for_retry
reset_row-map now db id u =
    reset_row-resolve now db id
    ∙ ap (λ ms. record db { messages_in = ms }) (resolve-map now id db.messages_in u)

pub once-id : (now : ℕ) (m : MessageIn) → (once now m).id ≡ m.id
once-id now m = ground arith

pub once_twice : (now : ℕ) (m : MessageIn) → once now (once now m) ≡ once now m
once_twice now m = ground (arith, backoff_sec_bounds m.tries)

pub has_id-map :
    (f : MessageIn → MessageIn) (id : String) (ms : List MessageIn)
    → ((m : MessageIn) → (f m).id ≡ m.id)
    → has_id id (map f ms) ≡ has_id id ms
has_id-map f id [] h = refl
has_id-map f id (m ∷ ms) h = rw (h m, has_id-map f id ms h)

pub Unique-map :
    (f : MessageIn → MessageIn) (ms : List MessageIn)
    → ((m : MessageIn) → (f m).id ≡ m.id)
    → Unique ms
    → Unique (map f ms)
Unique-map f [] h u = tt
Unique-map f (m ∷ ms) h u = (rw (h m, has_id-map f m.id ms h) u.0, Unique-map f ms h u.1)

pub claimed_once-id : (now : ℕ) (id : String) (m : MessageIn) → (claimed_once now id m).id ≡ m.id
claimed_once-id now id m = ground arith
