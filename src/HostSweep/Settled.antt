-- ===== src/HostSweep/Settled.antt =====
-- What `resetStuckProcessingRows` of src/host-sweep.ts does to each row of the table.
use pocketclaw_telegram.Prelude.{
  All, ℕ, ◌==◌, false, List, [], ◌∷◌, map, if◌then◌else◌, ◌≡◌, refl, inl, inr, arith, Bool-cases,
  sym, ◌∙◌, ap, ◌≤◌, Bool, true, ◌||◌, any,
}
use pocketclaw_telegram.SessionDb.{MessageIn, InboundDb, ProcessingAck}
use pocketclaw_telegram.HostSweep.{max_tries, reset_rows}
use pocketclaw_telegram.HostSweep.Claimed.{
  Unique, once, claimed_once, reset_row-map, once-id, once_twice, Unique-map, claimed_once-id,
}

-- A row is named by some claim of the list.
abbrev pub is_claimed : List ProcessingAck → MessageIn → Bool
is_claimed claims m = any (λ c. m.id == c.message_id) claims

abbrev pub settle : ℕ → List ProcessingAck → MessageIn → MessageIn
settle now claims m = if is_claimed claims m then once now m else m

is_claimed_of_id :
    (cs : List ProcessingAck) (m n : MessageIn) → m.id ≡ n.id → is_claimed cs m ≡ is_claimed cs n
is_claimed_of_id [] m n e = refl
is_claimed_of_id (c ∷ cs) m n e =
    rw (is_claimed_of_id cs m n e) (ap (λ i. i == c.message_id || is_claimed cs n) e)

settle_claimed :
    (now : ℕ) (cs : List ProcessingAck) (m : MessageIn)
    → is_claimed cs m ≡ true
    → settle now cs m ≡ once now m
settle_claimed now cs m e = ap (λ b. if b then once now m else m) e

settle_unclaimed :
    (now : ℕ) (cs : List ProcessingAck) (m : MessageIn)
    → is_claimed cs m ≡ false
    → settle now cs m ≡ m
settle_unclaimed now cs m e = ap (λ b. if b then once now m else m) e

settle-once :
    (now : ℕ) (cs : List ProcessingAck) (m : MessageIn) → settle now cs (once now m) ≡ once now m
settle-once now cs m = elim (Bool-cases (is_claimed cs (once now m))) [
  | inl e ↦ settle_claimed now cs (once now m) e ∙ once_twice now m
  | inr e ↦ settle_unclaimed now cs (once now m) e
]

settle-cons :
    (now : ℕ) (c : ProcessingAck) (cs : List ProcessingAck) (m : MessageIn)
    → settle now cs (claimed_once now c.message_id m) ≡ settle now (c ∷ cs) m
settle-cons now c cs m = elim (Bool-cases (m.id == c.message_id)) [
  | inl same ↦
      ap (settle now cs) (ap (λ b. if b then once now m else m) same)
      ∙ settle-once now cs m
      ∙ sym (settle_claimed now (c ∷ cs) m (ap (λ b. b || is_claimed cs m) same))
  | inr other ↦
      ap (settle now cs) (ap (λ b. if b then once now m else m) other)
      ∙ ap (λ b. if b then once now m else m) (sym (ap (λ b. b || is_claimed cs m) other))
]

settle-id : (now : ℕ) (cs : List ProcessingAck) (m : MessageIn) → (settle now cs m).id ≡ m.id
settle-id now cs m = ground arith

map-map :
    (f g : MessageIn → MessageIn) (h : MessageIn → MessageIn)
    → ((m : MessageIn) → g (f m) ≡ h m)
    → (ms : List MessageIn) → map g (map f ms) ≡ map h ms
map-map f g h e [] = refl
map-map f g h e (m ∷ ms) = rw (e m, map-map f g h e ms)

-- In a table whose ids are distinct, the loop over the claims treats each row that some claim names
-- once, however many claims name it: a pending row that is not put off already is put off with its
-- try counted, or failed if it has used up its tries. Every other row, and the record of
-- deliveries, stays as it was.
pub reset_rows-settle :
    (now : ℕ) (db : InboundDb) (claims : List ProcessingAck)
    → Unique db.messages_in
    → reset_rows now db claims ≡ record db { messages_in = map (settle now claims) db.messages_in }
unfolding reset_rows
reset_rows-settle now db [] u =
    ap (λ ms. record db { messages_in = ms }) (sym (map_same db.messages_in))
  where
    map_same : (ms : List MessageIn) → map (settle now []) ms ≡ ms
    map_same [] = refl
    map_same (m ∷ ms) = ap (◌∷◌ m) (map_same ms)
reset_rows-settle now db (c ∷ cs) u =
    let step = reset_row-map now db c.message_id u in
    rw step (
      reset_rows-settle now
        (record db { messages_in = map (claimed_once now c.message_id) db.messages_in }) cs
        (Unique-map _ db.messages_in (claimed_once-id now c.message_id) u)
      ∙ ap (λ ms. record db { messages_in = ms })
          (map-map _ _ _ (settle-cons now c cs) db.messages_in))

settle_twice :
    (now : ℕ) (cs : List ProcessingAck) (m : MessageIn)
    → settle now cs (settle now cs m) ≡ settle now cs m
settle_twice now cs m = elim (Bool-cases (is_claimed cs m)) [
  | inl e ↦
      let first = settle_claimed now cs m e in
      ap (settle now cs) first
      ∙ settle_claimed now cs (once now m) (is_claimed_of_id cs (once now m) m (once-id now m) ∙ e)
      ∙ once_twice now m
      ∙ sym first
  | inr e ↦ ap (settle now cs) (settle_unclaimed now cs m e)
]

-- Running the loop again at the same time changes nothing: a try is not counted twice.
pub reset_rows_twice :
    (now : ℕ) (db : InboundDb) (claims : List ProcessingAck)
    → Unique db.messages_in
    → reset_rows now (reset_rows now db claims) claims ≡ reset_rows now db claims
reset_rows_twice now db claims u =
    let first = reset_rows-settle now db claims u in
    rw first (
      reset_rows-settle now (record db { messages_in = map (settle now claims) db.messages_in })
        claims (Unique-map _ db.messages_in (settle-id now claims) u)
      ∙ ap (λ ms. record db { messages_in = ms })
          (map-map _ _ _ (settle_twice now claims) db.messages_in))

abbrev pub TriesBounded : List MessageIn → Type 0
TriesBounded = All (λ m. m.tries ≤ max_tries)

settle-TriesBounded :
    (now : ℕ) (cs : List ProcessingAck) (ms : List MessageIn)
    → TriesBounded ms
    → TriesBounded (map (settle now cs) ms)
settle-TriesBounded now cs [] h = tt
settle-TriesBounded now cs (m ∷ ms) h = (ground arith, settle-TriesBounded now cs ms h.1)

-- While no message of such a table has more than five tries, none has after the loop.
pub reset_rows-TriesBounded :
    (now : ℕ) (db : InboundDb) (claims : List ProcessingAck)
    → Unique db.messages_in
    → TriesBounded db.messages_in
    → TriesBounded (reset_rows now db claims).messages_in
reset_rows-TriesBounded now db claims u h =
    rw (reset_rows-settle now db claims u) (settle-TriesBounded now claims db.messages_in h)
