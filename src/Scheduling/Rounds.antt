-- ===== src/Scheduling/Rounds.antt =====
-- The whole loop of `handleRecurrence` of src/modules/scheduling/recurrence.ts, by series.
use pocketclaw_telegram.Prelude.{
  String, List, update, ◌==◌, Bool, All, ◌∷◌, none, ◌≡◌, ◌++◌, select, [], if◌then◌else◌, false,
  if_lem, ap, any-append, arith, refl, ◌||◌, ◌∙◌, sym, eq_iff, true, ℕ, Option, ◌+◌, some,
  Bool-cases, inl, inr, subst,
}
use pocketclaw_telegram.SessionDb.{MessageIn, has_id, InboundDb, insert_row, next_even_seq}
use pocketclaw_telegram.HostSweep.Claimed.{Unique}
use mathlib.Core.List.{Memᴰ}
use pocketclaw_telegram.Scheduling.{
  insert_recurrence, recur_one, recur_all, handle_recurrence, recurred, get_completed_recurring,
  clear_recurrence, inserted_or, id_prefix, next_of, recurrence_row,
}
use pocketclaw_telegram.Scheduling.Recurrence.{heads, recur_one-heads}

abbrev clear_of : String → List MessageIn → List MessageIn
clear_of id ms = update (λ m. m.id == id) (λ m. record m { recurrence = none }) ms

has_id-clear_of : (x id : String) (ms : List MessageIn) → has_id x (clear_of id ms) ≡ has_id x ms
has_id-clear_of x id [] = refl
has_id-clear_of x id (m ∷ ms) =
    ap (λ s. s == x || has_id x (clear_of id ms)) (same_id (m.id == id))
    ∙ ap (λ b. m.id == x || b) (has_id-clear_of x id ms)
  where
    same_id : (b : Bool) → (if b then record m { recurrence = none } else m).id ≡ m.id
    same_id true = refl
    same_id false = refl

Unique-clear_of : (id : String) (ms : List MessageIn) → Unique ms → Unique (clear_of id ms)
Unique-clear_of id [] u = tt
Unique-clear_of id (m ∷ ms) u = (
  if_lem (λ (q : MessageIn). has_id q.id (clear_of id ms) ≡ false) (m.id == id)
      (record m { recurrence = none }) m (has_id-clear_of m.id id ms ∙ u.0)
      (has_id-clear_of m.id id ms ∙ u.0),
  Unique-clear_of id ms u.1,
)

Unique-append :
    (ms : List MessageIn) (row : MessageIn)
    → Unique ms
    → has_id row.id ms ≡ false
    → Unique (ms ++ row ∷ [])
Unique-append [] row u n = (refl, tt)
Unique-append (m ∷ ms) row u n = (
  any-append (λ r. r.id == m.id) ms (row ∷ [])
      ∙ ground (arith, eq_iff m.id row.id, eq_iff row.id m.id, u.0),
  Unique-append ms row u.1 (ground arith),
)

Memᴰ-clear_of :
    (id : String) (r : MessageIn) (ms : List MessageIn)
    → (r.id == id) ≡ false
    → Memᴰ r ms
    → Memᴰ r (clear_of id ms)
Memᴰ-clear_of id r [] n m = elim m [ ]
Memᴰ-clear_of id r (x ∷ ms) n (Memᴰ.head e) =
    let other : (x.id == id) ≡ false = ap (λ (q : MessageIn). q.id == id) (sym e) ∙ n in
    Memᴰ.head (e ∙ sym (ap (λ b. if b then record x { recurrence = none } else x) other))
Memᴰ-clear_of id r (x ∷ ms) n (Memᴰ.tail m) = Memᴰ.tail (Memᴰ-clear_of id r ms n m)

Memᴰ-append_left : (r row : MessageIn) (ms : List MessageIn) → Memᴰ r ms → Memᴰ r (ms ++ row ∷ [])
Memᴰ-append_left r row [] m = elim m [ ]
Memᴰ-append_left r row (x ∷ ms) (Memᴰ.head e) = Memᴰ.head e
Memᴰ-append_left r row (x ∷ ms) (Memᴰ.tail m) = Memᴰ.tail (Memᴰ-append_left r row ms m)

has_id-select :
    (x : String) (p : MessageIn → Bool) (ms : List MessageIn)
    → has_id x ms ≡ false
    → has_id x (select p ms) ≡ false
has_id-select x p [] h = refl
has_id-select x p (m ∷ ms) h =
    if_lem (λ (l : List MessageIn). has_id x l ≡ false) (p m) _ _
      (ground (arith, has_id-select x p ms (ground arith))) (has_id-select x p ms (ground arith))

Unique-select : (p : MessageIn → Bool) (ms : List MessageIn) → Unique ms → Unique (select p ms)
Unique-select p [] u = tt
Unique-select p (m ∷ ms) u =
    if_lem Unique (p m) _ _ (has_id-select m.id p ms u.0, Unique-select p ms u.1)
      (Unique-select p ms u.1)

-- The rows are in the table.
abbrev Within : List MessageIn → List MessageIn → Type 0
Within ms rs = All (λ r. Memᴰ r ms) rs

Within-tail : (m : MessageIn) (ms rs : List MessageIn) → Within ms rs → Within (m ∷ ms) rs
Within-tail m ms [] h = tt
Within-tail m ms (r ∷ rs) h = (Memᴰ.tail h.0, Within-tail m ms rs h.1)

Within-select : (p : MessageIn → Bool) (ms : List MessageIn) → Within ms (select p ms)
Within-select p [] = tt
Within-select p (m ∷ ms) =
    if_lem (Within (m ∷ ms)) (p m) _ _
      (Memᴰ.head refl, Within-tail m ms (select p ms) (Within-select p ms))
      (Within-tail m ms (select p ms) (Within-select p ms))

-- What a round over `m` keeps: distinct ids, and every other row.
record Keeps (db : InboundDb) (m : MessageIn) (after : InboundDb) : Type 0 where
  distinct : Unique after.messages_in
  others :
      (r : MessageIn) → Memᴰ r db.messages_in → (r.id == m.id) ≡ false → Memᴰ r after.messages_in

Within-others :
    (db after : InboundDb) (m : MessageIn) (rs : List MessageIn)
    → Keeps db m after
    → has_id m.id rs ≡ false
    → Within db.messages_in rs
    → Within after.messages_in rs
Within-others db after m [] k n h = tt
Within-others db after m (r ∷ rs) k n h =
    (k.others r h.0 (ground arith), Within-others db after m rs k (ground arith) h.1)

module _ (next_run : String → ℕ → Option ℕ) (new_id : String → ℕ → String) where
  inserted-Keeps :
      (now : ℕ) (db : InboundDb) (m : MessageIn) (id : String) (next_at : ℕ) (o : Option InboundDb)
      → insert_recurrence now db m id next_at ≡ o
      → Unique db.messages_in
      → Keeps db m (inserted_or next_run new_id db o m.id)
  unfolding insert_recurrence insert_row clear_recurrence
  inserted-Keeps now db m id next_at none h u = record { distinct = u; others = λ r there n. there }
  inserted-Keeps now db m id next_at (some db') h u = elim (Bool-cases (has_id id db.messages_in)) [
    | inl taken ↦ absurd (ground arith)
    | inr new ↦
        let clone : MessageIn = recurrence_row now (next_even_seq db) m id next_at in
        let after : db' ≡ record db { messages_in = db.messages_in ++ clone ∷ [] } = ground arith in
        subst (λ (q : InboundDb). Keeps db m (clear_recurrence q m.id)) (sym after)
          (record {
            distinct =
                Unique-clear_of m.id (db.messages_in ++ clone ∷ [])
                  (Unique-append db.messages_in clone u new);
            others = λ r there n.
                Memᴰ-clear_of m.id r (db.messages_in ++ clone ∷ []) n
                  (Memᴰ-append_left r clone db.messages_in there);
          })
  ]

  recur_one-Keeps :
      (now n : ℕ) (db : InboundDb) (m : MessageIn)
      → Unique db.messages_in
      → Keeps db m (recur_one next_run new_id now n db m)
  unfolding recur_one
  recur_one-Keeps now n db m u = by_next (next_of next_run new_id now m)
    where
      by_next : (o : Option ℕ) → Keeps db m (recurred next_run new_id now n db m o)
      by_next none = record { distinct = u; others = λ r there n. there }
      by_next (some t) =
          inserted-Keeps now db m (new_id (id_prefix next_run new_id m) n) t
            (insert_recurrence now db m (new_id (id_prefix next_run new_id m) n) t) refl u

  recur_all-heads :
      (series : String) (now n : ℕ) (db : InboundDb) (rs : List MessageIn)
      → Unique db.messages_in
      → Unique rs
      → Within db.messages_in rs
      → heads series (recur_all next_run new_id now n db rs).messages_in
        ≡ heads series db.messages_in
  unfolding recur_all
  recur_all-heads series now n db [] u ur h = refl
  recur_all-heads series now n db (m ∷ rs) u ur h =
      let k = recur_one-Keeps now n db m u in
      recur_all-heads series now (n + 1) (recur_one next_run new_id now n db m) rs k.distinct ur.1
        (Within-others db (recur_one next_run new_id now n db m) m rs k ur.0 h.1)
      ∙ recur_one-heads next_run new_id series now n db m u h.0

  -- The loop over the completed rows leaves each series as many rows that carry it on as before, whether
  -- the next runs can be computed and their rows inserted or not, in a table whose ids are distinct: no
  -- series dies of it, and none forks.
  pub handle_recurrence-heads :
      (series : String) (now : ℕ) (db : InboundDb)
      → Unique db.messages_in
      → heads series (handle_recurrence next_run new_id now db).messages_in
        ≡ heads series db.messages_in
  unfolding handle_recurrence get_completed_recurring
  handle_recurrence-heads series now db u =
      recur_all-heads series now 0 db (get_completed_recurring db) u
        (Unique-select _ db.messages_in u) (Within-select _ db.messages_in)
