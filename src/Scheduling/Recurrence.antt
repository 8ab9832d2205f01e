-- ===== src/Scheduling/Recurrence.antt =====
-- What one round of `handleRecurrence` of src/modules/scheduling/recurrence.ts does to the series of the
-- table.
use pocketclaw_telegram.Prelude.{
  Bool, String, ℕ, ◌==◌, List, none, ◌≡◌, ◌&&◌, ◌∷◌, ◌++◌, false, true, is_some, ◌+◌, [], update,
  arith, ap, if◌then◌else◌, ◌∙◌, refl, Bool-cases, subst, Option, sym, inl, Memᴰ→any, eq_refl,
  eq_iff, inr, some,
}
use pocketclaw_telegram.SessionDb.{MessageIn, has_id, insert_row, InboundDb, next_even_seq}
use pocketclaw_telegram.HostSweep.Claimed.{Unique}
use mathlib.Core.List.{Memᴰ}
use pocketclaw_telegram.Scheduling.{
  insert_recurrence, recur_one, clear_recurrence, inserted_or, recurrence_row, recurred, id_prefix,
  next_of,
}
use mathlib.Core.Bool.{false≢true}

abbrev pub one_if : Bool → ℕ
one_if true = 1
one_if false = 0

-- The row will run again, or has run and waits for its next occurrence to be inserted.
abbrev pub carries : String → MessageIn → Bool
carries series m = m.series_id == series && is_some m.recurrence

-- The rows that carry a series on.
abbrev pub heads : String → List MessageIn → ℕ
heads series [] = 0
heads series (m ∷ ms) = one_if (carries series m) + heads series ms

heads-append :
    (series : String) (ms : List MessageIn) (row : MessageIn)
    → heads series (ms ++ row ∷ []) ≡ heads series ms + one_if (carries series row)
heads-append series [] row = omega arith
heads-append series (m ∷ ms) row = omega (arith, heads-append series ms row)

abbrev cleared : MessageIn → MessageIn
cleared m = record m { recurrence = none }

update-append :
    (id : String) (ms : List MessageIn) (row : MessageIn)
    → (row.id == id) ≡ false
    → update (λ m. m.id == id) cleared (ms ++ row ∷ [])
      ≡ update (λ m. m.id == id) cleared ms ++ row ∷ []
update-append id [] row n = ap (λ b. (if b then cleared row else row) ∷ []) n
update-append id (m ∷ ms) row n =
    ap (λ l. (if m.id == id then cleared m else m) ∷ l) (update-append id ms row n)

heads_absent :
    (series id : String) (ms : List MessageIn)
    → has_id id ms ≡ false
    → heads series (update (λ m. m.id == id) cleared ms) ≡ heads series ms
heads_absent series id [] h = refl
heads_absent series id (m ∷ ms) h =
    let other : (m.id == id) ≡ false = ground arith in
    ap
      (λ b.
        one_if (carries series (if b then cleared m else m))
        + heads series (update (λ m. m.id == id) cleared ms))
      other
    ∙ ap (λ n. one_if (carries series m) + n) (heads_absent series id ms (ground arith))

cleared-carries : (series : String) (m : MessageIn) → carries series (cleared m) ≡ false
cleared-carries series m = ground arith

-- The heads, with the update of one row decided by a Boolean.
abbrev updated_heads : String → String → MessageIn → List MessageIn → Bool → ℕ
updated_heads series id x ms b =
    one_if (carries series (if b then cleared x else x))
    + heads series (update (λ m. m.id == id) cleared ms)

distinct_id :
    (x r : MessageIn) (ms : List MessageIn)
    → has_id x.id ms ≡ false
    → Memᴰ r ms
    → (x.id == r.id) ≡ false
distinct_id x r ms absent m = elim (Bool-cases (x.id == r.id)) [
  | inl same ↦
      let found : has_id x.id ms ≡ true =
        Memᴰ→any (λ n. n.id == x.id) m (ground (arith, eq_iff x.id r.id, eq_iff r.id x.id)) in
      absurd (false≢true (sym absent ∙ found))
  | inr differs ↦ differs
]

heads-update :
    (series : String) (r : MessageIn) (ms : List MessageIn)
    → Unique ms
    → Memᴰ r ms
    → heads series (update (λ m. m.id == r.id) cleared ms) + one_if (carries series r)
      ≡ heads series ms
heads-update series r [] u m = elim m [ ]
heads-update series r (x ∷ ms) u (Memᴰ.head e) =
    subst
      (λ (q : MessageIn).
        heads series (update (λ m. m.id == q.id) cleared (x ∷ ms)) + one_if (carries series q)
        ≡ heads series (x ∷ ms))
      (sym e)
      (ap (λ b. updated_heads series x.id x ms b + one_if (carries series x)) (eq_refl x.id)
        ∙ (ap
              (λ b.
                one_if b
                + heads series (update (λ m. m.id == x.id) cleared ms)
                + one_if (carries series x))
              (cleared-carries series x)
            ∙ omega (arith, heads_absent series x.id ms u.0)))
heads-update series r (x ∷ ms) u (Memᴰ.tail m) =
    ap (λ b. updated_heads series r.id x ms b + one_if (carries series r))
      (distinct_id x r ms u.0 m)
    ∙ omega (arith, heads-update series r ms u.1 m)

module _ (next_run : String → ℕ → Option ℕ) (new_id : String → ℕ → String) where
  inserted-heads :
      (series : String) (now n : ℕ) (db : InboundDb) (m : MessageIn) (id : String) (next_at : ℕ)
      (o : Option InboundDb)
      → insert_recurrence now db m id next_at ≡ o
      → Unique db.messages_in
      → Memᴰ m db.messages_in
      → heads series (inserted_or next_run new_id db o m.id).messages_in
        ≡ heads series db.messages_in
  unfolding insert_recurrence insert_row clear_recurrence
  inserted-heads series now n db m id next_at none h u there = refl
  inserted-heads series now n db m id next_at (some db') h u there =
      elim (Bool-cases (has_id id db.messages_in)) [
        | inl taken ↦ absurd (ground arith)
        | inr new ↦
            let clone : MessageIn = recurrence_row now (next_even_seq db) m id next_at in
            let after : db' ≡ record db { messages_in = db.messages_in ++ clone ∷ [] } =
              ground arith in
            ap (λ (q : InboundDb). heads series (update (λ r. r.id == m.id) cleared q.messages_in))
              after
            ∙ (ap (heads series) (
                  update-append m.id db.messages_in clone
                    (distinct_id clone m db.messages_in new there))
                ∙ (heads-append series (update (λ r. r.id == m.id) cleared db.messages_in) clone
                    ∙ heads-update series m db.messages_in u there))
      ]

  -- A round over a completed row leaves each series as many rows that carry it on as before, whether the
  -- next run can be computed and its row inserted or not: no series dies of it, and none forks; for a row
  -- of a table whose ids are distinct.
  pub recur_one-heads :
      (series : String) (now n : ℕ) (db : InboundDb) (m : MessageIn)
      → Unique db.messages_in
      → Memᴰ m db.messages_in
      → heads series (recur_one next_run new_id now n db m).messages_in
        ≡ heads series db.messages_in
  unfolding recur_one
  recur_one-heads series now n db m u there = by_next (next_of next_run new_id now m)
    where
      by_next :
          (o : Option ℕ)
          → heads series (recurred next_run new_id now n db m o).messages_in
            ≡ heads series db.messages_in
      by_next none = refl
      by_next (some t) =
          inserted-heads series now n db m (new_id (id_prefix next_run new_id m) n) t
            (insert_recurrence now db m (new_id (id_prefix next_run new_id m) n) t) refl u there
