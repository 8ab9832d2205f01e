-- ===== src/Runner/Pending.antt =====
-- Which messages `getPendingMessages` of container/agent-runner/src/db/messages-in.ts hands out.
use pocketclaw_telegram.Prelude.{
  List, ℕ, Bool, ◌∷◌, All, select, length, ◌≤◌, Bool-cases, [], suc, leb, All-imp, arith, ◌≡◌, inl,
  zero, All-select, All-members, ◌+◌, true, not, inr, false, ◌||◌, All-reverse, ◌⊎◌,
  All-select_test, refl,
}
use pocketclaw_telegram.SessionDb.{MessageIn, InboundDb, OutboundDb, is_pending, is_due}
use pocketclaw_telegram.Runner.{
  insert_newest, newest_first, take, is_waiting, get_pending_messages, has_ack,
}
use mathlib.Core.List.{reverse, reverse_aux, Memᴰ}

-- Each row's number is at least that of every later row; and at most.
abbrev pub Falling : List MessageIn → Type 0
Falling [] = Unit
Falling (m ∷ ms) = All (λ x. x.seq ≤ m.seq) ms × Falling ms

abbrev pub Climbing : List MessageIn → Type 0
Climbing [] = Unit
Climbing (m ∷ ms) = All (λ x. m.seq ≤ x.seq) ms × Climbing ms

module _ {κ} (P : MessageIn → Type κ) where
  All-insert_newest :
      (m : MessageIn) (ms : List MessageIn) → P m → All P ms → All P (insert_newest m ms)
  All-insert_newest m [] p h = (p, tt)
  All-insert_newest m (x ∷ xs) p h = elim (Bool-cases (leb x.seq m.seq)) [
    | inl e ↦ rw e (p, h)
    | inr e ↦ rw e (h.0, All-insert_newest m xs p h.1)
  ]

  All-newest_first : (ms : List MessageIn) → All P ms → All P (newest_first ms)
  All-newest_first [] h = tt
  All-newest_first (m ∷ ms) h = All-insert_newest m (newest_first ms) h.0 (All-newest_first ms h.1)

  All-take : (n : ℕ) (ms : List MessageIn) → All P ms → All P (take n ms)
  All-take zero ms h = tt
  All-take (suc n) [] h = tt
  All-take (suc n) (m ∷ ms) h = (h.0, All-take n ms h.1)

insert_newest-Falling :
    (m : MessageIn) (ms : List MessageIn) → Falling ms → Falling (insert_newest m ms)
insert_newest-Falling m [] f = (tt, tt)
insert_newest-Falling m (x ∷ xs) f = elim (Bool-cases (leb x.seq m.seq)) [
  | inl e ↦
      let below : x.seq ≤ m.seq = ground arith in
      rw e
        ((below, All-imp (λ y. y.seq ≤ x.seq) (λ y. y.seq ≤ m.seq) xs (λ y h. omega arith) f.0), f)
  | inr e ↦
      let below : m.seq ≤ x.seq = ground arith in
      rw e (All-insert_newest (λ y. y.seq ≤ x.seq) m xs below f.0, insert_newest-Falling m xs f.1)
]

newest_first-Falling : (ms : List MessageIn) → Falling (newest_first ms)
newest_first-Falling [] = tt
newest_first-Falling (m ∷ ms) = insert_newest-Falling m (newest_first ms) (newest_first-Falling ms)

take-Falling : (n : ℕ) (ms : List MessageIn) → Falling ms → Falling (take n ms)
take-Falling zero ms f = tt
take-Falling (suc n) [] f = tt
take-Falling (suc n) (m ∷ ms) f = (All-take (λ x. x.seq ≤ m.seq) n ms f.0, take-Falling n ms f.1)

select-Falling : (p : MessageIn → Bool) (ms : List MessageIn) → Falling ms → Falling (select p ms)
select-Falling p [] f = tt
select-Falling p (m ∷ ms) f = elim (Bool-cases (p m)) [
  | inl e ↦ rw e (All-select (λ x. x.seq ≤ m.seq) p ms f.0, select-Falling p ms f.1)
  | inr e ↦ rw e (select-Falling p ms f.1)
]

reverse_aux-Climbing :
    (ms acc : List MessageIn)
    → Falling ms
    → Climbing acc
    → All (λ m. All (λ x. m.seq ≤ x.seq) acc) ms
    → Climbing (reverse_aux ms acc)
reverse_aux-Climbing [] acc f c below = c
reverse_aux-Climbing (m ∷ ms) acc f c below =
    reverse_aux-Climbing ms (m ∷ acc) f.1 (below.0, c) (both ms f.0 below.1)
  where
    both :
        (xs : List MessageIn)
        → All (λ x. x.seq ≤ m.seq) xs
        → All (λ y. All (λ x. y.seq ≤ x.seq) acc) xs
        → All (λ y. All (λ x. y.seq ≤ x.seq) (m ∷ acc)) xs
    both [] h k = tt
    both (x ∷ xs) h k = ((h.0, k.0), both xs h.1 k.1)

reverse-Climbing : (ms : List MessageIn) → Falling ms → Climbing (reverse ms)
reverse-Climbing ms f =
    reverse_aux-Climbing ms [] f tt
      (All-imp (λ m. Memᴰ m ms) (λ m. Unit) ms (λ m h. tt) (All-members ms))

length-take : {A : Type 0} (n : ℕ) (xs : List A) → length (take n xs) ≤ n
length-take zero xs = omega arith
length-take (suc n) [] = omega arith
length-take (suc n) (x ∷ xs) = omega (arith, length-take n xs)

length-select : {A : Type 0} (p : A → Bool) (xs : List A) → length (select p xs) ≤ length xs
length-select p [] = omega arith
length-select p (x ∷ xs) = ground (arith, length-select p xs)

length-reverse_aux :
    {A : Type 0} (xs ys : List A) → length (reverse_aux xs ys) ≡ length xs + length ys
length-reverse_aux [] ys = omega arith
length-reverse_aux (x ∷ xs) ys = omega (arith, length-reverse_aux xs (x ∷ ys))

module _ (now limit : ℕ) (first : Bool) (in_db : InboundDb) (out_db : OutboundDb) where
  -- A row of the inbound table that waits, is due, is not kept for the first poll unless this is the
  -- first, and that no container has picked up.
  abbrev pub Fresh : MessageIn → Type 0
  Fresh m =
      Memᴰ m in_db.messages_in
      × (is_pending m.status ≡ true)
      × (is_due now m.process_after ≡ true)
      × ((m.on_wake ≡ false) ⊎ (first ≡ true))
      × (has_ack m.id out_db.processing_ack ≡ false)

  waiting_lem :
      (m : MessageIn)
      → ((Memᴰ m in_db.messages_in × (is_waiting now first m ≡ true))
          × (not (has_ack m.id out_db.processing_ack) ≡ true))
      → Fresh m
  waiting_lem m ((member, w), a) =
      (member, ground arith, ground arith, by_wake m.on_wake first (ground arith), ground arith)
    where
      by_wake : (wake f : Bool) → (not wake || f) ≡ true → (wake ≡ false) ⊎ (f ≡ true)
      by_wake false f h = inl refl
      by_wake true f h = inr h

  -- The messages of a prompt are waiting rows that no container has picked up, oldest first, and no
  -- more than the limit.
  pub get_pending_messages_lem :
      All Fresh (get_pending_messages now limit first in_db out_db)
      × Climbing (get_pending_messages now limit first in_db out_db)
      × (length (get_pending_messages now limit first in_db out_db) ≤ limit)
  unfolding get_pending_messages
  get_pending_messages_lem =
      let unacked : MessageIn → Bool = λ m. not (has_ack m.id out_db.processing_ack) in
      let rows = select (is_waiting now first) in_db.messages_in in
      let kept = select unacked (take limit (newest_first rows)) in
      (
        All-reverse Fresh kept (
            All-imp _ Fresh kept waiting_lem (
              All-select_test (λ m. Memᴰ m in_db.messages_in × (is_waiting now first m ≡ true))
                unacked (take limit (newest_first rows))
                (All-take _ limit (newest_first rows) (
                  All-newest_first _ rows (
                    All-select_test (λ m. Memᴰ m in_db.messages_in) (is_waiting now first)
                      in_db.messages_in (All-members in_db.messages_in)))))),
        reverse-Climbing kept (
            select-Falling unacked (take limit (newest_first rows))
              (take-Falling limit (newest_first rows) (newest_first-Falling rows))),
        omega (
          arith,
          length-reverse_aux kept [],
          length-select unacked (take limit (newest_first rows)),
          length-take limit (newest_first rows),
        ),
      )
