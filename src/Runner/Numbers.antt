-- ===== src/Runner/Numbers.antt =====
-- Sequence numbers of the container's rows, and what a number names in
-- container/agent-runner/src/db/messages-out.ts.
use pocketclaw_telegram.Prelude.{
  ℕ, List, ◌∷◌, ◌<◌, ◌%◌, ◌≡◌, subst, find, All, ◌++◌, some, eqb, sym, [], arith, max, none,
  Bool-cases, false, All-imp, refl, any, All-members, ◌==◌, inl, inr,
}
use pocketclaw_telegram.World.Outbound.{max_seq_out}
use pocketclaw_telegram.Runner.{
  next_odd_seq, write_message_out, get_message_id_by_seq, WriteMessageOut, out_row_of, delivered_id,
  next_odd,
}
use pocketclaw_telegram.SessionDb.{InboundDb, MessageOut, OutboundDb, MessageIn, max_seq}
use pocketclaw_telegram.SessionDb.Sequence.{Rising}
use mathlib.Core.List.{Memᴰ}

-- The container writes odd numbers, and no two of its rows share one: the list rises.
abbrev pub OddRising : ℕ → List MessageOut → Type 0
OddRising low [] = Unit {0}
OddRising low (m ∷ ms) = (low < m.seq) × (m.seq % 2 ≡ 1) × OddRising m.seq ms

OddRising-append :
    (low : ℕ) (ms : List MessageOut) (row : MessageOut)
    → OddRising low ms
    → low < row.seq
    → max_seq_out ms < row.seq
    → row.seq % 2 ≡ 1
    → OddRising low (ms ++ row ∷ [])
unfolding max_seq_out
OddRising-append low [] row r h k e = (h, e, tt)
OddRising-append low (m ∷ ms) row r h k e =
    (r.0, r.1, OddRising-append m.seq ms row r.2 (omega arith) (omega arith) e)

-- The next number is odd and above every number of both tables.
pub next_odd_seq_lem :
    (in_db : InboundDb) (out_db : OutboundDb)
    → (next_odd_seq in_db out_db % 2 ≡ 1)
      × (max_seq in_db.messages_in < next_odd_seq in_db out_db)
      × (max_seq_out out_db.messages_out < next_odd_seq in_db out_db)
unfolding next_odd_seq
next_odd_seq_lem in_db out_db =
    let top : ℕ = max (max_seq_out out_db.messages_out) (max_seq in_db.messages_in) in
    let odd : (next_odd top % 2 ≡ 1) × (top < next_odd top) = ground arith in
    (odd.0, omega arith, omega arith)

-- While the container's numbers are odd and rise from row to row, they do so after a write that is
-- accepted, and the number that is returned is odd and above every number of both tables.
pub write_message_out-OddRising :
    (now n : ℕ) (in_db : InboundDb) (out_db out_db' : OutboundDb) (m : WriteMessageOut)
    → OddRising 0 out_db.messages_out
    → write_message_out now in_db out_db m ≡ some (n, out_db')
    → OddRising 0 out_db'.messages_out
      × (n % 2 ≡ 1)
      × (max_seq in_db.messages_in < n)
      × (max_seq_out out_db.messages_out < n)
unfolding write_message_out
write_message_out-OddRising now n in_db out_db out_db' m r h =
    let l = next_odd_seq_lem in_db out_db in
    let row = out_row_of now (next_odd_seq in_db out_db) m in
    let grown = OddRising-append 0 out_db.messages_out row r (omega arith) l.2 l.0 in
    elim (Bool-cases (any (λ r. r.id == m.id) out_db.messages_out)) [
      | inl taken ↦ absurd (ground arith)
      | inr free ↦ ground arith
    ]

no_even :
    (low n : ℕ) (ms : List MessageIn)
    → Rising low ms
    → n % 2 ≡ 1
    → find (λ m. eqb m.seq n) ms ≡ none
no_even low n [] r h = refl
no_even low n (m ∷ ms) r h = ground (arith, no_even m.seq n ms r.2 h)

above_in : (low : ℕ) (ms : List MessageIn) {m : MessageIn} → Rising low ms → Memᴰ m ms → low < m.seq
above_in low [] r t = elim t [ ]
above_in low (x ∷ xs) {m} r (Memᴰ.head e) = subst (λ (y : MessageIn). low < y.seq) (sym e) r.0
above_in low (x ∷ xs) {m} r (Memᴰ.tail t) =
    let later = above_in x.seq xs {m = m} r.2 t in omega arith

above_out :
    (low : ℕ) (ms : List MessageOut) {m : MessageOut} → OddRising low ms → Memᴰ m ms → low < m.seq
above_out low [] r t = elim t [ ]
above_out low (x ∷ xs) {m} r (Memᴰ.head e) = subst (λ (y : MessageOut). low < y.seq) (sym e) r.0
above_out low (x ∷ xs) {m} r (Memᴰ.tail t) =
    let later = above_out x.seq xs {m = m} r.2 t in omega arith

find_in :
    (low : ℕ) (ms : List MessageIn) {m : MessageIn}
    → Rising low ms
    → Memᴰ m ms
    → find (λ x. eqb x.seq m.seq) ms ≡ some m
find_in low [] r t = elim t [ ]
find_in low (x ∷ xs) {m} r (Memᴰ.head e) =
    subst (λ (y : MessageIn). find (λ x. eqb x.seq y.seq) (x ∷ xs) ≡ some y) (sym e) (ground arith)
find_in low (x ∷ xs) {m} r (Memᴰ.tail t) =
    let later = above_in x.seq xs {m = m} r.2 t in
    let apart : eqb x.seq m.seq ≡ false = ground arith in rw apart (find_in x.seq xs r.2 t)

find_out :
    (low : ℕ) (ms : List MessageOut) {m : MessageOut}
    → OddRising low ms
    → Memᴰ m ms
    → find (λ x. eqb x.seq m.seq) ms ≡ some m
find_out low [] r t = elim t [ ]
find_out low (x ∷ xs) {m} r (Memᴰ.head e) =
    subst (λ (y : MessageOut). find (λ x. eqb x.seq y.seq) (x ∷ xs) ≡ some y) (sym e) (ground arith)
find_out low (x ∷ xs) {m} r (Memᴰ.tail t) =
    let later = above_out x.seq xs {m = m} r.2 t in
    let apart : eqb x.seq m.seq ≡ false = ground arith in rw apart (find_out x.seq xs r.2 t)

odd_of :
    (low : ℕ) (ms : List MessageOut) {m : MessageOut} → OddRising low ms → Memᴰ m ms → m.seq % 2 ≡ 1
odd_of low [] r t = elim t [ ]
odd_of low (x ∷ xs) {m} r (Memᴰ.head e) = subst (λ (y : MessageOut). y.seq % 2 ≡ 1) (sym e) r.1
odd_of low (x ∷ xs) {m} r (Memᴰ.tail t) = odd_of x.seq xs r.2 t

-- While the host's numbers are even and rise, and the container's are odd and rise, a number names
-- the one row that has it, of the two tables together: an inbound row by its id, an outbound row by
-- the platform's id where the host has recorded one, and else by its own.
pub get_message_id_by_seq_lem :
    (in_db : InboundDb) (out_db : OutboundDb)
    → Rising 0 in_db.messages_in
    → OddRising 0 out_db.messages_out
    → All (λ m. get_message_id_by_seq in_db out_db m.seq ≡ some m.id) in_db.messages_in
      × All
          (λ m. get_message_id_by_seq in_db out_db m.seq ≡ some (delivered_id in_db.delivered m.id))
          out_db.messages_out
unfolding get_message_id_by_seq
get_message_id_by_seq_lem in_db out_db even odd = (
  All-imp (λ m. Memᴰ m in_db.messages_in) _ in_db.messages_in
      (λ m member. rw (find_in 0 in_db.messages_in even member, get_message_id_by_seq) refl)
      (All-members in_db.messages_in),
  All-imp (λ m. Memᴰ m out_db.messages_out) _ out_db.messages_out
      (λ m member.
        rw
          (
            no_even 0 m.seq in_db.messages_in even (odd_of 0 out_db.messages_out odd member),
            find_out 0 out_db.messages_out odd member,
            get_message_id_by_seq,
          )
          refl)
      (All-members out_db.messages_out),
)
