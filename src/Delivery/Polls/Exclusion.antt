-- ===== src/Delivery/Polls/Exclusion.antt =====
-- How many drains of a session are under way: the guard of src/delivery.ts.
use pocketclaw_telegram.Prelude.{
  if◌then◌else◌, [], ◌∷◌, Bool, String, ℕ, List, ◌≡◌, true, ◌==◌, Bool-cases, select, any, false,
  ◌+◌, not, ◌≤◌, inl, ◌∙◌, arith, ap, inr, eq_iff, refl, subst, sym, ◌||◌, eq_refl,
}
use pocketclaw_telegram.Delivery.Polls.{
  Polls, begin_drain, is_inflight, is_drain, end_drain, Step, Reachable, begins, step, ends, start,
}
use mathlib.Core.List.{Memᴰ}

abbrev pub one_if : Bool → ℕ
one_if true = 1
one_if false = 0

-- The drains of a session under way.
abbrev pub drains_of : String → List (ℕ × String) → ℕ
drains_of id [] = 0
drains_of id ((k, s) ∷ ds) = one_if (s == id) + drains_of id ds

abbrev own : ℕ → String → List (ℕ × String) → ℕ
own chain id [] = 0
own chain id ((k, s) ∷ ds) = one_if (is_drain chain id (k, s)) + own chain id ds

-- A session has one drain while it is in flight, and none otherwise.
abbrev pub IsGuarded : Polls → Type 0
IsGuarded p = (id : String) → drains_of id p.drains ≡ one_if (is_inflight id p)

begin_drain-IsGuarded :
    (chain : ℕ) (id : String) (p : Polls) → IsGuarded p → IsGuarded (begin_drain chain id p)
unfolding begin_drain
begin_drain-IsGuarded chain id p g = begun (is_inflight id p) refl
  where
    begun :
        (b : Bool)
        → is_inflight id p ≡ b
        → IsGuarded (
            if b then p else record { inflight = id ∷ p.inflight; drains = (chain, id) ∷ p.drains })
    begun true e = g
    begun false e = λ other. elim (Bool-cases (id == other)) [
      | inl same ↦
          let here : drains_of id p.drains ≡ 0 = g id ∙ ap one_if e in
          let named : id ≡ other = (eq_iff id other).0 same in
          let none_yet : drains_of other p.drains ≡ 0 =
            subst (λ x. drains_of x p.drains ≡ 0) named here in
          ap (λ b. one_if b + drains_of other p.drains) same
          ∙ (omega (arith, none_yet) ∙ sym (ap (λ b. one_if (b || is_inflight other p)) same))
      | inr differs ↦
          ap (λ b. one_if b + drains_of other p.drains) differs
          ∙ (omega arith ∙ (g other ∙ sym (ap (λ b. one_if (b || is_inflight other p)) differs)))
    ]

kept_count :
    (other : String) (b : Bool) (k : ℕ) (s : String) (ds : List (ℕ × String))
    → drains_of other (if b then (k, s) ∷ ds else ds)
      ≡ (if b then one_if (s == other) else 0) + drains_of other ds
kept_count other true k s ds = refl
kept_count other false k s ds = omega arith

-- Ending a drain of one session leaves the drains of another.
others_stay :
    (chain : ℕ) (id other : String) (ds : List (ℕ × String))
    → (id == other) ≡ false
    → drains_of other (select (λ d. not (is_drain chain id d)) ds) ≡ drains_of other ds
others_stay chain id other [] n = refl
others_stay chain id other ((k, s) ∷ ds) n =
    kept_count other (not (is_drain chain id (k, s))) k s
      (select (λ d. not (is_drain chain id d)) ds)
    ∙ ground (arith, others_stay chain id other ds n, eq_iff s id, eq_iff s other, eq_iff id other)

-- The drains of a session that an end leaves, and those that it takes, are all of them.
one_fewer :
    (chain : ℕ) (id : String) (ds : List (ℕ × String))
    → drains_of id (select (λ d. not (is_drain chain id d)) ds) + own chain id ds ≡ drains_of id ds
one_fewer chain id [] = refl
one_fewer chain id ((k, s) ∷ ds) =
    let kept =
      kept_count id (not (is_drain chain id (k, s))) k s
        (select (λ d. not (is_drain chain id d)) ds) in
    ap (λ n. n + own chain id ((k, s) ∷ ds)) kept ∙ ground (arith, one_fewer chain id ds)

own_there :
    (chain : ℕ) (id : String) (ds : List (ℕ × String)) → Memᴰ (chain, id) ds → 1 ≤ own chain id ds
own_there chain id [] m = elim m [ ]
own_there chain id ((k, s) ∷ ds) (Memᴰ.head e) =
    let mine : one_if (is_drain chain id (k, s)) ≡ 1 =
      ap (λ d. one_if (is_drain chain id d)) (sym e) ∙ ground (arith, eq_refl id) in
    omega (arith, mine)
own_there chain id ((k, s) ∷ ds) (Memᴰ.tail m) = omega (arith, own_there chain id ds m)

inflight_removed :
    (id other : String) (ss : List String)
    → any (λ s. s == other) (select (λ s. not (s == id)) ss)
      ≡ (if id == other then false else any (λ s. s == other) ss)
inflight_removed id other [] = elim (Bool-cases (id == other)) [
  | inl e ↦ rw e refl
  | inr e ↦ rw e refl
]
inflight_removed id other (s ∷ ss) = elim (Bool-cases (s == id)) [
  | inl e ↦
      ap
        (λ b.
          any (λ s. s == other)
            (if not b then s ∷ select (λ s. not (s == id)) ss else select (λ s. not (s == id)) ss))
        e
      ∙ ground (arith, inflight_removed id other ss, eq_iff s id, eq_iff s other, eq_iff id other)
  | inr e ↦
      ap
        (λ b.
          any (λ s. s == other)
            (if not b then s ∷ select (λ s. not (s == id)) ss else select (λ s. not (s == id)) ss))
        e
      ∙ ground (arith, inflight_removed id other ss, eq_iff s id, eq_iff s other, eq_iff id other)
]

one_if_bound : (b : Bool) → one_if b ≤ 1
one_if_bound true = omega arith
one_if_bound false = omega arith

end_drain-IsGuarded :
    (chain : ℕ) (id : String) (p : Polls)
    → Memᴰ (chain, id) p.drains
    → IsGuarded p
    → IsGuarded (end_drain chain id p)
unfolding end_drain
end_drain-IsGuarded chain id p m g = λ other. elim (Bool-cases (id == other)) [
  | inl same ↦
      let named : id ≡ other = (eq_iff id other).0 same in
      let gone : drains_of id (select (λ d. not (is_drain chain id d)) p.drains) ≡ 0 = omega (
        arith,
        one_fewer chain id p.drains,
        own_there chain id p.drains m,
        g id,
        one_if_bound (is_inflight id p),
      ) in
      subst (λ x. drains_of x (select (λ d. not (is_drain chain id d)) p.drains) ≡ 0) named gone
      ∙ sym (
          ap one_if (
            inflight_removed id other p.inflight
            ∙ ap (λ b. if b then false else is_inflight other p) same))
  | inr differs ↦
      others_stay chain id other p.drains differs
      ∙ (g other
          ∙ sym (
              ap one_if (
                inflight_removed id other p.inflight
                ∙ ap (λ b. if b then false else is_inflight other p) differs)))
]

Step-IsGuarded : {p q : Polls} → Step p q → IsGuarded p → IsGuarded q
Step-IsGuarded (begins chain id p) g = begin_drain-IsGuarded chain id p g
Step-IsGuarded (ends chain id p m) g = end_drain-IsGuarded chain id p m g

-- However the calls of the polls for sessions and the ends of their drains follow one another, a session
-- has exactly one drain under way while it is in flight, and none otherwise.
pub Reachable-IsGuarded : (p : Polls) → Reachable p → IsGuarded p
Reachable-IsGuarded p start id = refl
Reachable-IsGuarded p (step r s) id = Step-IsGuarded s (Reachable-IsGuarded _ r) id
