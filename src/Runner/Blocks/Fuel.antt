-- ===== src/Runner/Blocks/Fuel.antt =====
-- The fuel of `scan` in Runner/Blocks: a match leaves a shorter text, so that any fuel beyond
-- the length gives the same pieces.
use Prim.Native.Char.{code}
use pocketclaw_telegram.Runner.Blocks.{
  match_block, strip_prefix, until_quote, until_tag, open_tag, then_text, named, Block, skip_spaces,
  skip_some_spaces, text_length, scan, Piece, message, scratch,
}
use pocketclaw_telegram.Prelude.{
  ℕ, String, Option, arith, ◌≤◌, some, none, Bool, suc, if◌then◌else◌, eqb, true, false, ◌<◌, ◌≡◌,
  List, ◌∷◌, zero, refl,
}

-- What is found has at most this size.
abbrev pub Within {ℓ} : {A : Type ℓ} → (A → ℕ) → ℕ → Option A → Type 0
Within size n none = Unit
Within size n (some a) = size a ≤ n

Within-then_text {ℓ κ} :
    {A : Type ℓ} {B : Type κ} (size : A → ℕ) (size' : B → ℕ) (n m : ℕ) (o : Option A)
    (f : A → Option B)
    → Within size n o
    → ((a : A) → size a ≤ n → Within size' m (f a))
    → Within size' m (then_text o f)
Within-then_text size size' n m none f h then_f = tt
Within-then_text size size' n m (some a) f h then_f = then_f a h

Within-mono {ℓ} :
    {A : Type ℓ} (size : A → ℕ) (n m : ℕ) (o : Option A) → n ≤ m → Within size n o → Within size m o
Within-mono size n m none le h = tt
Within-mono size n m (some a) le h = omega arith

abbrev pub behind : String × String → ℕ
behind x = text_length x.1

strip_prefix-Within : (p s : String) → Within text_length (text_length s) (strip_prefix p s)
strip_prefix-Within String.[] s = omega arith
strip_prefix-Within (String.◌∷◌ c p) String.[] = tt
strip_prefix-Within (String.◌∷◌ c p) (String.◌∷◌ d s) =
    by_head (eqb (code c) (code d)) (strip_prefix p s) (strip_prefix-Within p s)
  where
    by_head :
        (b : Bool) (o : Option String)
        → Within text_length (text_length s) o
        → Within text_length (suc (text_length s)) (if b then o else none)
    by_head true o h =
        Within-mono text_length (text_length s) (suc (text_length s)) o (omega arith) h
    by_head false o h = tt

skip_spaces-shorter : (s : String) → text_length (skip_spaces s) ≤ text_length s
skip_spaces-shorter String.[] = omega arith
skip_spaces-shorter (String.◌∷◌ c s) = let rest = skip_spaces-shorter s in ground arith

skip_some_spaces-Within :
    (n : ℕ) (s : String) → text_length s ≤ suc n → Within text_length n (skip_some_spaces s)
skip_some_spaces-Within n String.[] le = tt
skip_some_spaces-Within n (String.◌∷◌ c s) le = let rest = skip_spaces-shorter s in ground arith

until_quote-Within : (s : String) → Within behind (text_length s) (until_quote s)
until_quote-Within String.[] = tt
until_quote-Within (String.◌∷◌ c s) = let rest = until_quote-Within s in ground arith

until_tag-Within : (tag s : String) → Within behind (text_length s) (until_tag tag s)
until_tag-Within tag String.[] = tt
until_tag-Within tag (String.◌∷◌ c s) =
    let rest = until_tag-Within tag s in
    let head = strip_prefix-Within tag (String.◌∷◌ c s) in ground arith

named-Within : (n : ℕ) (x : String × String) → behind x ≤ n → Within behind n (named x)
named-Within n (name, s) le =
    let after =
      Within-mono text_length (text_length (skip_spaces s)) n (strip_prefix ">" (skip_spaces s))
        (let spaces = skip_spaces-shorter s in omega arith)
        (strip_prefix-Within ">" (skip_spaces s)) in
    ground arith

open_tag-Within : (n : ℕ) (s : String) → text_length s ≤ suc n → Within behind n (open_tag s)
unfolding open_tag
open_tag-Within n s le =
    Within-then_text text_length behind (suc n) n (strip_prefix "<message" s) _
      (Within-mono text_length (text_length s) (suc n) (strip_prefix "<message" s) le
        (strip_prefix-Within "<message" s))
      (λ a le_a.
        Within-then_text text_length behind n n (skip_some_spaces a) _
          (skip_some_spaces-Within n a le_a)
          (λ b le_b.
            Within-then_text text_length behind n n (strip_prefix "to=\"" b) _
              (Within-mono text_length (text_length b) n (strip_prefix "to=\"" b) le_b
                (strip_prefix-Within "to=\"" b))
              (λ c le_c.
                Within-then_text behind behind n n (until_quote c) named
                  (Within-mono behind (text_length c) n (until_quote c) le_c (until_quote-Within c))
                  (named-Within n))))

abbrev pub rest_length : Block → ℕ
rest_length b = text_length b.rest

pub match_block-Within :
    (n : ℕ) (s : String) → text_length s ≤ suc n → Within rest_length n (match_block s)
unfolding match_block
match_block-Within n s le =
    Within-then_text behind rest_length n n (open_tag s) _ (open_tag-Within n s le)
      (λ (name, r) le_r.
        Within-then_text behind rest_length n n (until_tag "</message>" r) _
          (Within-mono behind (text_length r) n (until_tag "</message>" r) le_r
            (until_tag-Within "</message>" r))
          (λ x le_x. le_x))

pub scan-fuel : (f g : ℕ) (s : String) → text_length s < f → text_length s < g → scan f s ≡ scan g s
unfolding scan
scan-fuel zero g s lf lg = let bad : ⊥ = omega arith in elim bad [ ]
scan-fuel (suc f) zero s lf lg = let bad : ⊥ = omega arith in elim bad [ ]
scan-fuel (suc f) (suc g) String.[] lf lg = refl
scan-fuel (suc f) (suc g) (String.◌∷◌ c s) lf lg =
    by_match (match_block (String.◌∷◌ c s))
      (match_block-Within (text_length s) (String.◌∷◌ c s) (omega arith))
      (λ t le. scan-fuel f g t (omega arith) (omega arith))
  where
    by_match :
        (o : Option Block)
        → Within rest_length (text_length s) o
        → ((t : String) → text_length t ≤ text_length s → scan f t ≡ scan g t)
        → (elim o as (λ k. List Piece) [
          | some b ↦ message b.to b.body ∷ scan f b.rest
          | none ↦ scratch c ∷ scan f s
        ])
          ≡ elim o as (λ k. List Piece) [
            | some b ↦ message b.to b.body ∷ scan g b.rest
            | none ↦ scratch c ∷ scan g s
          ]
    by_match none le same = rw (same s (omega arith)) refl
    by_match (some b) le same = rw (same b.rest le) refl
