-- ===== src/Runner/Blocks.antt =====
-- The `<message to="name">…</message>` blocks of `dispatchResultText` in
-- container/agent-runner/src/poll-loop.ts, and `stripInternalTags` of formatter.ts: the matches of
-- their regular expressions, found by scanning.
pub mod Fuel
pub mod Wrap
use Prim.Native.Char.{code, Char}
use Prim.Native.String
use pocketclaw_telegram.Prelude.{
  String, Option, ℕ, some, if◌then◌else◌, none, suc, List, eqb, ◌==◌, [], zero, ◌∷◌, ◌&&◌,
}
use pocketclaw_telegram.CommandGate.{is_space}

-- The rest of the text behind the prefix.
abbrev pub strip_prefix : String → String → Option String
strip_prefix String.[] s = some s
strip_prefix (String.◌∷◌ c p) String.[] = none
strip_prefix (String.◌∷◌ c p) (String.◌∷◌ d s) =
    if eqb (code c) (code d) then strip_prefix p s else none

-- `\s*`
abbrev pub skip_spaces : String → String
skip_spaces String.[] = String.[]
skip_spaces (String.◌∷◌ c s) = if is_space (code c) then skip_spaces s else String.◌∷◌ c s

-- `\s+`
abbrev pub skip_some_spaces : String → Option String
skip_some_spaces String.[] = none
skip_some_spaces (String.◌∷◌ c s) = if is_space (code c) then some (skip_spaces s) else none

-- `[^"]*"`: what stands before the quote and what stands after it.
abbrev pub until_quote : String → Option (String × String)
until_quote String.[] = none
until_quote (String.◌∷◌ c s) = elim (until_quote s) [
  | none ↦ if eqb (code c) b'"' then some (String.[], s) else none
  | some (before, after) ↦
      if eqb (code c) b'"' then some (String.[], s) else some (String.◌∷◌ c before, after)
]

-- `[\s\S]*?` up to the first closing tag, and what stands after it.
abbrev pub until_tag : String → String → Option (String × String)
until_tag tag String.[] = none
until_tag tag (String.◌∷◌ c s) = elim (strip_prefix tag (String.◌∷◌ c s)) [
  | some after ↦ some (String.[], after)
  | none ↦ elim (until_tag tag s) [
    | none ↦ none
    | some (before, after) ↦ some (String.◌∷◌ c before, after)
  ]
]

abbrev pub then_text {ℓ κ} : {A : Type ℓ} {B : Type κ} → Option A → (A → Option B) → Option B
then_text none f = none
then_text (some a) f = f a

abbrev pub named : String × String → Option (String × String)
named (name, s) =
    if name == "" then none else then_text (strip_prefix ">" (skip_spaces s)) (λ r. some (name, r))

-- `<message\s+to="([^"]+)"\s*>`: the name, and the text behind the tag.
unfoldable pub open_tag : String → Option (String × String)
open_tag s = then_text (strip_prefix "<message" s) (λ a.
    then_text (skip_some_spaces a)
      (λ b. then_text (strip_prefix "to=\"" b) (λ c. then_text (until_quote c) named)))

pub record Block : Type 0 where
  pub to : String
  pub body : String
  pub rest : String

-- The whole expression, at the head of the text.
unfoldable pub match_block : String → Option Block
unfolding open_tag
match_block s = then_text (open_tag s) (λ (name, r).
    then_text (until_tag "</message>" r)
      (λ (body, after). some (record { to = name; body = body; rest = after })))

pub data Piece : Type 0 where
  scratch : Char → Piece
  message : String → String → Piece

abbrev pub text_length : String → ℕ
text_length String.[] = 0
text_length (String.◌∷◌ c s) = suc (text_length s)

-- `while ((match = MESSAGE_RE.exec(text)) !== null)`, with fuel.
unfoldable pub scan : ℕ → String → List Piece
scan zero s = []
scan (suc f) String.[] = []
scan (suc f) (String.◌∷◌ c s) = elim (match_block (String.◌∷◌ c s)) [
  | some b ↦ message b.to b.body ∷ scan f b.rest
  | none ↦ scratch c ∷ scan f s
]

-- A match takes at least one character, so a text has no more pieces than characters.
unfoldable pub pieces : String → List Piece
unfolding scan
pieces s = scan (suc (text_length s)) s

-- `str.trim()`
abbrev pub trim_end : String → String
trim_end String.[] = String.[]
trim_end (String.◌∷◌ c s) =
    if is_space (code c) && trim_end s == "" then String.[] else String.◌∷◌ c (trim_end s)

unfoldable pub trim_text : String → String
trim_text s = trim_end (skip_spaces s)

abbrev pub internal_at : String → Option String
internal_at s =
    then_text (strip_prefix "<internal>" s)
      (λ r. then_text (until_tag "</internal>" r) (λ (body, after). some after))

-- `text.replace(/<internal>[\s\S]*?<\/internal>/g, '')`, with fuel.
unfoldable pub drop_internal : ℕ → String → String
drop_internal zero s = String.[]
drop_internal (suc f) String.[] = String.[]
drop_internal (suc f) (String.◌∷◌ c s) = elim (internal_at (String.◌∷◌ c s)) [
  | some after ↦ drop_internal f after
  | none ↦ String.◌∷◌ c (drop_internal f s)
]

unfoldable pub strip_internal_tags : String → String
unfolding drop_internal trim_text
strip_internal_tags s = trim_text (drop_internal (suc (text_length s)) s)
