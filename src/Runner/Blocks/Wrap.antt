-- ===== src/Runner/Blocks/Wrap.antt =====
-- Reading back a wrapped message: the expression of `dispatchResultText` in
-- container/agent-runner/src/poll-loop.ts.
use Prim.Native.Char.{Char, code}
use pocketclaw_telegram.Prelude.{
  String, ℕ, eqb, ◌==◌, ◌≡◌, some, false, true, refl, arith, none, ◌∷◌, suc, ◌≤◌, ◌<◌, ◌∙◌,
}
use pocketclaw_telegram.Runner.Blocks.{
  match_block, strip_prefix, until_quote, until_tag, open_tag, named, pieces, scan, message,
  text_length, Block,
}
use pocketclaw_telegram.Runner.Blocks.Fuel.{scan-fuel}

-- The first text and the second behind it.
abbrev pub before : String → String → String
before String.[] t = t
before (String.◌∷◌ c s) t = String.◌∷◌ c (before s t)

strip_prefix-before : (p s : String) → strip_prefix p (before p s) ≡ some s
strip_prefix-before String.[] s = refl
strip_prefix-before (String.◌∷◌ c p) s =
    let same : eqb (code c) (code c) ≡ true = ground arith in rw same (strip_prefix-before p s)

-- No character has the code.
abbrev pub Without : ℕ → String → Type 0
Without n String.[] = Unit
Without n (String.◌∷◌ c s) = (eqb (code c) n ≡ false) × Without n s

until_quote-at : (s : String) → until_quote (before "\"" s) ≡ some ("", s)
until_quote-at s = ground arith

until_quote-before :
    (name s : String)
    → Without b'"' name
    → until_quote (before name (before "\"" s)) ≡ some (name, s)
until_quote-before String.[] s h = until_quote-at s
until_quote-before (String.◌∷◌ c name) s h = rw (until_quote-before name s h.1, h.0) refl

strip_prefix-other :
    (c : Char) (s : String)
    → eqb (code c) b'<' ≡ false
    → strip_prefix "</message>" (String.◌∷◌ c s) ≡ none
strip_prefix-other c s h = ground arith

until_tag-step :
    (c : Char) (s : String) (found : String × String)
    → strip_prefix "</message>" (String.◌∷◌ c s) ≡ none
    → until_tag "</message>" s ≡ some found
    → until_tag "</message>" (String.◌∷◌ c s) ≡ some (String.◌∷◌ c found.0, found.1)
until_tag-step c s found other rest = ground arith

until_tag-before :
    (body s : String)
    → Without b'<' body
    → until_tag "</message>" (before body (before "</message>" s)) ≡ some (body, s)
until_tag-before String.[] s h = refl
until_tag-before (String.◌∷◌ c body) s h =
    let tail = before body (before "</message>" s) in
    until_tag-step c tail (body, s) (strip_prefix-other c tail h.0) (until_tag-before body s h.1)

-- A message as the agent is told to write it.
abbrev pub wrapped : String → String → String → String
wrapped name body rest =
    before "<message to=\"" (before name (before "\">" (before body (before "</message>" rest))))

match_block-wrapped :
    (name body rest : String)
    → (name == "") ≡ false
    → Without b'"' name
    → Without b'<' body
    → match_block (wrapped name body rest) ≡ some (record { to = name; body = body; rest = rest })
unfolding match_block open_tag
match_block-wrapped name body rest named hn hb =
    rw
      (
        until_quote-before name (before ">" (before body (before "</message>" rest))) hn,
        named,
        until_tag-before body rest hb,
      )
      refl

text_length-before : (s t : String) → text_length t ≤ text_length (before s t)
text_length-before String.[] t = omega arith
text_length-before (String.◌∷◌ c s) t = let rest = text_length-before s t in omega arith

scan-match :
    (f : ℕ) (c : Char) (s : String) (b : Block)
    → match_block (String.◌∷◌ c s) ≡ some b
    → scan (suc f) (String.◌∷◌ c s) ≡ message b.to b.body ∷ scan f b.rest
unfolding scan
scan-match f c s b found = rw (found, scan) refl

-- The first piece of a wrapped message with more text behind it is the message, and the other pieces
-- are those of the text behind it; where the name is not empty and holds no quote, and the body holds
-- no opening bracket of a tag.
pub pieces-wrapped :
    (name body rest : String)
    → (name == "") ≡ false
    → Without b'"' name
    → Without b'<' body
    → pieces (wrapped name body rest) ≡ message name body ∷ pieces rest
unfolding pieces scan
pieces-wrapped name body rest has_name hn hb =
    let found = match_block-wrapped name body rest has_name hn hb in
    let behind_name = before "\">" (before body (before "</message>" rest)) in
    let end = before "</message>" rest in
    let le_end = text_length-before "</message>" rest in
    let le_body = text_length-before body end in
    let le_name = text_length-before name behind_name in
    let all = text_length (wrapped name body rest) in
    let le_all : text_length rest < all = omega arith in
    let first : pieces (wrapped name body rest) ≡ message name body ∷ scan all rest =
      scan-match all _ _ _ found in
    first ∙ rw (scan-fuel all (suc (text_length rest)) rest le_all (omega arith)) refl
