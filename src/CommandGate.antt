-- ===== src/CommandGate.antt =====
-- src/command-gate.ts: which inbound slash commands reach the container.
pub mod Words
pub mod Verdicts
mod Examples
use Prim.Native.Char.{code}
use Prim.Native.String
use pocketclaw_telegram.Prelude.{
  ℕ, ◌+◌, String, ◌==◌, Bool, true, false, not, ◌&&◌, ◌||◌, Option, none, some, List, [], ◌∷◌, ◌++◌,
  any, all, ltb, leb, eqb, if◌then◌else◌, is_none, is_text,
}
use mathlib.Core.List.{reverse}
use pocketclaw_telegram.Json.{
  Json, null, bool, number, text, arr, obj, Property, type_error, undefined, value, get, truthy,
}
use pocketclaw_telegram.Types.{UserRole, owner, admin}
use pocketclaw_telegram.Permissions.{Permissions, is_role}

-- The code points of a text.
abbrev pub codes : String → List ℕ
codes String.[] = []
codes (String.◌∷◌ c s) = code c ∷ codes s

-- The class `\s`, which is also what `trim` strips.
abbrev pub is_space : ℕ → Bool
is_space c =
    (leb 9 c && leb c 13)
    || eqb c 32
    || eqb c 0xa0
    || eqb c 0x1680
    || (leb 0x2000 c && leb c 0x200a)
    || eqb c 0x2028
    || eqb c 0x2029
    || eqb c 0x202f
    || eqb c 0x205f
    || eqb c 0x3000
    || eqb c 0xfeff

abbrev pub drop_spaces : List ℕ → List ℕ
drop_spaces [] = []
drop_spaces (c ∷ s) = if is_space c then drop_spaces s else c ∷ s

unfoldable pub trim : List ℕ → List ℕ
trim s = reverse (drop_spaces (reverse (drop_spaces s)))

-- `text.split(/\s/)[0]`
abbrev pub first_word : List ℕ → List ℕ
first_word [] = []
first_word (c ∷ s) = if is_space c then [] else c ∷ first_word s

-- `toLowerCase` on the letters of ASCII; no other character is lowered to a letter of the commands.
abbrev pub to_lower : ℕ → ℕ
to_lower c = if leb b'A' c && leb c b'Z' then c + 32 else c

abbrev pub lower : List ℕ → List ℕ
lower [] = []
lower (c ∷ s) = to_lower c ∷ lower s

abbrev pub same_codes : List ℕ → List ℕ → Bool
same_codes [] [] = true
same_codes (a ∷ s) (b ∷ t) = eqb a b && same_codes s t
same_codes _ _ = false

abbrev pub filtered_commands : List String
filtered_commands = "/help" ∷ "/login" ∷ "/logout" ∷ "/doctor" ∷ "/config" ∷ "/remote-control" ∷ []

abbrev pub admin_commands : List String
admin_commands = "/clear" ∷ "/compact" ∷ "/context" ∷ "/cost" ∷ "/files" ∷ "/upload-trace" ∷ []

-- `set.has(command)`
unfoldable pub has_command : List String → List ℕ → Bool
has_command names command = any (λ name. same_codes (codes name) command) names

pub data GateResult : Type 0 where
  pass : GateResult
  filter : GateResult
  deny : List ℕ → GateResult

-- `roles_table` says whether the permissions module's table exists. An empty id is falsy.
unfoldable pub is_admin : Permissions → Bool → Option String → String → Bool
is_admin p roles_table none group = false
is_admin p roles_table (some user_id) group =
    if user_id == ""
    then false
    else if not roles_table
    then true
    else any
        (λ r.
          r.user_id == user_id
          && (is_role r.role owner || is_role r.role admin)
          && (is_none r.agent_group_id || is_text r.agent_group_id group))
        p.user_roles

-- `(parsed.text || '').trim()`, or the trimmed content where that throws: on a `null`, and on a
-- truthy text that is no string.
abbrev pub text_or : Property → String → List ℕ
text_or type_error content = trim (codes content)
text_or undefined content = []
text_or (value (text s)) content = trim (codes s)
text_or (value v) content = if truthy v then trim (codes content) else []

abbrev pub parsed_text : Option Json → String → List ℕ
parsed_text none content = trim (codes content)
parsed_text (some v) content = text_or (get v "text") content

abbrev pub starts_with_slash : List ℕ → Bool
starts_with_slash [] = false
starts_with_slash (c ∷ s) = eqb c b'/'

-- The part of `gateCommand` below the parsing, on the trimmed text.
unfoldable pub gate_text : List ℕ → Bool → GateResult
gate_text s admin_here =
    if not (starts_with_slash s)
    then pass
    else if has_command filtered_commands (lower (first_word s))
    then filter
    else if has_command admin_commands (lower (first_word s))
    then if admin_here then pass else deny (lower (first_word s))
    else pass

module _ (parse_json : String → Option Json) where
  unfoldable pub gate_command : Permissions → Bool → String → Option String → String → GateResult
  gate_command p roles_table content user_id group =
      gate_text (parsed_text (parse_json content) content) (is_admin p roles_table user_id group)
