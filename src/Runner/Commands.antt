-- ===== src/Runner/Commands.antt =====
-- Slash commands in the container: `categorizeMessage`, `isClearCommand` and `isRunnerCommand` of
-- container/agent-runner/src/formatter.ts, `isUploadTraceCommand` of upload-trace.ts.
pub mod Gate
use pocketclaw_telegram.Prelude.{
  List, Option, Bool, String, ◌∷◌, ℕ, ◌==◌, true, [], none, some, if◌then◌else◌, false, ◌||◌, not,
  eqb, ◌&&◌,
}
use pocketclaw_telegram.Json.{Property, Json, get, value, text, truthy, type_error, undefined}
use pocketclaw_telegram.SessionDb.{MessageIn}
use pocketclaw_telegram.CommandGate.{codes, trim, lower, starts_with_slash, has_command, first_word}

abbrev map_option : {A B : Type 0} → (A → B) → Option A → Option B
map_option f none = none
map_option f (some a) = some (f a)

pub data CommandCategory : Type 0 where
  admin_command filtered_command passthrough no_command : CommandCategory

-- `ADMIN_COMMANDS` and `FILTERED_COMMANDS`
abbrev pub runner_admin_commands : List String
runner_admin_commands =
    "/remote-control" ∷ "/clear" ∷ "/compact" ∷ "/context" ∷ "/cost" ∷ "/files" ∷ "/upload-trace"
    ∷ []

abbrev pub runner_filtered_commands : List String
runner_filtered_commands = "/help" ∷ "/login" ∷ "/logout" ∷ "/doctor" ∷ "/config" ∷ "/start" ∷ []

-- `(content.text || '').trim()`: a TypeError on `null` and on a truthy text that is no string.
abbrev pub text_of_property : Property → Option (List ℕ)
text_of_property type_error = none
text_of_property undefined = some []
text_of_property (value (text s)) = some (trim (codes s))
text_of_property (value v) = if truthy v then none else some []

abbrev pub text_of_content : Option Json → String → Option (List ℕ)
text_of_content none content = some (trim (codes content))
text_of_content (some v) content = text_of_property (get v "text")

unfoldable pub categorize_text : List ℕ → CommandCategory
categorize_text s =
    if not (starts_with_slash s)
    then no_command
    else if has_command runner_admin_commands (lower (first_word s))
    then admin_command
    else if has_command runner_filtered_commands (lower (first_word s))
    then filtered_command
    else passthrough

abbrev pub has_prefix : List ℕ → List ℕ → Bool
has_prefix [] s = true
has_prefix (c ∷ p) [] = false
has_prefix (c ∷ p) (d ∷ s) = eqb c d && has_prefix p s

-- `text.toLowerCase().startsWith('/clear')`
unfoldable pub is_clear_text : List ℕ → Bool
is_clear_text s = has_prefix (codes "/clear") (lower s)

unfoldable pub is_upload_trace_text : List ℕ → Bool
is_upload_trace_text s = has_prefix (codes "/upload-trace") (lower s)

abbrev pub is_chat : MessageIn → Bool
is_chat m = m.kind == "chat" || m.kind == "chat-sdk"

abbrev pub acts_on_command : CommandCategory → Bool
acts_on_command admin_command = true
acts_on_command passthrough = true
acts_on_command filtered_command = false
acts_on_command no_command = false

module _ (parse_json : String → Option Json) where
  -- `none` is the throw.
  unfoldable pub is_clear_command : MessageIn → Option Bool
  is_clear_command m = map_option is_clear_text (text_of_content (parse_json m.content) m.content)

  -- A content that is no JSON, or whose text throws, is no such command.
  unfoldable pub is_upload_trace_command : MessageIn → Bool
  is_upload_trace_command m = elim (parse_json m.content) [
    | none ↦ false
    | some v ↦ elim (text_of_property (get v "text")) [
      | none ↦ false
      | some s ↦ is_upload_trace_text s
    ]
  ]

  unfoldable pub is_runner_command : MessageIn → Option Bool
  is_runner_command m =
      if is_chat m
      then map_option (λ s. acts_on_command (categorize_text s))
          (text_of_content (parse_json m.content) m.content)
      else some false
