-- ===== src/Router/Event.antt =====
-- Events, adapters, hooks and the engagement test of src/router.ts.
use pocketclaw_telegram.Prelude.{
  ℕ, String, ◌==◌, Bool, true, false, Option, none, some, eqb, if◌then◌else◌, is_some,
}
use pocketclaw_telegram.Json.{Property, type_error, undefined, value, get, null, text}
use pocketclaw_telegram.Types.{
  MessagingGroup, MessagingGroupAgent, pattern_mode, mention, mention_sticky,
}
use pocketclaw_telegram.Sessions.{find_session_for_agent}
use pocketclaw_telegram.World.{World, Env, ok, threw, M}

-- src/channels/adapter.ts
pub record Address : Type 0 where
  pub channel_type : String
  pub platform_id : String
  pub thread_id : Option String

pub record Event : Type 0 where
  pub channel_type : String
  pub platform_id : String
  pub thread_id : Option String
  pub instance_name : Option String
  pub message_id : Option String
  pub kind : String
  pub content : String
  pub timestamp : ℕ
  pub is_mention : Bool
  pub is_group : Bool
  pub reply_to : Option Address

pub record Adapter : Type 0 where
  pub supports_threads : Bool
  pub can_subscribe : Bool

pub record Hooks : Type 0 where
  pub interceptor : Option (Event → M Bool)
  pub sender_resolver : Option (Event → M (Option String))
  pub access_gate : Option (Event → Option String → MessagingGroup → String → M Bool)
  pub sender_scope_gate :
      Option (Event → Option String → MessagingGroup → MessagingGroupAgent → M Bool)
  pub channel_request_gate : Option (MessagingGroup → Event → M (Unit {0}))

pub data Outcome : Type 0 where
  engaged accumulated declined missing : Outcome

-- `safeParseContent(raw).text ?? …` and `.sender ?? null`: a text, or absent. `JSON.parse` may
-- return null, and then the property access throws.
pub data Parsed : Type 0 where
  throws : Parsed
  field_text : Option String → Parsed

-- A regular expression is tested on the text to which the value is coerced.
abbrev pub text_of : Env → Property → Parsed
text_of env type_error = throws
text_of env undefined = field_text none
text_of env (value null) = field_text none
text_of env (value (text s)) = field_text (some s)
text_of env (value v) = field_text (some (env.to_text v))

unfoldable pub parsed_message_text : Env → String → Parsed
parsed_message_text env raw = elim (env.parse_json raw) [
  | none ↦ field_text (some raw)
  | some v ↦ text_of env (get v "text")
]

-- The adapters send a sender that is a text or absent; any other value counts as absent here.
abbrev pub sender_of : Property → Parsed
sender_of type_error = throws
sender_of (value (text s)) = field_text (some s)
sender_of _ = field_text none

unfoldable pub parsed_sender : Env → String → Parsed
parsed_sender env raw = elim (env.parse_json raw) [
  | none ↦ field_text none
  | some v ↦ sender_of (get v "sender")
]

abbrev pub or_throw : Parsed → M (Option String)
or_throw throws w = threw w
or_throw (field_text t) w = ok t w

abbrev pub or_text : Option String → String → String
or_text none d = d
or_text (some s) d = s

unfoldable pub evaluate_engage :
    Env → World → MessagingGroupAgent → String → Bool → MessagingGroup → Option String → Bool
evaluate_engage env w agent message is_mention mg thread = elim agent.engage_mode [
  | pattern_mode ↦
      if or_text agent.engage_pattern "." == "."
      then true
      else elim (env.regex_test (or_text agent.engage_pattern ".") message) [
        | none ↦ true
        | some b ↦ b
      ]
  | mention ↦ is_mention
  | mention_sticky ↦
      if is_mention
      then true
      else if eqb mg.is_group 0
      then false
      else is_some (find_session_for_agent w.sessions agent.agent_group_id mg.id thread)
]
