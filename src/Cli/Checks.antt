-- ===== src/Cli/Checks.antt =====
-- The checks that `dispatch` of src/cli/dispatch.ts makes on a frame of an agent whose scope is its
-- group.
use pocketclaw_telegram.World.{lookup_db}
use pocketclaw_telegram.Router.Event.{or_text}
use pocketclaw_telegram.Sessions.{get_session}
use pocketclaw_telegram.Types.{Session}
use pocketclaw_telegram.Json.{Json, null, text, truthy}
use pocketclaw_telegram.Cli.{
  Args, RequestFrame, ErrorCode, forbidden, handler_error, set_args, if◌then◌else◌, some,
}
use pocketclaw_telegram.Prelude.{
  List, String, Option, none, Bool, ◌∷◌, ◌&&◌, not, ◌==◌, false, true, [], is_some, ◌||◌,
}

-- `value ?? text`
abbrev pub or_else : Option Json → String → Json
or_else none t = text t
or_else (some null) t = text t
or_else (some v) t = v

abbrev pub is_json_text : Json → String → Bool
is_json_text (text s) t = s == t
is_json_text _ t = false

-- `value && value !== text`
abbrev pub is_other : Option Json → String → Bool
is_other none t = false
is_other (some v) t = truthy v && not (is_json_text v t)

-- `if (cmd.resource)`
abbrev pub resource_of : Option String → Option String
resource_of none = none
resource_of (some r) = if r == "" then none else some r

abbrev pub is_allowed_resource : Option String → Bool
is_allowed_resource none = true
is_allowed_resource (some r) =
    r == "groups" || r == "sessions" || r == "destinations" || r == "members"

-- The resources whose `--id` is the agent group.
abbrev pub is_keyed_by_group : Option String → Bool
is_keyed_by_group none = false
is_keyed_by_group (some r) = r == "groups" || r == "destinations"

abbrev pub is_sessions : Option String → Bool
is_sessions none = false
is_sessions (some r) = r == "sessions"

pub data Checked : Type 0 where
  refused : ErrorCode → String → Checked
  passed : RequestFrame → Checked

-- The arguments that the caller's agent group fills.
abbrev pub filled : String → Option String → Args → Args
filled own resource args = set_args args (
    ("agent_group_id", or_else (lookup_db "agent_group_id" args) own)
    ∷ ("group", or_else (lookup_db "group" args) own)
    ∷ (if is_keyed_by_group resource then ("id", or_else (lookup_db "id" args) own) ∷ [] else []))

-- An id that is no text finds no session.
abbrev pub is_session_of : List Session → Option Json → String → Bool
is_session_of sessions (some (text id)) own = elim (get_session sessions id) [
  | none ↦ false
  | some s ↦ s.agent_group_id == own
]
is_session_of sessions _ own = false

abbrev pub is_truthy_arg : Option Json → Bool
is_truthy_arg none = false
is_truthy_arg (some v) = truthy v

-- `sessions-get` answers "not found" for a session of another group as for one that is not there.
abbrev pub check_session : String → Option String → List Session → RequestFrame → Checked
check_session own resource sessions req =
    if is_sessions resource
      && req.command == "sessions-get"
      && is_truthy_arg (lookup_db "id" req.args)
      && not (is_session_of sessions (lookup_db "id" req.args) own)
    then refused handler_error "session not found"
    else passed req

abbrev pub has_arg : String → Args → Bool
has_arg key args = is_some (lookup_db key args)

unfoldable pub check_group : String → Option String → List Session → RequestFrame → Checked
check_group own resource sessions req =
    if not (is_allowed_resource resource)
    then refused forbidden "CLI access is scoped to this agent group. Cannot access the resource."
    else if is_other (lookup_db "agent_group_id" req.args) own
        || is_other (lookup_db "group" req.args) own
    then refused forbidden "CLI access is scoped to this agent group."
    else if is_keyed_by_group resource && is_other (lookup_db "id" req.args) own
    then refused forbidden "CLI access is scoped to this agent group."
    else if has_arg "cli_scope" req.args || has_arg "cli-scope" req.args
    then refused forbidden "Cannot change cli_scope from a group-scoped agent."
    else check_session own resource sessions (record req { args = filled own resource req.args })

-- A group without a configuration row has the scope `group`.
unfoldable pub check_scope :
    Option String → String → Option String → List Session → RequestFrame → Checked
check_scope scope own resource sessions req =
    if or_text scope "group" == "disabled"
    then refused forbidden "CLI access is disabled for this agent group."
    else if or_text scope "group" == "group"
    then check_group own resource sessions req
    else passed req
