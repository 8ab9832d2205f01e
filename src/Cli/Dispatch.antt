-- ===== src/Cli/Dispatch.antt =====
-- `dispatch` of src/cli/dispatch.ts: the path of a command from its frame to its handler.
pub mod Confined
pub mod Scope
pub mod Rows
use Prim.Native.Char.{code}
use Prim.Native.String
use pocketclaw_telegram.World.{lookup_db}
use pocketclaw_telegram.Router.Event.{or_text}
use pocketclaw_telegram.Sessions.{get_session}
use pocketclaw_telegram.Types.{Session}
use pocketclaw_telegram.Json.{
  Json, Items, Fields, null, text, arr, obj, nil, cons, truthy, get_field,
}
use pocketclaw_telegram.Cli.{
  Args, RequestFrame, ResponseFrame, success, failure, ErrorCode, unknown_command, invalid_args,
  forbidden, approval_pending, handler_error, AgentCaller, CallerContext, host, agent_caller,
  Attempt, done, raised, Access, open_access, needs_approval, hidden, CommandDef, lookup, set_arg,
  set_args, if◌then◌else◌, some,
}
use pocketclaw_telegram.Prelude.{
  List, String, Option, none, Bool, ◌∷◌, ◌&&◌, not, ◌==◌, eqb, false, true, [], is_some, ◌||◌,
}
use pocketclaw_telegram.Cli.Checks.{
  Checked, check_group, check_scope, check_session, filled, has_arg, is_allowed_resource,
  is_keyed_by_group, is_session_of, is_sessions, is_truthy_arg, passed, refused, resource_of,
  or_else, is_json_text,
}

-- What dispatch reads of the rest of the host: the registry, the field of a resource's rows that
-- holds the agent group, `cli_scope` of the container configuration, the sessions, the names of the
-- agent groups, and `requestApproval`, which queues the frame for an admin.
pub record Cli (S : Type 0) : Type 0 where
  pub registry : List (CommandDef S)
  pub scope_field : String → Option String
  pub cli_scope : S → String → Option String
  pub sessions : S → List Session
  pub agent_name : S → String → Option String
  pub request_approval : Session → String → RequestFrame → S → S

-- The text before the last dash and the text after it.
abbrev pub split_last_dash : String → Option (String × String)
split_last_dash String.[] = none
split_last_dash (String.◌∷◌ c s) = elim (split_last_dash s) [
  | some (front, tail) ↦ some (String.◌∷◌ c front, tail)
  | none ↦ if eqb (code c) 45 then some ("", s) else none
]

abbrev pub with_tail : RequestFrame → String → String → RequestFrame
with_tail req front tail = record req {
  command = front;
  args = set_arg "id" (or_else (lookup_db "id" req.args) tail) req.args;
}

module _ {S : Type 0} where
  abbrev pub shortened :
      RequestFrame → String → String → Option (CommandDef S) → Option (CommandDef S × RequestFrame)
  shortened req front tail none = none
  shortened req front tail (some cmd) = some (cmd, with_tail req front tail)

  abbrev pub fallback :
      List (CommandDef S)
      → RequestFrame
      → Option (String × String)
      → Option (CommandDef S × RequestFrame)
  fallback registry req none = none
  fallback registry req (some (front, tail)) =
      if front == "" then none else shortened req front tail (lookup registry front)

  -- The command of a frame; an unknown name is tried again without its last segment, as the id.
  unfoldable pub resolve_command :
      List (CommandDef S) → RequestFrame → Option (CommandDef S × RequestFrame)
  resolve_command registry req = elim (lookup registry req.command) [
    | some cmd ↦ some (cmd, req)
    | none ↦ fallback registry req (split_last_dash req.command)
  ]

-- The rows of an array that are objects with the caller's group in the field.
abbrev pub is_own_row : String → String → Json → Bool
is_own_row field own (obj fs) = elim (get_field fs field) [
  | none ↦ false
  | some v ↦ is_json_text v own
]
is_own_row field own _ = false

abbrev pub own_rows : String → String → Items → Items
own_rows field own nil = nil
own_rows field own (cons row rows) =
    if is_own_row field own row then cons row (own_rows field own rows) else own_rows field own rows

unfoldable pub filter_data : String → Option String → String → Json → ResponseFrame
filter_data id none own v = failure id forbidden "The resource is not available in group scope."
filter_data id (some field) own (arr rows) = success id (arr (own_rows field own rows))
filter_data id (some field) own (obj fs) =
    if is_own_row field own (obj fs)
    then success id (obj fs)
    else failure id forbidden "Resource belongs to a different agent group."
filter_data id (some field) own v = success id v

-- An empty name of the field counts as none.
abbrev pub field_of {ℓ} : {A : Type ℓ} → (A → Option String) → Option A → Option String
field_of f none = none
field_of f (some a) = resource_of (f a)

module _ {S : Type 0} (cli : Cli S) where
  -- The check after the handler reads the scope again.
  abbrev pub is_filtered : CommandDef S → String → S → Bool
  is_filtered cmd own s =
      is_some (resource_of cmd.resource)
      && cmd.generic
      && or_text (cli.cli_scope s own) "group" == "group"

  abbrev pub answer : CommandDef S → RequestFrame → CallerContext → Json → S → ResponseFrame
  answer cmd req host v s = success req.id v
  answer cmd req (agent_caller a) v s =
      if is_filtered cmd a.agent_group_id s
      then filter_data req.id (field_of cli.scope_field (resource_of cmd.resource)) a.agent_group_id
          v
      else success req.id v

  abbrev pub respond :
      CommandDef S → RequestFrame → CallerContext → Attempt Json × S → ResponseFrame × S
  respond cmd req caller (raised m, s) = (failure req.id handler_error m, s)
  respond cmd req caller (done v, s) = (answer cmd req caller v s, s)

  abbrev pub run_parsed :
      CommandDef S → RequestFrame → CallerContext → Attempt Args → S → ResponseFrame × S
  run_parsed cmd req caller (raised m) s = (failure req.id invalid_args m, s)
  run_parsed cmd req caller (done args) s = respond cmd req caller (cmd.handler args caller s)

  unfoldable pub execute : CommandDef S → RequestFrame → CallerContext → S → ResponseFrame × S
  execute cmd req caller s = run_parsed cmd req caller (cmd.parse_args req.args) s

  abbrev pub ask : AgentCaller → RequestFrame → Option Session → S → ResponseFrame × S
  ask a req none s = (failure req.id handler_error "Session not found.", s)
  ask a req (some session) s = (
    failure req.id approval_pending "Approval request sent to admin.",
    cli.request_approval session (or_text (cli.agent_name s a.agent_group_id) a.agent_group_id) req
        s,
  )

  abbrev pub by_access : Access → CommandDef S → RequestFrame → AgentCaller → S → ResponseFrame × S
  by_access needs_approval cmd req a s = ask a req (get_session (cli.sessions s) a.session_id) s
  by_access open_access cmd req a s = execute cmd req (agent_caller a) s
  by_access hidden cmd req a s = execute cmd req (agent_caller a) s

  abbrev pub after_check :
      CommandDef S → RequestFrame → AgentCaller → Checked → S → ResponseFrame × S
  after_check cmd req a (refused code m) s = (failure req.id code m, s)
  after_check cmd req a (passed checked) s = by_access cmd.access cmd checked a s

  abbrev pub by_caller : CommandDef S → RequestFrame → CallerContext → S → ResponseFrame × S
  by_caller cmd req host s = execute cmd req host s
  by_caller cmd req (agent_caller a) s =
      after_check cmd req a
        (check_scope (cli.cli_scope s a.agent_group_id) a.agent_group_id (resource_of cmd.resource)
          (cli.sessions s) req)
        s

  abbrev pub dispatched :
      RequestFrame → CallerContext → Option (CommandDef S × RequestFrame) → S → ResponseFrame × S
  dispatched req caller none s = (
    failure req.id unknown_command (String.◌++◌ "no command \"" (String.◌++◌ req.command "\"")),
    s,
  )
  dispatched req caller (some (cmd, resolved)) s = by_caller cmd resolved caller s

  unfoldable pub dispatch : RequestFrame → CallerContext → S → ResponseFrame × S
  dispatch req caller s = dispatched req caller (resolve_command cli.registry req) s
