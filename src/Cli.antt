-- ===== src/Cli.antt =====
-- src/cli/: the frames, the registry of commands, and the arguments that a command gets.
pub mod Checks
pub mod Dispatch
pub mod Normal
mod Examples
use Prim.Native.Char.{code}
use Prim.Native.String
use pocketclaw_telegram.World.{lookup_db}
use pocketclaw_telegram.Json.{Json}
use pocketclaw_telegram.Prelude.{
  List, String, [], Option, ◌∷◌, if◌then◌else◌, Bool, find, any, ◌==◌, eqb, none, some, ◌++◌,
}

-- src/cli/frame.ts. The arguments are a JSON object: its keys are distinct, in the order in which
-- they were set.
abbrev pub Args : Type 0
Args = List (String × Json)

pub record RequestFrame : Type 0 where
  pub id : String
  pub command : String
  pub args : Args

pub data ErrorCode : Type 0 where
  unknown_command invalid_args permission_denied forbidden approval_pending : ErrorCode
  not_found handler_error transport_error : ErrorCode

pub data ResponseFrame : Type 0 where
  success : String → Json → ResponseFrame
  failure : String → ErrorCode → String → ResponseFrame

pub record AgentCaller : Type 0 where
  pub session_id : String
  pub agent_group_id : String
  pub messaging_group_id : String

pub data CallerContext : Type 0 where
  host : CallerContext
  agent_caller : AgentCaller → CallerContext

-- What a call that may throw comes to: the error is its message.
pub data Attempt {ℓ} (A : Type ℓ) : Type ℓ where
  done : A → Attempt A
  raised : String → Attempt A

pub data Access : Type 0 where
  open_access needs_approval hidden : Access

-- src/cli/registry.ts. `generic` is true for the commands `list` and `get` that are made for a
-- resource; what a handler wrote before it threw stays written.
pub record CommandDef (S : Type 0) : Type 0 where
  pub name : String
  pub access : Access
  pub resource : Option String
  pub generic : Bool
  pub parse_args : Args → Attempt Args
  pub handler : Args → CallerContext → S → Attempt Json × S

module _ {S : Type 0} where
  unfoldable pub lookup : List (CommandDef S) → String → Option (CommandDef S)
  lookup registry name = find (λ c. c.name == name) registry

  -- A name that is taken is an error.
  unfoldable pub register : List (CommandDef S) → CommandDef S → Option (List (CommandDef S))
  register registry def =
      if any (λ c. c.name == def.name) registry then none else some (registry ++ def ∷ [])

-- `out[key] = value`
abbrev pub set_arg : String → Json → Args → Args
set_arg key v [] = (key, v) ∷ []
set_arg key v ((k, w) ∷ args) = if k == key then (k, v) ∷ args else (k, w) ∷ set_arg key v args

-- `{ ...args, ...fill }`
abbrev pub set_args : Args → Args → Args
set_args args [] = args
set_args args ((k, v) ∷ fill) = set_args (set_arg k v args) fill

-- `key.replace(/-/g, '_')`
abbrev pub underscored : String → String
underscored String.[] = ""
underscored (String.◌∷◌ c s) =
    if eqb (code c) 45 then String.◌∷◌ "_" (underscored s) else String.◌∷◌ c (underscored s)

abbrev pub normalize_into : Args → Args → Args
normalize_into out [] = out
normalize_into out ((k, v) ∷ args) = normalize_into (set_arg (underscored k) v out) args

-- src/cli/crud.ts
unfoldable pub normalize_args : Args → Args
normalize_args args = normalize_into [] args
