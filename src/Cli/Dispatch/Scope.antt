-- ===== src/Cli/Dispatch/Scope.antt =====
-- What a frame of a group-scoped agent can do in src/cli/dispatch.ts.
use pocketclaw_telegram.Prelude.{
  String, Option, ◌≡◌, some, Bool, true, false, ◌==◌, ◌⊎◌, none, ◌∙◌, ap, inr, inl, refl,
  if◌then◌else◌, List, subst, sym, find→Memᴰ,
}
use pocketclaw_telegram.Json.{Json}
use pocketclaw_telegram.Cli.{
  Args, Access, AgentCaller, lookup, needs_approval, RequestFrame, CommandDef, open_access, Attempt,
  hidden, agent_caller, forbidden, done, raised,
}
use pocketclaw_telegram.Cli.Checks.{check_group, check_scope, passed, refused, resource_of, Checked}
use pocketclaw_telegram.Cli.Dispatch.{
  Cli, resolve_command, dispatch, execute, respond, ask, by_caller, run_parsed, by_access,
  dispatched, after_check, fallback, with_tail, split_last_dash, shortened,
}
use pocketclaw_telegram.Types.{Session}
use pocketclaw_telegram.Sessions.{get_session}
use mathlib.Core.List.{Memᴰ}
use pocketclaw_telegram.Router.Event.{or_text}
use pocketclaw_telegram.Cli.Dispatch.Confined.{Confined, check_group-Confined}

abbrev pub IsOpen : Access → Type 0
IsOpen needs_approval = ⊥
IsOpen open_access = Unit
IsOpen hidden = Unit

module _ {S : Type 0} (cli : Cli S) (a : AgentCaller) (s : S) where
  -- The state is as it was, or has one more request for approval, or is what the handler of an open
  -- command left, whose arguments were parsed from confined ones.
  abbrev pub Guarded : S → Type 0
  Guarded s' =
      (s' ≡ s)
      ⊎ ((session : Session) × (name : String) × (frame : RequestFrame) × (get_session
              (cli.sessions s) a.session_id
            ≡ some session)
          × (s' ≡ cli.request_approval session name frame s))
      ⊎ ((cmd : CommandDef S) × (raw args : Args) × Memᴰ cmd cli.registry
          × IsOpen cmd.access
          × Confined a.agent_group_id (resource_of cmd.resource) raw
          × (cmd.parse_args raw ≡ done args)
          × (s' ≡ (cmd.handler args (agent_caller a) s).1))

  respond_state :
      (cmd : CommandDef S) (req : RequestFrame) (r : Attempt Json × S)
      → (respond cli cmd req (agent_caller a) r).1 ≡ r.1
  respond_state cmd req (raised m, t) = refl
  respond_state cmd req (done v, t) = refl

  execute-Guarded :
      (cmd : CommandDef S) (req : RequestFrame)
      → Memᴰ cmd cli.registry
      → IsOpen cmd.access
      → Confined a.agent_group_id (resource_of cmd.resource) req.args
      → Guarded (execute cli cmd req (agent_caller a) s).1
  unfolding execute
  execute-Guarded cmd req member is_open confined = by_parse (cmd.parse_args req.args) refl
    where
      by_parse :
          (p : Attempt Args)
          → cmd.parse_args req.args ≡ p
          → Guarded (run_parsed cli cmd req (agent_caller a) p s).1
      by_parse (raised m) e = inl refl
      by_parse (done args) e = inr (
          inr (
            cmd,
            req.args,
            args,
            member,
            is_open,
            confined,
            e,
            respond_state cmd req (cmd.handler args (agent_caller a) s),
          ))

  ask-Guarded :
      (req : RequestFrame) (o : Option Session)
      → get_session (cli.sessions s) a.session_id ≡ o
      → Guarded (ask cli a req o s).1
  ask-Guarded req none e = inl refl
  ask-Guarded req (some session) e =
      inr
        (inl (session, or_text (cli.agent_name s a.agent_group_id) a.agent_group_id, req, e, refl))

  by_access-Guarded :
      (access : Access) (cmd : CommandDef S) (req : RequestFrame)
      → cmd.access ≡ access
      → Memᴰ cmd cli.registry
      → Confined a.agent_group_id (resource_of cmd.resource) req.args
      → Guarded (by_access cli access cmd req a s).1
  by_access-Guarded needs_approval cmd req e member confined =
      ask-Guarded req (get_session (cli.sessions s) a.session_id) refl
  by_access-Guarded open_access cmd req e member confined =
      execute-Guarded cmd req member (subst IsOpen (sym e) tt) confined
  by_access-Guarded hidden cmd req e member confined =
      execute-Guarded cmd req member (subst IsOpen (sym e) tt) confined

  check_scope-group :
      (resource : Option String) (req : RequestFrame)
      → or_text (cli.cli_scope s a.agent_group_id) "group" ≡ "group"
      → check_scope
          (cli.cli_scope s a.agent_group_id)
          a.agent_group_id
          resource
          (cli.sessions s)
          req
        ≡ check_group a.agent_group_id resource (cli.sessions s) req
  unfolding check_scope
  check_scope-group resource req e =
      ap
        (λ t.
          if t == "disabled"
          then refused forbidden "CLI access is disabled for this agent group."
          else if t == "group"
          then check_group a.agent_group_id resource (cli.sessions s) req
          else passed req)
        e

  by_caller-Guarded :
      (cmd : CommandDef S) (req : RequestFrame)
      → or_text (cli.cli_scope s a.agent_group_id) "group" ≡ "group"
      → Memᴰ cmd cli.registry
      → Guarded (by_caller cli cmd req (agent_caller a) s).1
  by_caller-Guarded cmd req scope member =
      by_check _ (check_scope-group (resource_of cmd.resource) req scope)
    where
      by_check :
          (c : Checked)
          → c ≡ check_group a.agent_group_id (resource_of cmd.resource) (cli.sessions s) req
          → Guarded (after_check cli cmd req a c s).1
      by_check (refused code m) e = inl refl
      by_check (passed checked) e = by_access-Guarded cmd.access cmd checked refl member (
          check_group-Confined a.agent_group_id (resource_of cmd.resource) (cli.sessions s) req
            checked (sym e))

module _ {S : Type 0} (registry : List (CommandDef S)) (cmd : CommandDef S) where
  lookup-mem : (name : String) → lookup registry name ≡ some cmd → Memᴰ cmd registry
  unfolding lookup
  lookup-mem name h = (find→Memᴰ (λ c. c.name == name) registry h).0

  fallback-mem :
      (req resolved : RequestFrame) (o : Option (String × String))
      → fallback registry req o ≡ some (cmd, resolved)
      → Memᴰ cmd registry
  fallback-mem req resolved none h = absurd (cc)
  fallback-mem req resolved (some (front, tail)) h = by_front (front == "") _ refl h
    where
      by_front :
          (b : Bool) (o : Option (CommandDef S))
          → lookup registry front ≡ o
          → (if b then none else shortened req front tail o) ≡ some (cmd, resolved)
          → Memᴰ cmd registry
      by_front true o e h = absurd (cc)
      by_front false none e h = absurd (cc)
      by_front false (some c) e h =
          let same : ◌≡◌ {A = CommandDef S × RequestFrame} (c, with_tail req front tail)
              (cmd, resolved) =
            cc in
          lookup-mem front (e ∙ ap (λ (p : CommandDef S × RequestFrame). some p.0) same)

  pub resolve_command-mem :
      (req resolved : RequestFrame)
      → resolve_command registry req ≡ some (cmd, resolved)
      → Memᴰ cmd registry
  unfolding resolve_command
  resolve_command-mem req resolved h = by_name (lookup registry req.command) refl h
    where
      by_name :
          (o : Option (CommandDef S))
          → lookup registry req.command ≡ o
          → (elim o [
            | some c ↦ some (c, req)
            | none ↦ fallback registry req (split_last_dash req.command)
          ])
            ≡ some (cmd, resolved)
          → Memᴰ cmd registry
      by_name none e h = fallback-mem req resolved (split_last_dash req.command) h
      by_name (some c) e h =
          let same : ◌≡◌ {A = CommandDef S × RequestFrame} (c, req) (cmd, resolved) = cc in
          lookup-mem req.command (e ∙ ap (λ (p : CommandDef S × RequestFrame). some p.0) same)

-- Whatever frame an agent of scope `group` sends, the state is as it was, or one request for
-- approval was made for the agent's own session, or a command of the registry that is open ran, on
-- arguments parsed from confined ones: the resource is one of the four that a group may use, or
-- none; its arguments for an agent group are the agent's own or count as none; and `cli_scope` is
-- not among them.
pub dispatch-Guarded :
    {S : Type 0} (cli : Cli S) (a : AgentCaller) (req : RequestFrame) (s : S)
    → or_text (cli.cli_scope s a.agent_group_id) "group" ≡ "group"
    → Guarded cli a s (dispatch cli req (agent_caller a) s).1
unfolding dispatch
dispatch-Guarded cli a req s scope = by_command (resolve_command cli.registry req) refl
  where
    by_command :
        (o : Option (CommandDef _ × RequestFrame))
        → resolve_command cli.registry req ≡ o
        → Guarded cli a s (dispatched cli req (agent_caller a) o s).1
    by_command none e = inl refl
    by_command (some (cmd, resolved)) e =
        by_caller-Guarded cli a s cmd resolved scope
          (resolve_command-mem cli.registry cmd req resolved e)
