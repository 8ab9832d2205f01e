-- ===== src/Cli/Dispatch/Rows.antt =====
-- Which rows a group-scoped agent is shown by src/cli/dispatch.ts, and what the other scopes allow.
use pocketclaw_telegram.Prelude.{
  String, Option, ◌≡◌, true, Bool-cases, some, is_some, inl, subst, ◌≢◌, inr, arith, ap, none,
  false, eq_iff, sym, refl, if◌then◌else◌, ◌∙◌,
}
use pocketclaw_telegram.Cli.Checks.{
  Checked, check_scope, resource_of, refused, passed, is_json_text,
}
use pocketclaw_telegram.Cli.Dispatch.{
  filter_data, Cli, is_own_row, own_rows, execute, dispatch, obj, cons, arr, resolve_command, ask,
  text, field_of, answer, after_check, by_caller, dispatched, is_filtered, respond, by_access,
  run_parsed,
}
use pocketclaw_telegram.Json.{Json, Items, get_field, nil, bool, number, null}
use pocketclaw_telegram.Cli.{
  AgentCaller, RequestFrame, CommandDef, success, ResponseFrame, ErrorCode, agent_caller, failure,
  handler_error, Attempt, approval_pending, raised, Access, done, Args, invalid_args,
  needs_approval, open_access, hidden,
}
use pocketclaw_telegram.Types.{Session}
use pocketclaw_telegram.Router.Event.{or_text}
use pocketclaw_telegram.Cli.Dispatch.Confined.{is_json_text→eq}
use pocketclaw_telegram.Sessions.{get_session}

-- Every row is an object that has the caller's agent group in the field.
abbrev pub OwnRow : String → String → Json → Type 0
OwnRow field own (obj fs) = get_field fs field ≡ some (text own)
OwnRow field own _ = ⊥

abbrev pub OwnRows : String → String → Items → Type 0
OwnRows field own nil = Unit
OwnRows field own (cons row rows) = OwnRow field own row × OwnRows field own rows

-- What an array or an object that is shown holds; other values carry no row.
abbrev pub OwnData : String → String → Json → Type 0
OwnData field own (arr rows) = OwnRows field own rows
OwnData field own (obj fs) = OwnRow field own (obj fs)
OwnData field own _ = Unit

is_own_row-OwnRow :
    (field own : String) (row : Json) → is_own_row field own row ≡ true → OwnRow field own row
is_own_row-OwnRow field own (obj fs) h = by_field (get_field fs field) h
  where
    by_field :
        (o : Option Json)
        → (elim o [ none ↦ false | some v ↦ is_json_text v own ]) ≡ true
        → o ≡ some (text own)
    by_field none h = absurd (cc)
    by_field (some v) h = ap some (is_json_text→eq v own h)
is_own_row-OwnRow field own null h = absurd (cc)
is_own_row-OwnRow field own (bool b) h = absurd (cc)
is_own_row-OwnRow field own (number n) h = absurd (cc)
is_own_row-OwnRow field own (text t) h = absurd (cc)
is_own_row-OwnRow field own (arr xs) h = absurd (cc)

own_rows-OwnRows : (field own : String) (rows : Items) → OwnRows field own (own_rows field own rows)
own_rows-OwnRows field own nil = tt
own_rows-OwnRows field own (cons row rows) = elim (Bool-cases (is_own_row field own row)) [
  | inl e ↦ rw e (is_own_row-OwnRow field own row e, own_rows-OwnRows field own rows)
  | inr e ↦ rw e (own_rows-OwnRows field own rows)
]

-- A success of the filter names a field, and shows own rows only.
filter_data-Own :
    (id id' : String) (o : Option String) (own : String) (v shown : Json)
    → filter_data id o own v ≡ success id' shown
    → (field : String) × (o ≡ some field) × OwnData field own shown
unfolding filter_data
filter_data-Own id id' none own v shown h = absurd (cc)
filter_data-Own id id' (some field) own (arr rows) shown h =
    let same : arr (own_rows field own rows) ≡ shown = cc in
    (field, refl, subst (OwnData field own) same (own_rows-OwnRows field own rows))
filter_data-Own id id' (some field) own (obj fs) shown h =
    elim (Bool-cases (is_own_row field own (obj fs))) [
      | inl e ↦
          let same : obj fs ≡ shown = ground arith in
          (field, refl, subst (OwnData field own) same (is_own_row-OwnRow field own (obj fs) e))
      | inr e ↦ absurd (ground arith)
    ]
filter_data-Own id id' (some field) own null shown h =
    let same : null ≡ shown = cc in (field, refl, subst (OwnData field own) same tt)
filter_data-Own id id' (some field) own (bool b) shown h =
    let same : bool b ≡ shown = cc in (field, refl, subst (OwnData field own) same tt)
filter_data-Own id id' (some field) own (number n) shown h =
    let same : number n ≡ shown = cc in (field, refl, subst (OwnData field own) same tt)
filter_data-Own id id' (some field) own (text t) shown h =
    let same : text t ≡ shown = cc in (field, refl, subst (OwnData field own) same tt)

module _ {S : Type 0} (cli : Cli S) (a : AgentCaller) where
  -- The frame's command is one of the generic ones of a resource.
  abbrev pub IsGeneric : RequestFrame → CommandDef S → Type 0
  IsGeneric req cmd =
      (resolved : RequestFrame) × (resolve_command cli.registry req ≡ some (cmd, resolved))
      × (cmd.generic ≡ true)
      × (is_some (resource_of cmd.resource) ≡ true)

  abbrev Shown : CommandDef S → ResponseFrame × S → Type 0
  Shown cmd r =
      (id : String) (shown : Json)
      → r.0 ≡ success id shown
      → or_text (cli.cli_scope r.1 a.agent_group_id) "group" ≡ "group"
      → (field : String) × (field_of cli.scope_field (resource_of cmd.resource) ≡ some field)
        × OwnData field a.agent_group_id shown

  -- Only the data of a handler is a success.
  failure-Shown :
      (cmd : CommandDef S) (id m : String) (code : ErrorCode) (s : S)
      → Shown cmd (failure id code m, s)
  failure-Shown cmd id m code s id' shown h scope = absurd (cc)

  answer-Shown :
      (cmd : CommandDef S) (req : RequestFrame) (v : Json) (s : S)
      → cmd.generic ≡ true
      → is_some (resource_of cmd.resource) ≡ true
      → Shown cmd (answer cli cmd req (agent_caller a) v s, s)
  answer-Shown cmd req v s g r id shown h scope =
      let test : is_filtered cli cmd a.agent_group_id s ≡ true =
        ground (arith, eq_iff (or_text (cli.cli_scope s a.agent_group_id) "group") "group") in
      filter_data-Own req.id id (field_of cli.scope_field (resource_of cmd.resource))
        a.agent_group_id v shown
        (sym (
            ap
              (λ b.
                if b
                then filter_data req.id (field_of cli.scope_field (resource_of cmd.resource))
                    a.agent_group_id v
                else success req.id v)
              test)
          ∙ h)

  execute-Shown :
      (cmd : CommandDef S) (req : RequestFrame) (s : S)
      → cmd.generic ≡ true
      → is_some (resource_of cmd.resource) ≡ true
      → Shown cmd (execute cli cmd req (agent_caller a) s)
  unfolding execute
  execute-Shown cmd req s g r = by_parse (cmd.parse_args req.args)
    where
      by_run : (p : Attempt Json × S) → Shown cmd (respond cli cmd req (agent_caller a) p)
      by_run (raised m, t) = failure-Shown cmd req.id m handler_error t
      by_run (done v, t) = answer-Shown cmd req v t g r

      by_parse : (p : Attempt Args) → Shown cmd (run_parsed cli cmd req (agent_caller a) p s)
      by_parse (raised m) = failure-Shown cmd req.id m invalid_args s
      by_parse (done args) = by_run (cmd.handler args (agent_caller a) s)

  ask-Shown :
      (cmd : CommandDef S) (req : RequestFrame) (o : Option Session) (s : S)
      → Shown cmd (ask cli a req o s)
  ask-Shown cmd req none s = failure-Shown cmd req.id "Session not found." handler_error s
  ask-Shown cmd req (some session) s = failure-Shown cmd req.id _ approval_pending _

  after_check-Shown :
      (cmd : CommandDef S) (req : RequestFrame) (c : Checked) (s : S)
      → cmd.generic ≡ true
      → is_some (resource_of cmd.resource) ≡ true
      → Shown cmd (after_check cli cmd req a c s)
  after_check-Shown cmd req (refused code m) s g r = failure-Shown cmd req.id m code s
  after_check-Shown cmd req (passed checked) s g r = by_access_kind cmd.access
    where
      by_access_kind : (k : Access) → Shown cmd (by_access cli k cmd checked a s)
      by_access_kind needs_approval =
          ask-Shown cmd checked (get_session (cli.sessions s) a.session_id) s
      by_access_kind open_access = execute-Shown cmd checked s g r
      by_access_kind hidden = execute-Shown cmd checked s g r

  -- A generic command of a resource shows an agent whose scope is `group` after the handler only
  -- rows that hold the agent's own group in the field that the resource declares; a resource that
  -- declares none shows nothing.
  pub dispatch-OwnData :
      (req : RequestFrame) (s s' : S) (cmd : CommandDef S) (id : String) (shown : Json)
      → IsGeneric req cmd
      → dispatch cli req (agent_caller a) s ≡ (success id shown, s')
      → or_text (cli.cli_scope s' a.agent_group_id) "group" ≡ "group"
      → (field : String) × (field_of cli.scope_field (resource_of cmd.resource) ≡ some field)
        × OwnData field a.agent_group_id shown
  unfolding dispatch
  dispatch-OwnData req s s' cmd id shown (resolved, e, g, r) h scope =
      let run : dispatch cli req (agent_caller a) s
          ≡ by_caller cli cmd resolved (agent_caller a) s =
        ap (λ o. dispatched cli req (agent_caller a) o s) e in
      let there : by_caller cli cmd resolved (agent_caller a) s ≡ (success id shown, s') =
        sym run ∙ h in
      after_check-Shown cmd resolved
        (check_scope (cli.cli_scope s a.agent_group_id) a.agent_group_id (resource_of cmd.resource)
          (cli.sessions s) resolved)
        s g r id shown (ap (λ (p : ResponseFrame × S). p.0) there)
        (ap (λ (p : ResponseFrame × S). or_text (cli.cli_scope p.1 a.agent_group_id) "group") there
          ∙ scope)

  -- Where the scope is `disabled` a frame changes nothing and is answered by an error.
  pub dispatch_disabled :
      (req : RequestFrame) (s : S)
      → cli.cli_scope s a.agent_group_id ≡ some "disabled"
      → ((dispatch cli req (agent_caller a) s).1 ≡ s)
        × ((id : String) (shown : Json)
            → (dispatch cli req (agent_caller a) s).0 ≢ success id shown)
  unfolding dispatch check_scope
  dispatch_disabled req s e = by_command (resolve_command cli.registry req)
    where
      by_command :
          (o : Option (CommandDef S × RequestFrame))
          → ((dispatched cli req (agent_caller a) o s).1 ≡ s)
            × ((id : String) (shown : Json)
                → (dispatched cli req (agent_caller a) o s).0 ≢ success id shown)
      by_command none = (refl, λ id shown h. absurd (cc))
      by_command (some (cmd, resolved)) = rw e (refl, λ id shown h. absurd (cc))
