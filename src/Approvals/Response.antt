-- ===== src/Approvals/Response.antt =====
-- A click on an approval card: src/modules/approvals/response-handler.ts, and the statements on
-- pending_approvals of src/db/sessions.ts that it runs.
pub mod Clicks
pub mod Once
use Prim.Native.String
use pocketclaw_telegram.Approvals.{
  ended, Office, PendingApproval, P, lifted, ClickOutcome, Ended, then_do, approve, broke, reject,
}
use pocketclaw_telegram.AgentToAgent.Route.{wake_container}
use pocketclaw_telegram.SenderGates.{namespaced}
use pocketclaw_telegram.Prelude.{
  String, Option, find, select, if◌then◌else◌, Bool, ℕ, ◌+◌, ◌==◌, not, any, false, ◌++◌, none,
  true, ◌||◌, ◌∷◌, is_some, [], some,
}
use pocketclaw_telegram.Types.{Session}
use pocketclaw_telegram.World.{Env, World, write_session_message}
use pocketclaw_telegram.Permissions.{Permissions, is_owner, is_global_admin, has_admin_privilege}
use pocketclaw_telegram.Json.{Json, obj, field, text, end}
use pocketclaw_telegram.Sessions.{get_session}
use pocketclaw_telegram.SessionDb.{NewMessage}

pub record ResponsePayload : Type 0 where
  pub question_id : String
  pub value : String
  pub user_id : Option String
  pub channel_type : String

-- A handler that a module registered for an action; what it reports is the message of a throw.
abbrev pub ApprovalHandler : Type 0
ApprovalHandler = Session → Json → String → Office → Option String × Office

-- `get_approval_handler` is the registry of handlers.
pub record Desk : Type 0 where
  pub env : Env
  pub get_approval_handler : String → Option ApprovalHandler

unfoldable pub get_pending_approval : Office → String → Option PendingApproval
get_pending_approval o id = find (λ a. a.approval_id == id) o.approvals

unfoldable pub delete_pending_approval : String → Office → Office
delete_pending_approval id o = record o {
  approvals = select (λ a. not (a.approval_id == id)) o.approvals;
}

unfoldable pub namespaced_user_id : ResponsePayload → Option String
namespaced_user_id payload = elim payload.user_id [
  | none ↦ none
  | some id ↦ if id == "" then none else some (namespaced payload.channel_type id)
]

-- A text that is there and not empty.
abbrev pub truthy : Option String → Option String
truthy none = none
truthy (some s) = if s == "" then none else some s

abbrev pub group_of_session : Office → Option String → Option String
group_of_session o none = none
group_of_session o (some id) = elim (get_session o.world.sessions id) [
  | none ↦ none
  | some s ↦ some s.agent_group_id
]

-- `approval.agent_group_id ?? (approval.session_id ? getSession(…)?.agent_group_id : null)`
abbrev pub approval_group : Office → PendingApproval → Option String
approval_group o approval = elim approval.agent_group_id [
  | some g ↦ some g
  | none ↦ group_of_session o (truthy approval.session_id)
]

abbrev pub has_privilege_for : Permissions → String → Option String → Bool
has_privilege_for p user none = is_owner p user || is_global_admin p user
has_privilege_for p user (some group) = has_admin_privilege p user group

abbrev pub may_click : Office → PendingApproval → Option String → Bool
may_click o approval none = false
may_click o approval (some user) = elim (truthy approval.approver_user_id) [
  | some approver ↦ user == approver
  | none ↦ has_privilege_for o.world.permissions user (truthy (approval_group o approval))
]

unfoldable pub is_authorized_approval_click : Office → PendingApproval → ResponsePayload → Bool
is_authorized_approval_click o approval payload = may_click o approval (namespaced_user_id payload)

-- `resolveOneCLIApproval`: the promise is settled, and the row goes.
unfoldable pub resolve_onecli_approval : String → Office → Option Office
unfolding delete_pending_approval
resolve_onecli_approval id o =
    if any (λ i. i == id) o.onecli
    then some
        (delete_pending_approval id (record o { onecli = select (λ i. not (i == id)) o.onecli }))
    else none

abbrev pub note_row : Env → ℕ → Session → String → NewMessage
note_row env n s body = record {
  id = env.fresh "appr-note" n;
  kind = "chat";
  timestamp = env.now;
  platform_id = some s.agent_group_id;
  channel_type = some "agent";
  thread_id = none;
  content = body;
  process_after = none;
  recurrence = none;
  trigger = none;
  source_session_id = none;
  on_wake = none;
}

abbrev pub system_text : Env → String → String
system_text env body = env.stringify (
    obj (
      field "text" (text body)
        (field "sender" (text "system") (field "senderId" (text "system") end))))

abbrev pub counted_draw : World → World
counted_draw w = record w { draws = w.draws + 1 }

-- `notify`
unfoldable pub notify : Env → Session → String → P (Unit {0})
notify env s body o = lifted o (
    write_session_message env s.id (note_row env o.world.draws s (system_text env body))
      (counted_draw o.world))

abbrev pub approval_text : String → String → String → String
approval_text before action after = String.◌++◌ before (String.◌++◌ action after)

-- The row goes, the callbacks are told, and the container is woken.
abbrev pub resolve : Env → PendingApproval → Session → ClickOutcome → String → P Bool
resolve env approval s outcome user o =
    let gone = delete_pending_approval approval.approval_id o in
    let told : Office = record gone {
      resolved =
          gone.resolved
          ++ record { approval = approval; session = s; outcome = outcome; user_id = user } ∷ [];
    } in
    then_do (lifted told (wake_container env s told.world)) (λ u. ended true)

abbrev pub settle : Env → PendingApproval → Session → ClickOutcome → String → String → P Bool
settle env approval s outcome user body o =
    then_do (notify env s body o) (λ u. resolve env approval s outcome user)

abbrev pub after_handler :
    Env → PendingApproval → Session → String → Option String × Office → Ended Bool
after_handler env approval s user (none, o) = resolve env approval s approve user o
after_handler env approval s user (some m, o) =
    settle env approval s approve user
      (approval_text "Your " approval.action
        (String.◌++◌ " was approved, but applying it failed: " (String.◌++◌ m ".")))
      o

-- A payload that is no JSON is a throw, and the row stays.
abbrev pub run_handler :
    Env → PendingApproval → Session → String → ApprovalHandler → Option Json → P Bool
run_handler env approval s user handler none o = broke o
run_handler env approval s user handler (some payload) o =
    after_handler env approval s user (handler s payload user o)

abbrev pub approved : Desk → PendingApproval → Session → String → Option ApprovalHandler → P Bool
approved desk approval s user none = settle desk.env approval s approve user (
    approval_text "Your " approval.action " was approved, but no handler is installed to apply it.")
approved desk approval s user (some handler) =
    run_handler desk.env approval s user handler (desk.env.parse_json approval.payload)

abbrev pub for_session : Desk → PendingApproval → String → String → Option Session → P Bool
for_session desk approval value user none o =
    ended true (delete_pending_approval approval.approval_id o)
for_session desk approval value user (some s) o =
    if not (value == "approve")
    then settle desk.env approval s reject user
        (approval_text "Your " approval.action " request was rejected by admin.") o
    else approved desk approval s user (desk.get_approval_handler approval.action) o

abbrev pub session_of : Office → Option String → Option Session
session_of o none = none
session_of o (some id) = get_session o.world.sessions id

unfoldable pub handle_registered_approval : Desk → PendingApproval → String → String → P Bool
handle_registered_approval desk approval value user o =
    for_session desk approval value user (session_of o (truthy approval.session_id)) o

abbrev pub or_gone : String → Office → Option Office → Ended Bool
or_gone id o none = ended true (delete_pending_approval id o)
or_gone id o (some o') = ended true o'

abbrev pub or_blank : Option String → String
or_blank none = ""
or_blank (some s) = s

abbrev pub authorized_click : Desk → ResponsePayload → PendingApproval → P Bool
authorized_click desk payload approval o =
    if approval.action == "onecli_credential"
    then or_gone payload.question_id o (resolve_onecli_approval payload.question_id o)
    else handle_registered_approval desk approval payload.value
        (or_blank (namespaced_user_id payload)) o

abbrev pub on_approval : Desk → ResponsePayload → Option PendingApproval → P Bool
on_approval desk payload none o = ended false o
on_approval desk payload (some approval) o =
    if is_authorized_approval_click o approval payload
    then authorized_click desk payload approval o
    else ended true o

-- Whether the click is claimed.
unfoldable pub handle_approvals_response : Desk → ResponsePayload → P Bool
handle_approvals_response desk payload o =
    on_approval desk payload (get_pending_approval o payload.question_id) o
