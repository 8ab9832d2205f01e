-- ===== src/Approvals/Request.antt =====
-- A request for an approval: `requestApproval` and `notifyAgent` of src/modules/approvals/primitive.ts,
-- and `createPendingApproval` of src/db/sessions.ts.
pub mod Asked
pub mod Held
pub mod Others
use pocketclaw_telegram.Approvals.{
  RequestApprovalOptions, ended, PendingApproval, Office, Card, P, lifted, then_do, pick_approver,
  Ended, some, ok, broke,
}
use pocketclaw_telegram.Approvals.Response.{
  approval_text, truthy, counted_draw, note_row, system_text,
}
use pocketclaw_telegram.AgentToAgent.Route.{wake_container}
use pocketclaw_telegram.World.{Env, M, write_session_message, get_messaging_group}
use pocketclaw_telegram.Types.{Session, MessagingGroup}
use pocketclaw_telegram.Permissions.{Permissions}
use pocketclaw_telegram.Prelude.{
  String, Option, List, if◌then◌else◌, some, ◌++◌, Bool, ◌∷◌, any, [], none, ◌==◌, true, is_some,
  false,
}
use pocketclaw_telegram.Approvals.Reach.{DmAdapter, pick_approval_delivery}
use pocketclaw_telegram.Json.{Json}
use pocketclaw_telegram.Sessions.{get_session}

-- `delivers` says whether the delivery adapter takes the card or throws; `none` is no adapter.
pub record RequestDesk : Type 0 where
  pub env : Env
  pub adapters : String → Option DmAdapter
  pub delivers : Option Bool
  pub options_json : String

abbrev pub has_session : Office → Option String → Bool
has_session o none = true
has_session o (some s) = is_some (get_session o.world.sessions s)

-- `INSERT OR IGNORE` into the table; `none` is the throw on a session that is not there.
unfoldable pub create_pending_approval : PendingApproval → Office → Option Office
create_pending_approval row o =
    if any (λ a. a.approval_id == row.approval_id) o.approvals
    then some o
    else if has_session o row.session_id
    then some (record o { approvals = o.approvals ++ row ∷ [] })
    else none

abbrev pub wake_found_session : Env → Option Session → M (Unit {0})
wake_found_session env none w = ok tt w
wake_found_session env (some s) w = wake_container env s w

abbrev pub wake_again : Env → Session → P (Unit {0})
wake_again env s o = lifted o (wake_found_session env (get_session o.world.sessions s.id) o.world)

unfoldable pub notify_agent : Env → Session → String → P (Unit {0})
notify_agent env s body o =
    then_do
      (lifted o (
        write_session_message env s.id
          (record (note_row env o.world.draws s (system_text env body)) {
            id = env.fresh "sys" o.world.draws;
          })
          (counted_draw o.world)))
      (λ u. wake_again env s)

abbrev pub approvers_of : Permissions → Session → Option String → List String
approvers_of p s none = pick_approver p (some s.agent_group_id)
approvers_of p s (some user) = user ∷ []

abbrev pub origin_of : Office → Option String → String
origin_of o none = ""
origin_of o (some mg) = elim (get_messaging_group o.world mg) [
  | none ↦ ""
  | some g ↦ g.channel_type
]

abbrev pub approval_row : RequestDesk → RequestApprovalOptions → String → PendingApproval
approval_row desk opts id = record {
  approval_id = id;
  session_id = some opts.session.id;
  request_id = id;
  action = opts.action;
  payload = desk.env.stringify opts.payload;
  created_at = desk.env.now;
  agent_group_id = none;
  title = opts.title;
  options_json = desk.options_json;
  approver_user_id = opts.approver_user_id;
}

abbrev pub with_card : Card → Office → Office
with_card card o = record o { cards = o.cards ++ card ∷ [] }

-- The call of the adapter, and the note to the agent where it throws.
abbrev pub deliver_card :
    RequestDesk → RequestApprovalOptions → String → Card → Option Bool → P (Unit {0})
deliver_card desk opts user card none o = ended tt o
deliver_card desk opts user card (some true) o = ended tt (with_card card o)
deliver_card desk opts user card (some false) o =
    notify_agent desk.env opts.session
      (approval_text "" opts.action
        (approval_text " failed: could not deliver approval request to " user "."))
      (with_card card o)

abbrev pub after_create :
    RequestDesk → RequestApprovalOptions → String → Card → Office → Option Office → Ended (Unit {0})
after_create desk opts user card o none = broke o
after_create desk opts user card o (some o') = deliver_card desk opts user card desk.delivers o'

abbrev pub to_approver :
    RequestDesk → RequestApprovalOptions → Option (String × MessagingGroup) → P (Unit {0})
to_approver desk opts none o =
    notify_agent desk.env opts.session
      (approval_text "" opts.action " failed: no DM channel found for any eligible approver.") o
to_approver desk opts (some (user, mg)) o =
    let id = desk.env.fresh "appr" o.world.draws in
    let counted : Office = record o { world = counted_draw o.world } in
    after_create desk opts user
      (record { channel_type = mg.channel_type; platform_id = mg.platform_id; question_id = id })
      counted (create_pending_approval (approval_row desk opts id) counted)

abbrev pub among_approvers : RequestDesk → RequestApprovalOptions → List String → P (Unit {0})
among_approvers desk opts [] o =
    notify_agent desk.env opts.session
      (approval_text "" opts.action " failed: no owner or admin configured to approve.") o
among_approvers desk opts (a ∷ as') o =
    then_do
      (pick_approval_delivery desk.env desk.adapters (a ∷ as')
        (origin_of o (truthy opts.session.messaging_group_id)) o)
      (to_approver desk opts)

unfoldable pub request_approval : RequestDesk → RequestApprovalOptions → P (Unit {0})
request_approval desk opts o =
    among_approvers desk opts
      (approvers_of o.world.permissions opts.session (truthy opts.approver_user_id)) o
