-- ===== src/Approvals/Sender.antt =====
-- The approval of an unknown sender: src/modules/permissions/sender-approval.ts, the handler of its
-- card in permissions/index.ts, and permissions/db/pending-sender-approvals.ts.
pub mod Pending
pub mod Admits
use Prim.Native.String
use pocketclaw_telegram.World.{ok, Env, get_messaging_group, get_agent_group, Ran, World}
use pocketclaw_telegram.Approvals.{
  ended, Office, PendingSenderApproval, P, Ended, then_do, pick_approver, some, broke, threw,
}
use pocketclaw_telegram.Permissions as Perms
use pocketclaw_telegram.Prelude.{
  String, ℕ, Option, List, find, Bool, select, if◌then◌else◌, ◌+◌, ◌∷◌, ◌==◌, any, not, ◌++◌, some,
  true, false, ◌&&◌, ◌||◌, [], none, is_some,
}
use pocketclaw_telegram.Approvals.Response.{ResponsePayload, namespaced_user_id}
use pocketclaw_telegram.Approvals.Reach.{DmAdapter, pick_approval_delivery}
use pocketclaw_telegram.Router.Event.{Event, Hooks, Adapter}
use pocketclaw_telegram.Types.{MessagingGroup, AgentGroupMember}
use pocketclaw_telegram.Permissions.{Permissions, add_member, has_admin_privilege}
use pocketclaw_telegram.Router.Inbound.{route_inbound}

-- `print_event` is `JSON.stringify` of an event, and `read_event` is `JSON.parse` of the text, `none`
-- where it throws or what it returns is no event. `sends` says whether the delivery adapter takes
-- the card, `has_adapter` whether there is one. The rest is what `routeInbound` is called with.
pub record SenderDesk : Type 0 where
  pub env : Env
  pub adapters : String → Option DmAdapter
  pub has_delivery_adapter : Bool
  pub print_event : Event → String
  pub read_event : String → Option Event
  pub hooks : Hooks
  pub adapter_of : String → Option Adapter
  pub options_json : String

unfoldable pub get_pending_sender_approval : Office → String → Option PendingSenderApproval
get_pending_sender_approval o id = find (λ a. a.id == id) o.sender_approvals

abbrev pub is_request_of : String → String → PendingSenderApproval → Bool
is_request_of mg sender a = a.messaging_group_id == mg && a.sender_identity == sender

unfoldable pub has_in_flight_sender_approval : Office → String → String → Bool
has_in_flight_sender_approval o mg sender = any (is_request_of mg sender) o.sender_approvals

unfoldable pub delete_pending_sender_approval : String → Office → Office
delete_pending_sender_approval id o = record o {
  sender_approvals = select (λ a. not (a.id == id)) o.sender_approvals;
}

-- The INSERT, with the keys and references of the table; `none` is the throw.
unfoldable pub create_pending_sender_approval : PendingSenderApproval → Office → Option Office
create_pending_sender_approval row o =
    if any (λ a. a.id == row.id) o.sender_approvals
      || any (is_request_of row.messaging_group_id row.sender_identity) o.sender_approvals
      || not (is_some (get_messaging_group o.world row.messaging_group_id))
      || not (is_some (get_agent_group o.world row.agent_group_id))
    then none
    else some (record o { sender_approvals = o.sender_approvals ++ row ∷ [] })

pub record SenderRequest : Type 0 where
  pub messaging_group_id : String
  pub agent_group_id : String
  pub sender_identity : String
  pub sender_name : Option String
  pub event : Event

abbrev pub sender_row : SenderDesk → ℕ → SenderRequest → String → PendingSenderApproval
sender_row desk n r approver = record {
  id = desk.env.fresh "nsa" n;
  messaging_group_id = r.messaging_group_id;
  agent_group_id = r.agent_group_id;
  sender_identity = r.sender_identity;
  sender_name = r.sender_name;
  original_message = desk.print_event r.event;
  approver_user_id = approver;
  created_at = desk.env.now;
  title = "👤 New sender";
  options_json = desk.options_json;
}

-- A failure of the delivery is logged.
abbrev pub card_sent : SenderDesk → PendingSenderApproval → MessagingGroup → P (Unit {0})
card_sent desk row mg o = ended tt (
    if desk.has_delivery_adapter
    then record o {
      cards =
          o.cards
          ++ record {
            channel_type = mg.channel_type;
            platform_id = mg.platform_id;
            question_id = row.id;
          }
            ∷ [];
    }
    else o)

abbrev pub row_created :
    SenderDesk → PendingSenderApproval → MessagingGroup → Office → Option Office → Ended (Unit {0})
row_created desk row mg o none = broke o
row_created desk row mg o (some o') = card_sent desk row mg o'

abbrev pub counted_id : Office → Office
counted_id o = record o { world = record o.world { draws = o.world.draws + 1 } }

abbrev pub with_target :
    SenderDesk → SenderRequest → Option (String × MessagingGroup) → P (Unit {0})
with_target desk r none o = ended tt o
with_target desk r (some (approver, mg)) o =
    let row = sender_row desk o.world.draws r approver in
    row_created desk row mg (counted_id o) (create_pending_sender_approval row (counted_id o))

abbrev pub type_of_group : Option MessagingGroup → String
type_of_group none = ""
type_of_group (some mg) = mg.channel_type

abbrev pub with_approvers : SenderDesk → SenderRequest → List String → P (Unit {0})
with_approvers desk r [] o = ended tt o
with_approvers desk r (a ∷ as') o =
    then_do
      (pick_approval_delivery desk.env desk.adapters (a ∷ as')
        (type_of_group (get_messaging_group o.world r.messaging_group_id)) o)
      (with_target desk r)

unfoldable pub request_sender_approval : SenderDesk → SenderRequest → P (Unit {0})
request_sender_approval desk r o =
    if has_in_flight_sender_approval o r.messaging_group_id r.sender_identity
    then ended tt o
    else with_approvers desk r (pick_approver o.world.permissions (some r.agent_group_id)) o

abbrev pub world_after {ℓ} : {A : Type ℓ} → Ran A → World
world_after (ok a w) = w
world_after (threw w) = w

-- The stored event is routed again; a throw is logged, and what was written stays.
abbrev pub replay : SenderDesk → Option Event → Office → Office
replay desk none o = o
replay desk (some e) o = record o {
  world = world_after (route_inbound desk.env desk.hooks desk.adapter_of e o.world);
}

abbrev pub member_row : Env → PendingSenderApproval → String → AgentGroupMember
member_row env row approver = record {
  user_id = row.sender_identity;
  agent_group_id = row.agent_group_id;
  added_by = some approver;
  added_at = env.now;
}

abbrev pub admitted : Office → Permissions → Office
admitted o p = record o { world = record o.world { permissions = p } }

-- The row goes before the replay, so that the gate does not see it.
abbrev pub after_member :
    SenderDesk → PendingSenderApproval → Office → Perms.Result Permissions → Ended Bool
after_member desk row o (Perms.err e) = broke o
after_member desk row o (Perms.ok p) = ended true (
    replay desk (desk.read_event row.original_message)
      (delete_pending_sender_approval row.id (admitted o p)))

abbrev pub is_sender_approver : Office → PendingSenderApproval → String → Bool
is_sender_approver o row user =
    user == row.approver_user_id || has_admin_privilege o.world.permissions user row.agent_group_id

abbrev pub judged_click : SenderDesk → PendingSenderApproval → String → String → P Bool
judged_click desk row value user o =
    if not (is_sender_approver o row user)
    then ended true o
    else if value == "approve"
    then after_member desk row o (add_member o.world.permissions (member_row desk.env row user))
    else ended true (delete_pending_sender_approval row.id o)

abbrev pub by_clicker : SenderDesk → PendingSenderApproval → String → Option String → P Bool
by_clicker desk row value none o = ended true o
by_clicker desk row value (some user) o = judged_click desk row value user o

abbrev pub on_request : SenderDesk → ResponsePayload → Option PendingSenderApproval → P Bool
on_request desk payload none o = ended false o
on_request desk payload (some row) o =
    by_clicker desk row payload.value (namespaced_user_id payload) o

unfoldable pub handle_sender_approval_response : SenderDesk → ResponsePayload → P Bool
handle_sender_approval_response desk payload o =
    on_request desk payload (get_pending_sender_approval o payload.question_id) o
