-- ===== src/Approvals/Examples.antt =====
-- One owner who can be reached, an approval that waits for him, and an unknown sender.
use pocketclaw_telegram.World.{woken, get_messaging_group, get_agent_group}
use pocketclaw_telegram.Json.{obj, end}
use pocketclaw_telegram.Fixtures.{world, env, session_a, event, hooks}
use pocketclaw_telegram.Approvals.{
  approve, ended, PendingApproval, PendingSenderApproval, Office, owner, pick_approver, admin,
  is_among, get_owners, get_global_admins, get_admins_of_agent_group, RequestApprovalOptions,
}
use pocketclaw_telegram.Types.{UserRole, User}
use pocketclaw_telegram.Prelude.{
  String, ◌≡◌, ◌∷◌, some, none, ◌⊎◌, if◌then◌else◌, [], false, ◌==◌, true, refl,
}
use pocketclaw_telegram.Permissions.{
  Permissions, get_user, has_admin_privilege, is_owner, has_global_role,
}
use pocketclaw_telegram.Approvals.Picks.{AllDistinct, pick_approver_lem}
use pocketclaw_telegram.Approvals.Response.{
  Desk, ResponsePayload, handle_approvals_response, is_authorized_approval_click,
  get_pending_approval, namespaced_user_id, handle_registered_approval, delete_pending_approval,
}
use pocketclaw_telegram.Approvals.Response.Clicks.{office_of, MayResolve, click-Guarded}
use pocketclaw_telegram.Approvals.Sender.{
  SenderDesk, SenderRequest, request_sender_approval, handle_sender_approval_response,
  has_in_flight_sender_approval, get_pending_sender_approval, create_pending_sender_approval,
}
use pocketclaw_telegram.Approvals.Request.{RequestDesk, request_approval}
use pocketclaw_telegram.Approvals.Request.Asked.{Asked, request_approval-Asked}
use pocketclaw_telegram.Approvals.Sender.Pending.{request_sender_approval-once}
use pocketclaw_telegram.Approvals.Response.Once.{click-settles}
use pocketclaw_telegram.Approvals.Sender.Admits.{MayAdmit, Answered, sender_click-Answered}
use pocketclaw_telegram.Sessions.{get_session}
use pocketclaw_telegram.Approvals.Reach.{
  pick_approval_delivery, first_reachable, ensure_user_dm, parse_user_id, channel_type_of,
  resolve_dm_platform_id, get_user_dm, upsert_user_dm,
}
use pocketclaw_telegram.Delivery.Message.{get_messaging_group_by_platform}

abbrev owner_row : UserRole
owner_row = record {
  user_id = "tg:1";
  role = owner;
  agent_group_id = none;
  granted_by = none;
  granted_at = 1;
}

abbrev some_user : String → User
some_user id = record { id = id; kind = "tg"; display_name = none; created_at = 1 }

abbrev staff : Permissions
staff = record {
  users = some_user "tg:1" ∷ some_user "tg:9" ∷ [];
  user_roles = owner_row ∷ record owner_row { role = admin; granted_at = 2 } ∷ [];
  members = [];
  agent_group_ids = "ag-1" ∷ "ag-2" ∷ [];
}

pick_approver_lem_example :
    AllDistinct (pick_approver staff (some "ag-1"))
    × ((u : String)
        → is_among u (pick_approver staff (some "ag-1")) ≡ has_admin_privilege staff u "ag-1")
pick_approver_lem_example = pick_approver_lem staff "ag-1" refl

abbrev waiting : PendingApproval
waiting = record {
  approval_id = "appr-1";
  session_id = some "s-a";
  request_id = "appr-1";
  action = "install_packages";
  payload = "{}";
  created_at = 1;
  agent_group_id = none;
  title = "Install";
  options_json = "[]";
  approver_user_id = none;
}

abbrev stranger : PendingSenderApproval
stranger = record {
  id = "nsa-1";
  messaging_group_id = "mg-1";
  agent_group_id = "ag-1";
  sender_identity = "tg:9";
  sender_name = none;
  original_message = "{}";
  approver_user_id = "tg:1";
  created_at = 1;
  title = "New sender";
  options_json = "[]";
}

abbrev office : Office
office = record {
  world = record world { permissions = staff };
  approvals = waiting ∷ [];
  sender_approvals = [];
  user_dms = [];
  cards = [];
  resolved = [];
  onecli = [];
}

abbrev desk : Desk
desk = record { env = env; get_approval_handler = λ action. some (λ s v user o. (none, o)) }

abbrev click : ResponsePayload
click = record {
  question_id = "appr-1";
  value = "approve";
  user_id = some "1";
  channel_type = "tg";
}

click-Guarded_example :
    (office_of (handle_approvals_response desk click office) ≡ office)
    ⊎ ((approval : PendingApproval) × (user : String) × (get_pending_approval office "appr-1"
          ≡ some approval)
        × (namespaced_user_id click ≡ some user)
        × MayResolve office approval user)
click-Guarded_example = click-Guarded desk click office

-- The click of the owner runs the handler, and the session's container is woken.
abbrev after_click : Office
after_click = record office {
  world = record world { permissions = staff; effects = woken "s-a" ∷ [] };
  approvals = [];
  resolved =
      record { approval = waiting; session = session_a; outcome = approve; user_id = "tg:1" } ∷ [];
}

click_runs : handle_approvals_response desk click office ≡ ended true after_click
unfolding handle_approvals_response is_authorized_approval_click namespaced_user_id
    get_pending_approval handle_registered_approval delete_pending_approval get_session
    has_admin_privilege is_owner has_global_role
click_runs = refl

click-settles_example :
    (after_click ≡ office)
    ⊎ (handle_approvals_response desk (record click { value = "reject" }) after_click
        ≡ ended false after_click)
click-settles_example =
    click-settles desk click (record click { value = "reject" }) office after_click true refl
      click_runs

abbrev sender_desk : SenderDesk
sender_desk = record {
  env = env;
  adapters = λ type. if type == "tg" then some (record { open_dm = none }) else none;
  has_delivery_adapter = true;
  print_event = λ e. "{}";
  read_event = λ s. some event;
  hooks = hooks;
  adapter_of = λ type. none;
  options_json = "[]";
}

abbrev asking : Office
asking = record office { sender_approvals = stranger ∷ [] }

abbrev sender_click : ResponsePayload
sender_click = record click { question_id = "nsa-1" }

sender_click-Answered_example :
    (office_of (handle_sender_approval_response sender_desk sender_click asking) ≡ asking)
    ⊎ ((row : PendingSenderApproval) × (user : String) × (get_pending_sender_approval asking "nsa-1"
          ≡ some row)
        × (namespaced_user_id sender_click ≡ some user)
        × MayAdmit asking row user
        × Answered sender_desk sender_click.value asking row
            (handle_sender_approval_response sender_desk sender_click asking))
unfolding get_user
sender_click-Answered_example = sender_click-Answered sender_desk sender_click asking (refl, tt)

abbrev request : SenderRequest
request = record {
  messaging_group_id = "mg-1";
  agent_group_id = "ag-1";
  sender_identity = "tg:9";
  sender_name = none;
  event = event;
}

request_sender_approval-once_example :
    ((office_of (request_sender_approval sender_desk request office)).cards ≡ [])
    ⊎ (request_sender_approval sender_desk request
          (office_of (request_sender_approval sender_desk request office))
        ≡ ended tt (office_of (request_sender_approval sender_desk request office)))
request_sender_approval-once_example =
    request_sender_approval-once sender_desk request request office refl refl

-- The owner gets one card.
one_card :
    (office_of (request_sender_approval sender_desk request office)).cards
    ≡ record { channel_type = "tg"; platform_id = "1"; question_id = "nsa" } ∷ []
unfolding request_sender_approval has_in_flight_sender_approval pick_approver get_owners
    get_global_admins get_admins_of_agent_group pick_approval_delivery first_reachable
    ensure_user_dm parse_user_id channel_type_of resolve_dm_platform_id get_user get_user_dm
    upsert_user_dm get_messaging_group get_messaging_group_by_platform
    create_pending_sender_approval get_agent_group
one_card = refl

abbrev request_desk : RequestDesk
request_desk = record {
  env = env;
  adapters = sender_desk.adapters;
  delivers = some true;
  options_json = "[]";
}

abbrev options : RequestApprovalOptions
options = record {
  session = session_a;
  action = "install_packages";
  payload = obj end;
  title = "Install";
  approver_user_id = none;
}

request_approval-Asked_example : Asked office (request_approval request_desk options office)
request_approval-Asked_example = request_approval-Asked request_desk options office
