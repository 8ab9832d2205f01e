-- ===== src/Approvals.antt =====
-- Approvals: who may approve, how an approver is reached, and what a click on a card does.
-- src/modules/approvals/primitive.ts, src/modules/permissions/user-dm.ts, the statements on
-- pending_approvals of src/db/sessions.ts and those of permissions/db/user-dms.ts.
pub mod Picks
pub mod Response
pub mod Reach
pub mod Request
pub mod Sender
mod Examples
use Prim.Native.String
use pocketclaw_telegram.Prelude.{
  String, List, Option, ℕ, ◌∷◌, select, Bool, if◌then◌else◌, ltb, any, ◌++◌, [], ◌==◌, some, ◌&&◌,
  none, is_none, is_text,
}
use pocketclaw_telegram.Types.{Session, UserRole, owner, admin}
use pocketclaw_telegram.Json.{Json}
use pocketclaw_telegram.World.{ok, World, Ran, threw}
use pocketclaw_telegram.Permissions.{Permissions, ok, is_role}

-- A row of `pending_approvals`; the columns that no code of the modelled parts reads are left out.
pub record PendingApproval : Type 0 where
  pub approval_id : String
  pub session_id : Option String
  pub request_id : String
  pub action : String
  pub payload : String
  pub created_at : ℕ
  pub agent_group_id : Option String
  pub title : String
  pub options_json : String
  pub approver_user_id : Option String

-- A row of `user_dms`.
pub record UserDm : Type 0 where
  pub user_id : String
  pub channel_type : String
  pub messaging_group_id : String
  pub resolved_at : ℕ

-- A row of `pending_sender_approvals`.
pub record PendingSenderApproval : Type 0 where
  pub id : String
  pub messaging_group_id : String
  pub agent_group_id : String
  pub sender_identity : String
  pub sender_name : Option String
  pub original_message : String
  pub approver_user_id : String
  pub created_at : ℕ
  pub title : String
  pub options_json : String

-- A call of the delivery adapter with a card.
pub record Card : Type 0 where
  pub channel_type : String
  pub platform_id : String
  pub question_id : String

pub data ClickOutcome : Type 0 where
  approve reject : ClickOutcome

-- What is asked of `requestApproval`; the texts that only the card shows are left out.
pub record RequestApprovalOptions : Type 0 where
  pub session : Session
  pub action : String
  pub payload : Json
  pub title : String
  pub approver_user_id : Option String

-- What the registered callbacks are told.
pub record ApprovalResolvedEvent : Type 0 where
  pub approval : PendingApproval
  pub session : Session
  pub outcome : ClickOutcome
  pub user_id : String

-- `onecli` has the ids that a promise of onecli-approvals.ts waits for.
pub record Office : Type 0 where
  pub world : World
  pub approvals : List PendingApproval
  pub sender_approvals : List PendingSenderApproval
  pub user_dms : List UserDm
  pub cards : List Card
  pub resolved : List ApprovalResolvedEvent
  pub onecli : List String

pub data Ended {ℓ} (A : Type ℓ) : Type ℓ where
  ended : A → Office → Ended A
  broke : Office → Ended A

abbrev pub P : Type 0 → Type 0
P A = Office → Ended A

abbrev pub then_do {ℓ κ} : {A : Type ℓ} {B : Type κ} → Ended A → (A → Office → Ended B) → Ended B
then_do (ended a o) f = f a o
then_do (broke o) f = broke o

-- A step of the central database and the sessions.
abbrev pub lifted {ℓ} : {A : Type ℓ} → Office → Ran A → Ended A
lifted o (ok a w) = ended a (record o { world = w })
lifted o (threw w) = broke (record o { world = w })

-- `ORDER BY granted_at`
abbrev pub insert_by_grant : UserRole → List UserRole → List UserRole
insert_by_grant r [] = r ∷ []
insert_by_grant r (x ∷ xs) =
    if ltb x.granted_at r.granted_at then x ∷ insert_by_grant r xs else r ∷ x ∷ xs

abbrev pub by_grant : List UserRole → List UserRole
by_grant [] = []
by_grant (r ∷ rs) = insert_by_grant r (by_grant rs)

module _ (p : Permissions) where
  unfoldable pub get_owners : List UserRole
  get_owners =
      by_grant (select (λ r. is_role r.role owner && is_none r.agent_group_id) p.user_roles)

  unfoldable pub get_global_admins : List UserRole
  get_global_admins =
      by_grant (select (λ r. is_role r.role admin && is_none r.agent_group_id) p.user_roles)

  unfoldable pub get_admins_of_agent_group : String → List UserRole
  get_admins_of_agent_group group =
      by_grant (select (λ r. is_role r.role admin && is_text r.agent_group_id group) p.user_roles)

abbrev pub is_among : String → List String → Bool
is_among id = any (λ i. i == id)

-- `add` of `pickApprover`: an id that was seen is not added again.
abbrev pub add_new : String → List String → List String
add_new id ids = if is_among id ids then ids else ids ++ id ∷ []

abbrev pub add_users : List UserRole → List String → List String
add_users [] ids = ids
add_users (r ∷ rs) ids = add_users rs (add_new r.user_id ids)

abbrev pub group_admins : Permissions → Option String → List UserRole
group_admins p none = []
group_admins p (some group) = if group == "" then [] else get_admins_of_agent_group p group

unfoldable pub pick_approver : Permissions → Option String → List String
pick_approver p group =
    add_users (get_owners p) (add_users (get_global_admins p) (add_users (group_admins p group) []))
