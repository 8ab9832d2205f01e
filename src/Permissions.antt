-- ===== src/Permissions.antt =====
-- The permissions module: src/modules/permissions/db/user-roles.ts, db/agent-group-members.ts,
-- db/users.ts and access.ts. The tables are lists of rows, oldest insert first; each SELECT, INSERT
-- and DELETE is a function over them, with the primary and foreign keys of src/db/schema.ts.
pub mod Roles
pub mod Grants
pub mod Access
mod Examples
use pocketclaw_telegram.Prelude.{
  String, ◌==◌, Bool, true, false, not, ◌&&◌, ◌||◌, Option, none, some, List, [], ◌∷◌, ◌++◌, any,
  select, find, if◌then◌else◌, is_some, is_none, is_text,
}
use pocketclaw_telegram.Types.{User, UserRole, UserRoleKind, owner, admin, AgentGroupMember}

-- The three tables of the module. `agent_group_ids` are the keys of the core table `agent_groups`,
-- to which the others refer.
pub record Permissions : Type 0 where
  pub users : List User
  pub user_roles : List UserRole
  pub members : List AgentGroupMember
  pub agent_group_ids : List String

pub data RoleError : Type 0 where
  owner_must_be_global unique_violation foreign_key_violation : RoleError

pub data Result {ℓ} (A : Type ℓ) : Type ℓ where
  ok : A → Result A
  err : RoleError → Result A

abbrev pub is_role : UserRoleKind → UserRoleKind → Bool
is_role owner owner = true
is_role admin admin = true
is_role _ _ = false

module _ (p : Permissions) where
  unfoldable pub get_user : String → Option User
  get_user user_id = find (λ u. u.id == user_id) p.users

  -- `SELECT 1 … WHERE user_id = ? AND role = ? AND agent_group_id IS NULL`
  unfoldable pub has_global_role : UserRoleKind → String → Bool
  has_global_role role user_id =
      any (λ r. r.user_id == user_id && is_role r.role role && is_none r.agent_group_id)
        p.user_roles

  unfoldable pub is_owner : String → Bool
  unfolding has_global_role
  is_owner user_id = has_global_role owner user_id

  unfoldable pub is_global_admin : String → Bool
  unfolding has_global_role
  is_global_admin user_id = has_global_role admin user_id

  unfoldable pub is_admin_of_agent_group : String → String → Bool
  is_admin_of_agent_group user_id group =
      any (λ r. r.user_id == user_id && is_role r.role admin && is_text r.agent_group_id group)
        p.user_roles

  unfoldable pub has_admin_privilege : String → String → Bool
  has_admin_privilege user_id group =
      is_owner user_id || is_global_admin user_id || is_admin_of_agent_group user_id group

  unfoldable pub has_any_owner : Bool
  has_any_owner = any (λ r. is_role r.role owner && is_none r.agent_group_id) p.user_roles

  unfoldable pub has_membership_row : String → String → Bool
  has_membership_row user_id group =
      any (λ m. m.user_id == user_id && m.agent_group_id == group) p.members

  unfoldable pub is_member : String → String → Bool
  is_member user_id group =
      if is_owner user_id || is_global_admin user_id || is_admin_of_agent_group user_id group
      then true
      else has_membership_row user_id group

-- A row whose primary key (user_id, role, agent_group_id) is that of another. SQLite holds no two
-- NULLs equal, so a global grant never collides.
abbrev pub same_role_key : UserRole → UserRole → Bool
same_role_key r s = elim s.agent_group_id [
  | none ↦ false
  | some group ↦ r.user_id == s.user_id && is_role r.role s.role && is_text r.agent_group_id group
]

-- A nullable column that refers to a key of a table.
abbrev pub refers : (String → Bool) → Option String → Bool
refers exists none = true
refers exists (some key) = exists key

abbrev pub has_user : Permissions → String → Bool
has_user p user_id = any (λ u. u.id == user_id) p.users

abbrev pub has_group : Permissions → String → Bool
has_group p group = any (λ g. g == group) p.agent_group_ids

-- The `INSERT` of `grantRole` against the table's constraints.
abbrev insert_role : Permissions → UserRole → Result Permissions
insert_role p row =
    if any (λ r. same_role_key r row) p.user_roles
    then err unique_violation
    else if has_user p row.user_id
        && refers (has_group p) row.agent_group_id
        && refers (has_user p) row.granted_by
    then ok (record p { user_roles = p.user_roles ++ row ∷ [] })
    else err foreign_key_violation

unfoldable pub grant_role : Permissions → UserRole → Result Permissions
grant_role p row =
    if is_role row.role owner && is_some row.agent_group_id
    then err owner_must_be_global
    else insert_role p row

-- The rows that `revokeRole` deletes.
abbrev pub revokes : String → UserRoleKind → Option String → UserRole → Bool
revokes user_id role none r =
    r.user_id == user_id && is_role r.role role && is_none r.agent_group_id
revokes user_id role (some group) r =
    r.user_id == user_id && is_role r.role role && is_text r.agent_group_id group

unfoldable pub revoke_role : Permissions → String → UserRoleKind → Option String → Permissions
revoke_role p user_id role group = record p {
  user_roles = select (λ r. not (revokes user_id role group r)) p.user_roles;
}

abbrev same_member_key : AgentGroupMember → AgentGroupMember → Bool
same_member_key m n = m.user_id == n.user_id && m.agent_group_id == n.agent_group_id

-- `INSERT OR IGNORE`: a duplicate key is skipped, a dangling reference still throws.
unfoldable pub add_member : Permissions → AgentGroupMember → Result Permissions
add_member p row =
    if any (λ m. same_member_key m row) p.members
    then ok p
    else if has_user p row.user_id
        && has_group p row.agent_group_id
        && refers (has_user p) row.added_by
    then ok (record p { members = p.members ++ row ∷ [] })
    else err foreign_key_violation

unfoldable pub remove_member : Permissions → String → String → Permissions
remove_member p user_id group = record p {
  members = select (λ m. not (m.user_id == user_id && m.agent_group_id == group)) p.members;
}

pub data Reason : Type 0 where
  by_owner by_global_admin by_admin_of_group by_member : Reason

pub data Denial : Type 0 where
  unknown_user not_member : Denial

pub data AccessDecision : Type 0 where
  allowed : Reason → AccessDecision
  denied : Denial → AccessDecision

unfoldable pub can_access_agent_group : Permissions → String → String → AccessDecision
can_access_agent_group p user_id group =
    if not (is_some (get_user p user_id))
    then denied unknown_user
    else if is_owner p user_id
    then allowed by_owner
    else if is_global_admin p user_id
    then allowed by_global_admin
    else if is_admin_of_agent_group p user_id group
    then allowed by_admin_of_group
    else if is_member p user_id group
    then allowed by_member
    else denied not_member
