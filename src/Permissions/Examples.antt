-- ===== src/Permissions/Examples.antt =====
-- The permissions module at a concrete table.
use pocketclaw_telegram.Prelude.{true, none, some, [], ◌∷◌, ◌≡◌, refl, ◌↔◌}
use pocketclaw_telegram.Types.{UserRole, User, owner, AgentGroupMember}
use pocketclaw_telegram.Permissions.{
  Permissions, ok, err, owner_must_be_global, grant_role, can_access_agent_group, is_owner,
  is_global_admin, is_admin_of_agent_group, has_membership_row, allowed, by_member, get_user,
  is_member,
}
use pocketclaw_telegram.Permissions.Grants.{grant, revoke, OwnersGlobal, run, run-OwnersGlobal}
use pocketclaw_telegram.Permissions.Access.{MayAccess, is_allowed, can_access_iff}

abbrev alice : User
alice = record { id = "tg:1"; kind = "telegram"; display_name = none; created_at = 1 }

abbrev owner_row : UserRole
owner_row = record {
  user_id = "tg:1";
  role = owner;
  agent_group_id = none;
  granted_by = none;
  granted_at = 2;
}

abbrev scoped_owner : UserRole
scoped_owner = record owner_row { agent_group_id = some "ag-1" }

abbrev bob_member : AgentGroupMember
bob_member = record {
  user_id = "tg:2";
  agent_group_id = "ag-1";
  added_by = some "tg:1";
  added_at = 3;
}

abbrev fresh : Permissions
fresh = record {
  users = alice ∷ record alice { id = "tg:2" } ∷ [];
  user_roles = [];
  members = bob_member ∷ [];
  agent_group_ids = "ag-1" ∷ [];
}

abbrev owned : Permissions
owned = record fresh { user_roles = owner_row ∷ [] }

granted : grant_role fresh owner_row ≡ ok owned
unfolding grant_role
granted = refl

scoped_refused : grant_role fresh scoped_owner ≡ err owner_must_be_global
unfolding grant_role
scoped_refused = refl

bob_allowed : can_access_agent_group owned "tg:2" "ag-1" ≡ allowed by_member
unfolding can_access_agent_group is_member get_user is_owner is_global_admin is_admin_of_agent_group
    has_membership_row
bob_allowed = refl

can_access_iff_example :
    (is_allowed (can_access_agent_group owned "tg:2" "ag-1") ≡ true) ↔ MayAccess owned "tg:2" "ag-1"
can_access_iff_example = can_access_iff owned "tg:2" "ag-1"

run-OwnersGlobal_example :
    OwnersGlobal (run fresh (grant owner_row ∷ grant scoped_owner ∷ revoke "tg:1" owner none ∷ []))
run-OwnersGlobal_example = run-OwnersGlobal fresh _ tt
