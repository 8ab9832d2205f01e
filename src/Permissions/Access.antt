-- ===== src/Permissions/Access.antt =====
-- Who may talk to an agent group: src/modules/permissions/access.ts against the tables.
use pocketclaw_telegram.Prelude.{
  String, eq_iff, Bool, true, false, ◌&&◌, ◌||◌, none, some, is_some, is_some-find, any→Memᴰ,
  Memᴰ→any, ◌≡◌, ◌↔◌, inl, inr, arith, Bool-cases, sym, ◌∙◌,
}
use mathlib.Core.List.{Memᴰ}
use pocketclaw_telegram.Types.{User, AgentGroupMember, owner, admin}
use pocketclaw_telegram.Permissions.{
  Permissions, AccessDecision, allowed, denied, get_user, is_owner, is_global_admin,
  is_admin_of_agent_group, has_membership_row, is_member, can_access_agent_group,
}
use pocketclaw_telegram.Permissions.Roles.{
  HasRole, has_global_role_iff, is_admin_of_agent_group_iff,
}

abbrev pub is_allowed : AccessDecision → Bool
is_allowed (allowed reason) = true
is_allowed (denied reason) = false

abbrev pub HasUser : Permissions → String → Type 0
HasUser p user_id = (u : User) × Memᴰ u p.users × (u.id ≡ user_id)

abbrev pub HasMembership : Permissions → String → String → Type 0
HasMembership p user_id group =
    (m : AgentGroupMember) × Memᴰ m p.members × (m.user_id ≡ user_id) × (m.agent_group_id ≡ group)

-- The policy, over the rows of the tables.
pub data MayAccess (p : Permissions) (user_id group : String) : Type 0 where
  as_owner : HasUser p user_id → HasRole p user_id owner none → MayAccess p user_id group
  as_global_admin : HasUser p user_id → HasRole p user_id admin none → MayAccess p user_id group
  as_group_admin :
      HasUser p user_id → HasRole p user_id admin (some group) → MayAccess p user_id group
  as_member : HasUser p user_id → HasMembership p user_id group → MayAccess p user_id group

module _ (p : Permissions) (user_id group : String) where
  get_user_iff : (is_some (get_user p user_id) ≡ true) ↔ HasUser p user_id
  unfolding get_user
  get_user_iff = (
    λ h.
        let (u, m, e) = any→Memᴰ _ p.users (sym (is_some-find _ p.users) ∙ h) in
        (u, m, (eq_iff u.id user_id).0 e),
    λ (u, m, e). is_some-find _ p.users ∙ Memᴰ→any _ m ((eq_iff u.id user_id).1 e),
  )

  has_membership_row_iff :
      (has_membership_row p user_id group ≡ true) ↔ HasMembership p user_id group
  unfolding has_membership_row
  has_membership_row_iff = (
    λ h.
        let (m, mem, e) = any→Memᴰ _ p.members h in
        (
          m,
          mem,
          ground (arith, eq_iff m.user_id user_id),
          ground (arith, eq_iff m.agent_group_id group),
        ),
    λ (m, mem, eu, eg).
        Memᴰ→any _ mem (ground (arith, eq_iff m.user_id user_id, eq_iff m.agent_group_id group)),
  )

  owner_iff : (is_owner p user_id ≡ true) ↔ HasRole p user_id owner none
  unfolding is_owner
  owner_iff = has_global_role_iff p user_id owner

  global_admin_iff : (is_global_admin p user_id ≡ true) ↔ HasRole p user_id admin none
  unfolding is_global_admin
  global_admin_iff = has_global_role_iff p user_id admin

  -- The decision as a disjunction of the four tests.
  abbrev passes : Bool
  passes =
      is_owner p user_id
      || (is_global_admin p user_id
          || (is_admin_of_agent_group p user_id group || has_membership_row p user_id group))

  pub decision_lem :
      is_allowed (can_access_agent_group p user_id group) ≡ (is_some (get_user p user_id) && passes)
  unfolding can_access_agent_group is_member
  decision_lem = ground arith

  allowed→MayAccess :
      is_allowed (can_access_agent_group p user_id group) ≡ true → MayAccess p user_id group
  allowed→MayAccess h =
      let known = get_user_iff.0 (ground (arith, decision_lem)) in
      elim (Bool-cases (is_owner p user_id)) [
        | inl o ↦ as_owner known (owner_iff.0 o)
        | inr o ↦ elim (Bool-cases (is_global_admin p user_id)) [
          | inl a ↦ as_global_admin known (global_admin_iff.0 a)
          | inr a ↦ elim (Bool-cases (is_admin_of_agent_group p user_id group)) [
            | inl s ↦ as_group_admin known ((is_admin_of_agent_group_iff p user_id group).0 s)
            | inr s ↦ as_member known (has_membership_row_iff.0 (ground (arith, decision_lem)))
          ]
        ]
      ]

  MayAccess→allowed :
      MayAccess p user_id group → is_allowed (can_access_agent_group p user_id group) ≡ true
  MayAccess→allowed (as_owner u r) = ground (arith, decision_lem, get_user_iff.1 u, owner_iff.1 r)
  MayAccess→allowed (as_global_admin u r) =
      ground (arith, decision_lem, get_user_iff.1 u, global_admin_iff.1 r)
  MayAccess→allowed (as_group_admin u r) =
      ground
        (arith, decision_lem, get_user_iff.1 u, (is_admin_of_agent_group_iff p user_id group).1 r)
  MayAccess→allowed (as_member u m) =
      ground (arith, decision_lem, get_user_iff.1 u, has_membership_row_iff.1 m)

-- `canAccessAgentGroup` allows exactly the users that have a row in `users` and, besides, a global
-- owner row, a global admin row, an admin row for this very group or a membership row in it.
pub can_access_iff :
    (p : Permissions) (user_id group : String)
    → (is_allowed (can_access_agent_group p user_id group) ≡ true) ↔ MayAccess p user_id group
can_access_iff p user_id group =
    (allowed→MayAccess p user_id group, MayAccess→allowed p user_id group)
