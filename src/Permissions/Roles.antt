-- ===== src/Permissions/Roles.antt =====
-- What the role queries of src/modules/permissions/db/user-roles.ts answer, read off the table.
use pocketclaw_telegram.Prelude.{
  String, eq_iff, true, Option, none, some, any→Memᴰ, Memᴰ→any, is_none, is_text, ◌≡◌, refl, ◌↔◌,
  arith,
}
use mathlib.Core.List.{Memᴰ}
use pocketclaw_telegram.Types.{UserRole, UserRoleKind, owner, admin}
use pocketclaw_telegram.Permissions.{Permissions, is_role, has_global_role, is_admin_of_agent_group}

pub is_role_iff : (a b : UserRoleKind) → (is_role a b ≡ true) ↔ (a ≡ b)
is_role_iff owner owner = (λ h. refl, λ h. refl)
is_role_iff owner admin = (λ h. cc, λ h. cc)
is_role_iff admin owner = (λ h. cc, λ h. cc)
is_role_iff admin admin = (λ h. refl, λ h. refl)

pub is_none_iff {ℓ} : {A : Type ℓ} (o : Option A) → (is_none o ≡ true) ↔ (o ≡ none)
is_none_iff none = (λ h. refl, λ h. refl)
is_none_iff (some a) = (λ h. cc, λ h. cc)

pub is_text_iff : (o : Option String) (t : String) → (is_text o t ≡ true) ↔ (o ≡ some t)
is_text_iff none t = (λ h. cc, λ h. cc)
is_text_iff (some s) t = ground (arith, eq_iff s t)

-- The table has the grant of `role` to the user at the scope; no scope is the global grant.
abbrev pub HasRole : Permissions → String → UserRoleKind → Option String → Type 0
HasRole p user_id role scope =
    (r : UserRole) × Memᴰ r p.user_roles
    × (r.user_id ≡ user_id)
    × (r.role ≡ role)
    × (r.agent_group_id ≡ scope)

module _ (p : Permissions) (user_id : String) where
  pub has_global_role_iff :
      (role : UserRoleKind) → (has_global_role p role user_id ≡ true) ↔ HasRole p user_id role none
  unfolding has_global_role
  has_global_role_iff role = (
    λ h.
        let (r, m, e) = any→Memᴰ _ p.user_roles h in
        (
          r,
          m,
          ground (arith, eq_iff r.user_id user_id),
          ground (arith, is_role_iff r.role role),
          ground (arith, is_none_iff r.agent_group_id),
        ),
    λ (r, m, eu, er, eg). Memᴰ→any _ m (
        ground
          (arith, eq_iff r.user_id user_id, is_role_iff r.role role, is_none_iff r.agent_group_id)),
  )

  pub is_admin_of_agent_group_iff :
      (group : String)
      → (is_admin_of_agent_group p user_id group ≡ true) ↔ HasRole p user_id admin (some group)
  unfolding is_admin_of_agent_group
  is_admin_of_agent_group_iff group = (
    λ h.
        let (r, m, e) = any→Memᴰ _ p.user_roles h in
        (
          r,
          m,
          ground (arith, eq_iff r.user_id user_id),
          ground (arith, is_role_iff r.role admin),
          ground (arith, is_text_iff r.agent_group_id group),
        ),
    λ (r, m, eu, er, eg). Memᴰ→any _ m (
        ground (
          arith,
          eq_iff r.user_id user_id,
          is_role_iff r.role admin,
          is_text_iff r.agent_group_id group,
        )),
  )
