-- ===== src/Permissions/Grants.antt =====
-- What the mutations of src/modules/permissions/db/user-roles.ts do to the table of roles.
use pocketclaw_telegram.Prelude.{
  String, ◌==◌, eq_iff, Bool, true, false, not, ◌&&◌, ◌||◌, Option, none, some, List, [], ◌∷◌, ◌++◌,
  any, any-append, select, is_none, is_text, is_some, All, All-append, All-select, if◌then◌else◌,
  ◌≡◌, refl, inl, inr, arith, Bool-cases, ◌∙◌, ap,
}
use pocketclaw_telegram.Types.{UserRole, UserRoleKind, owner}
use pocketclaw_telegram.Permissions.{
  Permissions, Result, ok, err, is_role, grant_role, revokes, revoke_role,
}
use pocketclaw_telegram.Permissions.Roles.{is_role_iff, is_none_iff, is_text_iff}

-- An owner row is global.
abbrev pub IsGlobalOwner : UserRole → Type 0
IsGlobalOwner r = r.role ≡ owner → r.agent_group_id ≡ none

abbrev pub OwnersGlobal : Permissions → Type 0
OwnersGlobal p = All IsGlobalOwner p.user_roles

row_of_guard :
    (row : UserRole)
    → (is_role row.role owner && is_some row.agent_group_id) ≡ false
    → IsGlobalOwner row
row_of_guard row h e = ground (arith, is_role_iff row.role owner)

grant_role-ok :
    (p q : Permissions) (row : UserRole)
    → grant_role p row ≡ ok q
    → ((is_role row.role owner && is_some row.agent_group_id) ≡ false)
      × (q ≡ record p { user_roles = p.user_roles ++ row ∷ [] })
unfolding grant_role
grant_role-ok p q row h = ground arith

grant_role-OwnersGlobal :
    (p q : Permissions) (row : UserRole) → OwnersGlobal p → grant_role p row ≡ ok q → OwnersGlobal q
grant_role-OwnersGlobal p q row v h =
    let (guard, e) = grant_role-ok p q row h in
    rw e (All-append IsGlobalOwner p.user_roles (row ∷ []) v (row_of_guard row guard, tt))

revoke_role-OwnersGlobal :
    (p : Permissions) (user_id : String) (role : UserRoleKind) (group : Option String)
    → OwnersGlobal p
    → OwnersGlobal (revoke_role p user_id role group)
unfolding revoke_role
revoke_role-OwnersGlobal p user_id role group v = All-select IsGlobalOwner _ p.user_roles v

-- The mutations of the table, and a history of them; a grant that throws changes nothing.
pub data RoleCall : Type 0 where
  grant : UserRole → RoleCall
  revoke : String → UserRoleKind → Option String → RoleCall

abbrev pub after : Permissions → Result Permissions → Permissions
after p (ok q) = q
after p (err e) = p

unfoldable pub apply : Permissions → RoleCall → Permissions
apply p (grant row) = after p (grant_role p row)
apply p (revoke user_id role group) = revoke_role p user_id role group

unfoldable pub run : Permissions → List RoleCall → Permissions
run p [] = p
run p (c ∷ cs) = run (apply p c) cs

apply-OwnersGlobal : (p : Permissions) (c : RoleCall) → OwnersGlobal p → OwnersGlobal (apply p c)
unfolding apply
apply-OwnersGlobal p (grant row) v = granted (grant_role p row) refl
  where
    granted : (r : Result Permissions) → grant_role p row ≡ r → OwnersGlobal (after p r)
    granted (ok q) e = grant_role-OwnersGlobal p q row v e
    granted (err x) e = v
apply-OwnersGlobal p (revoke user_id role group) v = revoke_role-OwnersGlobal p user_id role group v

-- After any sequence of grants and revocations, refused ones included, that starts from a table in
-- which every owner row is global, every owner row is global.
pub run-OwnersGlobal :
    (p : Permissions) (cs : List RoleCall) → OwnersGlobal p → OwnersGlobal (run p cs)
unfolding run
run-OwnersGlobal p [] v = v
run-OwnersGlobal p (c ∷ cs) v = run-OwnersGlobal (apply p c) cs (apply-OwnersGlobal p c v)

any-select :
    (test drop : UserRole → Bool) (rs : List UserRole)
    → any test (select (λ r. not (drop r)) rs) ≡ any (λ r. test r && not (drop r)) rs
any-select test drop [] = refl
any-select test drop (r ∷ rs) = ground (arith, any-select test drop rs)

any_congr :
    (f g : UserRole → Bool)
    → ((r : UserRole) → f r ≡ g r)
    → (rs : List UserRole) → any f rs ≡ any g rs
any_congr f g h [] = refl
any_congr f g h (r ∷ rs) = ground (arith, h r, any_congr f g h rs)

any_never : (rs : List UserRole) → any (λ r. false) rs ≡ false
any_never [] = refl
any_never (r ∷ rs) = any_never rs

-- Whether a row of the table is the grant of `role` to the user at the scope.
abbrev pub grants : String → UserRoleKind → Option String → UserRole → Bool
grants user_id role scope r = revokes user_id role scope r

abbrev pub has_role : Permissions → String → UserRoleKind → Option String → Bool
has_role p user_id role scope = any (grants user_id role scope) p.user_roles

abbrev same_scope : Option String → Option String → Bool
same_scope none t = is_none t
same_scope (some a) t = is_text t a

abbrev pub same_grant :
    String → UserRoleKind → Option String → String → UserRoleKind → Option String → Bool
same_grant u role scope v role' scope' = u == v && is_role role role' && same_scope scope scope'

-- One row, looked at for the grant (v, role', scope') after (u, role, scope) was revoked.
row_after :
    (u v : String) (role role' : UserRoleKind) (scope scope' : Option String) (r : UserRole)
    → (grants v role' scope' r && not (revokes u role scope r))
      ≡ (if same_grant u role scope v role' scope' then false else grants v role' scope' r)
row_after u v role role' none none r = ground (
  arith,
  eq_iff r.user_id u,
  eq_iff r.user_id v,
  eq_iff u v,
  is_role_iff r.role role,
  is_role_iff r.role role',
  is_role_iff role role',
)
row_after u v role role' none (some h) r =
    ground (arith, is_none_iff r.agent_group_id, is_text_iff r.agent_group_id h)
row_after u v role role' (some g) none r =
    ground (arith, is_none_iff r.agent_group_id, is_text_iff r.agent_group_id g)
row_after u v role role' (some g) (some h) r = ground (
  arith,
  eq_iff r.user_id u,
  eq_iff r.user_id v,
  eq_iff u v,
  is_role_iff r.role role,
  is_role_iff r.role role',
  is_role_iff role role',
  is_text_iff r.agent_group_id g,
  is_text_iff r.agent_group_id h,
  eq_iff h g,
)

-- A revocation takes away the grant that it names, however often the table holds it, and no other:
-- every user, role and scope is looked up as before.
pub has_role-revoke_role :
    (p : Permissions) (u v : String) (role role' : UserRoleKind) (scope scope' : Option String)
    → has_role (revoke_role p u role scope) v role' scope'
      ≡ (if same_grant u role scope v role' scope' then false else has_role p v role' scope')
unfolding revoke_role
has_role-revoke_role p u v role role' scope scope' =
    any-select (grants v role' scope') (revokes u role scope) p.user_roles
    ∙ any_congr _ _ (row_after u v role role' scope scope') p.user_roles
    ∙ outside (same_grant u role scope v role' scope')
  where
    outside :
        (b : Bool)
        → any (λ r. if b then false else grants v role' scope' r) p.user_roles
          ≡ (if b then false else has_role p v role' scope')
    outside true = any_never p.user_roles
    outside false = refl

-- The new row, looked at for the grant (v, role, scope).
row_granted :
    (row : UserRole) (v : String) (role : UserRoleKind) (scope : Option String)
    → grants v role scope row ≡ same_grant row.user_id row.role row.agent_group_id v role scope
row_granted row v role none = elim (Bool-cases (is_none row.agent_group_id)) [
  | inl e ↦ rw ((is_none_iff row.agent_group_id).0 e) refl
  | inr e ↦ some_scope row.agent_group_id e
]
  where
    some_scope :
        (o : Option String)
        → is_none o ≡ false
        → (row.user_id == v && is_role row.role role && is_none o)
          ≡ (row.user_id == v && is_role row.role role && same_scope o none)
    some_scope none h = cc
    some_scope (some a) h = refl
row_granted row v role (some g) = scoped row.agent_group_id
  where
    scoped :
        (o : Option String)
        → (row.user_id == v && is_role row.role role && is_text o g)
          ≡ (row.user_id == v && is_role row.role role && same_scope o (some g))
    scoped none = refl
    scoped (some a) = ground (arith, eq_iff a g, eq_iff g a)

-- A grant that is accepted adds the grant that its row names, and no other.
pub has_role-grant_role :
    (p q : Permissions) (row : UserRole) (v : String) (role : UserRoleKind) (scope : Option String)
    → grant_role p row ≡ ok q
    → has_role q v role scope
      ≡ (has_role p v role scope || same_grant row.user_id row.role row.agent_group_id v role scope)
has_role-grant_role p q row v role scope h =
    let (_, e) = grant_role-ok p q row h in
    rw e (
      any-append (grants v role scope) p.user_roles (row ∷ [])
      ∙ ap (◌||◌ (has_role p v role scope)) (last (row_granted row v role scope)))
  where
    last : {b : Bool} → grants v role scope row ≡ b → (grants v role scope row || false) ≡ b
    last e = ground arith
