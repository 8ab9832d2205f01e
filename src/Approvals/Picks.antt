-- ===== src/Approvals/Picks.antt =====
-- Whom `pickApprover` of src/modules/approvals/primitive.ts picks.
use pocketclaw_telegram.Approvals.{
  pick_approver, add_users, add_new, is_among, by_grant, insert_by_grant, get_owners,
  get_global_admins, group_admins, get_admins_of_agent_group, owner, admin,
}
use pocketclaw_telegram.Prelude.{
  List, String, ◌∷◌, Bool, ◌≡◌, ◌==◌, false, any, ◌||◌, [], arith, ◌∙◌, select, some, ap, ◌&&◌,
  refl, true, ◌++◌, Bool-cases, eq_iff, subst, any-append, inl, sym, inr, is_none, is_text,
}
use pocketclaw_telegram.Types.{UserRole}
use pocketclaw_telegram.Permissions.{
  Permissions, has_admin_privilege, is_owner, is_global_admin, has_global_role,
  is_admin_of_agent_group, is_role,
}

-- No id stands twice.
abbrev pub AllDistinct : List String → Type 0
AllDistinct [] = Unit {0}
AllDistinct (x ∷ xs) = (is_among x xs ≡ false) × AllDistinct xs

module _ (q : UserRole → Bool) where
  any-insert_by_grant :
      (r : UserRole) (rs : List UserRole) → any q (insert_by_grant r rs) ≡ (q r || any q rs)
  any-insert_by_grant r [] = refl
  any-insert_by_grant r (x ∷ xs) = let rest = any-insert_by_grant r xs in ground arith

  any-by_grant : (rs : List UserRole) → any q (by_grant rs) ≡ any q rs
  any-by_grant [] = refl
  any-by_grant (r ∷ rs) = any-insert_by_grant r (by_grant rs) ∙ ap (λ b. q r || b) (any-by_grant rs)

  any-select_and :
      (a b : UserRole → Bool) (rs : List UserRole)
      → any q (select (λ r. a r && b r) rs) ≡ any (λ r. q r && a r && b r) rs
  any-select_and a b [] = refl
  any-select_and a b (r ∷ rs) = let rest = any-select_and a b rs in ground arith

same_sym : (a b : String) → (a == b) ≡ true → (b == a) ≡ true
same_sym a b e = (eq_iff b a).1 (sym ((eq_iff a b).0 e))

is_among-add_new :
    (u id : String) (ids : List String) → is_among u (add_new id ids) ≡ (is_among u ids || id == u)
is_among-add_new u id ids = elim (Bool-cases (is_among id ids)) [
  | inl e ↦ rw e (by_same (id == u) refl e)
  | inr e ↦ rw e (any-append (λ i. i == u) ids (id ∷ []) ∙ ground arith)
]
  where
    by_same :
        (b : Bool) → (id == u) ≡ b → is_among id ids ≡ true → is_among u ids ≡ (is_among u ids || b)
    by_same false same e = ground arith
    by_same true same e =
        let there : is_among u ids ≡ true =
          subst (λ i. is_among i ids ≡ true) ((eq_iff id u).0 same) e in
        ground arith

AllDistinct-append :
    (id : String) (ids : List String)
    → AllDistinct ids
    → is_among id ids ≡ false
    → AllDistinct (ids ++ id ∷ [])
AllDistinct-append id [] d e = (refl, tt)
AllDistinct-append id (x ∷ xs) d e = (
  any-append (λ i. i == x) xs (id ∷ []) ∙ ground (arith, d.0, same_sym id x),
  AllDistinct-append id xs d.1 (ground arith),
)

is_among-add_users :
    (u : String) (rs : List UserRole) (ids : List String)
    → is_among u (add_users rs ids) ≡ (is_among u ids || any (λ r. r.user_id == u) rs)
is_among-add_users u [] ids = ground arith
is_among-add_users u (r ∷ rs) ids =
    is_among-add_users u rs (add_new r.user_id ids)
    ∙ ap (λ b. b || any (λ x. x.user_id == u) rs) (is_among-add_new u r.user_id ids)
    ∙ ground arith

AllDistinct-add_new :
    (id : String) (ids : List String) → AllDistinct ids → AllDistinct (add_new id ids)
AllDistinct-add_new id ids d = elim (Bool-cases (is_among id ids)) [
  | inl e ↦ rw e d
  | inr e ↦ rw e (AllDistinct-append id ids d e)
]

AllDistinct-add_users :
    (rs : List UserRole) (ids : List String) → AllDistinct ids → AllDistinct (add_users rs ids)
AllDistinct-add_users [] ids d = d
AllDistinct-add_users (r ∷ rs) ids d =
    AllDistinct-add_users rs (add_new r.user_id ids) (AllDistinct-add_new r.user_id ids d)

any-picked :
    (a b : UserRole → Bool) (u : String) (rs : List UserRole)
    → any (λ r. r.user_id == u) (by_grant (select (λ r. a r && b r) rs))
      ≡ any (λ r. r.user_id == u && a r && b r) rs
any-picked a b u rs =
    any-by_grant (λ r. r.user_id == u) (select (λ r. a r && b r) rs)
    ∙ any-select_and (λ r. r.user_id == u) a b rs

owners_lem :
    (p : Permissions) (u : String) → any (λ r. r.user_id == u) (get_owners p) ≡ is_owner p u
unfolding get_owners is_owner has_global_role
owners_lem p u =
    any-picked (λ r. is_role r.role owner) (λ r. is_none r.agent_group_id) u p.user_roles

global_admins_lem :
    (p : Permissions) (u : String)
    → any (λ r. r.user_id == u) (get_global_admins p) ≡ is_global_admin p u
unfolding get_global_admins is_global_admin has_global_role
global_admins_lem p u =
    any-picked (λ r. is_role r.role admin) (λ r. is_none r.agent_group_id) u p.user_roles

group_admins_lem :
    (p : Permissions) (group u : String)
    → (group == "") ≡ false
    → any (λ r. r.user_id == u) (group_admins p (some group)) ≡ is_admin_of_agent_group p u group
unfolding get_admins_of_agent_group is_admin_of_agent_group
group_admins_lem p group u named =
    rw named
      (any-picked (λ r. is_role r.role admin) (λ r. is_text r.agent_group_id group) u p.user_roles)

-- The approvers of an agent group are exactly the users that have a global owner or admin row or an
-- admin row for the group, and none of them is listed twice; for a group whose id is not empty.
pub pick_approver_lem :
    (p : Permissions) (group : String)
    → (group == "") ≡ false
    → AllDistinct (pick_approver p (some group))
      × ((u : String) → is_among u (pick_approver p (some group)) ≡ has_admin_privilege p u group)
unfolding pick_approver has_admin_privilege
pick_approver_lem p group named = (
  AllDistinct-add_users (get_owners p) _ (
      AllDistinct-add_users (get_global_admins p) _
        (AllDistinct-add_users (group_admins p (some group)) [] tt)),
  λ u.
      let admins = add_users (group_admins p (some group)) [] in
      let last = is_among-add_users u (get_owners p) (add_users (get_global_admins p) admins) in
      let middle = is_among-add_users u (get_global_admins p) admins in
      let first = is_among-add_users u (group_admins p (some group)) [] in
      last
      ∙ by_three middle first (owners_lem p u) (global_admins_lem p u)
          (group_admins_lem p group u named),
)
  where
    by_three :
        {m f o g a x y z : Bool}
        → m ≡ (f || g)
        → f ≡ (false || a)
        → o ≡ x
        → g ≡ y
        → a ≡ z
        → (m || o) ≡ (x || y || z)
    by_three hm hf ho hg ha = ground arith
