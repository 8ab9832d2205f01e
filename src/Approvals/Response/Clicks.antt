-- ===== src/Approvals/Response/Clicks.antt =====
-- What a click on an approval card changes, and who may make it:
-- src/modules/approvals/response-handler.ts.
use pocketclaw_telegram.Approvals.{ended, Ended, Office, PendingApproval, broke, owner, admin}
use pocketclaw_telegram.Permissions.Roles.{
  HasRole, has_global_role_iff, is_admin_of_agent_group_iff,
}
use pocketclaw_telegram.Approvals.Response.{
  handle_approvals_response, is_authorized_approval_click, Desk, truthy, may_click, ResponsePayload,
  approval_group, get_pending_approval, has_privilege_for, namespaced_user_id, on_approval,
}
use pocketclaw_telegram.Prelude.{
  String, ◌≡◌, some, none, true, ◌⊎◌, ◌||◌, Option, Bool-cases, Bool, inl, ◌==◌, inr, arith, ◌∙◌,
  refl, ap, sym, eq_iff,
}
use pocketclaw_telegram.Permissions.{is_owner, has_admin_privilege, is_global_admin}

abbrev pub office_of {ℓ} : {A : Type ℓ} → Ended A → Office
office_of (ended a o) = o
office_of (broke o) = o

-- Who may settle an approval: the user that its row names; and where it names none, an owner, a
-- global admin, or an admin of the group that it belongs to.
pub data MayResolve (o : Office) (approval : PendingApproval) (user : String) : Type 0 where
  as_named : truthy approval.approver_user_id ≡ some user → MayResolve o approval user
  as_owner :
      truthy approval.approver_user_id ≡ none
      → HasRole o.world.permissions user owner none
      → MayResolve o approval user
  as_global_admin :
      truthy approval.approver_user_id ≡ none
      → HasRole o.world.permissions user admin none
      → MayResolve o approval user
  as_group_admin :
      (group : String)
      → truthy approval.approver_user_id ≡ none
      → truthy (approval_group o approval) ≡ some group
      → HasRole o.world.permissions user admin (some group)
      → MayResolve o approval user

module _ (o : Office) (approval : PendingApproval) (user : String) where
  global-MayResolve :
      truthy approval.approver_user_id ≡ none
      → (is_owner o.world.permissions user || is_global_admin o.world.permissions user) ≡ true
      → MayResolve o approval user
  unfolding is_owner is_global_admin
  global-MayResolve free h = elim (Bool-cases (is_owner o.world.permissions user)) [
    | inl e ↦ as_owner free ((has_global_role_iff o.world.permissions user owner).0 e)
    | inr e ↦
        as_global_admin free ((has_global_role_iff o.world.permissions user admin).0 (ground arith))
  ]

  group-MayResolve :
      (group : String)
      → truthy approval.approver_user_id ≡ none
      → truthy (approval_group o approval) ≡ some group
      → has_admin_privilege o.world.permissions user group ≡ true
      → MayResolve o approval user
  unfolding has_admin_privilege
  group-MayResolve group free g h =
      elim (Bool-cases
        (is_owner o.world.permissions user || is_global_admin o.world.permissions user)) [
          | inl e ↦ global-MayResolve free e
          | inr e ↦
              as_group_admin group free g
                ((is_admin_of_agent_group_iff o.world.permissions user group).0 (ground arith))
        ]

  may_click-MayResolve : may_click o approval (some user) ≡ true → MayResolve o approval user
  may_click-MayResolve h = by_name (truthy approval.approver_user_id) refl h
    where
      by_group :
          (g : Option String)
          → truthy (approval_group o approval) ≡ g
          → truthy approval.approver_user_id ≡ none
          → has_privilege_for o.world.permissions user g ≡ true
          → MayResolve o approval user
      by_group none e free k = global-MayResolve free k
      by_group (some group) e free k = group-MayResolve group free e k

      by_name :
          (n : Option String)
          → truthy approval.approver_user_id ≡ n
          → elim n as (λ x. Bool) [
            | some approver ↦ user == approver
            | none ↦ has_privilege_for o.world.permissions user (truthy (approval_group o approval))
          ]
            ≡ true
          → MayResolve o approval user
      by_name none e k = by_group (truthy (approval_group o approval)) refl e k
      by_name (some approver) e k = as_named (e ∙ ap some (sym ((eq_iff user approver).0 k)))

-- A click leaves everything as it was, or it is on an approval that is pending, by a user who may
-- settle it.
pub click-Guarded :
    (desk : Desk) (payload : ResponsePayload) (o : Office)
    → (office_of (handle_approvals_response desk payload o) ≡ o)
      ⊎ ((approval : PendingApproval) × (user : String) × (get_pending_approval o
              payload.question_id
            ≡ some approval)
          × (namespaced_user_id payload ≡ some user)
          × MayResolve o approval user)
unfolding handle_approvals_response is_authorized_approval_click
click-Guarded desk payload o = by_row (get_pending_approval o payload.question_id) refl
  where
    Goal : Option PendingApproval → Type 0
    Goal row =
        (office_of (on_approval desk payload row o) ≡ o)
        ⊎ ((approval : PendingApproval) × (user : String) × (get_pending_approval o
                payload.question_id
              ≡ some approval)
            × (namespaced_user_id payload ≡ some user)
            × MayResolve o approval user)

    by_user :
        (approval : PendingApproval) (u : Option String)
        → get_pending_approval o payload.question_id ≡ some approval
        → namespaced_user_id payload ≡ u
        → may_click o approval u ≡ true
        → Goal (some approval)
    by_user approval none e n k = absurd (cc)
    by_user approval (some user) e n k =
        inr (approval, user, e, n, may_click-MayResolve o approval user k)

    by_row :
        (row : Option PendingApproval) → get_pending_approval o payload.question_id ≡ row → Goal row
    by_row none e = inl refl
    by_row (some approval) e =
        elim (Bool-cases (may_click o approval (namespaced_user_id payload))) [
          | inl k ↦ by_user approval (namespaced_user_id payload) e refl k
          | inr k ↦ inl (rw k refl)
        ]
