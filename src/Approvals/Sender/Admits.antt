-- ===== src/Approvals/Sender/Admits.antt =====
-- What a click on the card of an unknown sender changes, and what it grants: the handler in
-- src/modules/permissions/index.ts.
use pocketclaw_telegram.Approvals.{ended, Office, PendingSenderApproval, Ended, owner, admin, broke}
use pocketclaw_telegram.Approvals.Response.Clicks.{office_of}
use pocketclaw_telegram.Permissions as Perms
use pocketclaw_telegram.Permissions.Roles.{
  HasRole, has_global_role_iff, is_admin_of_agent_group_iff,
}
use pocketclaw_telegram.Permissions.Access.{is_allowed, decision_lem}
use pocketclaw_telegram.Permissions.{
  has_admin_privilege, add_member, is_owner, get_user, is_global_admin, Permissions,
  can_access_agent_group, has_membership_row, RoleError, has_user, has_group, refers,
  foreign_key_violation,
}
use pocketclaw_telegram.Approvals.Sender.{
  SenderDesk, is_sender_approver, delete_pending_sender_approval, replay, admitted, judged_click,
  handle_sender_approval_response, member_row, get_pending_sender_approval, after_member,
  on_request,
}
use pocketclaw_telegram.Prelude.{
  String, ◌≡◌, Bool, true, is_some, none, Bool-cases, ◌==◌, some, inl, eq_iff, inr, arith, ap,
  subst, ◌++◌, find, ◌∷◌, [], sym, any-append, ◌&&◌, ◌∙◌, eq_refl, ◌≢◌, refl, All, ◌⊎◌, Option,
  All-lookup, find→Memᴰ,
}
use pocketclaw_telegram.Types.{AgentGroupMember, User}
use pocketclaw_telegram.Approvals.Response.{ResponsePayload, namespaced_user_id}

-- Who may answer for a sender: the approver of the card, an owner, a global admin, or an admin of
-- the agent group.
pub data MayAdmit (o : Office) (row : PendingSenderApproval) (user : String) : Type 0 where
  as_approver : user ≡ row.approver_user_id → MayAdmit o row user
  as_owner : HasRole o.world.permissions user owner none → MayAdmit o row user
  as_global_admin : HasRole o.world.permissions user admin none → MayAdmit o row user
  as_group_admin :
      HasRole o.world.permissions user admin (some row.agent_group_id) → MayAdmit o row user

is_sender_approver-MayAdmit :
    (o : Office) (row : PendingSenderApproval) (user : String)
    → is_sender_approver o row user ≡ true
    → MayAdmit o row user
unfolding has_admin_privilege is_owner is_global_admin
is_sender_approver-MayAdmit o row user h = elim (Bool-cases (user == row.approver_user_id)) [
  | inl named ↦ as_approver ((eq_iff user row.approver_user_id).0 named)
  | inr other ↦ elim (Bool-cases (is_owner o.world.permissions user)) [
    | inl e ↦ as_owner ((has_global_role_iff o.world.permissions user owner).0 e)
    | inr no_owner ↦ elim (Bool-cases (is_global_admin o.world.permissions user)) [
      | inl e ↦ as_global_admin ((has_global_role_iff o.world.permissions user admin).0 e)
      | inr no_admin ↦ as_group_admin (
          (is_admin_of_agent_group_iff o.world.permissions user row.agent_group_id).0
            (ground arith))
    ]
  ]
]

-- The effect of a click by a user who may answer: the sender is turned away, and only the row goes;
-- or he is let in, and the stored message is routed from a state in which the row is gone and he may
-- access the agent group; or the insert of the member throws, and all is as it was.
pub data Answered (desk : SenderDesk) (value : String) (o : Office) (row : PendingSenderApproval)
    (r : Ended Bool) : Type 0 where
  turned_away :
      value ≢ "approve"
      → r ≡ ended true (delete_pending_sender_approval row.id o)
      → Answered desk value o row r
  let_in :
      value ≡ "approve"
      → (p : Permissions)
      → is_allowed (can_access_agent_group p row.sender_identity row.agent_group_id) ≡ true
      → r
        ≡ ended true (
            replay desk
              (desk.read_event row.original_message)
              (delete_pending_sender_approval row.id (admitted o p)))
      → Answered desk value o row r
  threw_out : value ≡ "approve" → r ≡ broke o → Answered desk value o row r

ok-inj : {p p' : Permissions} → Perms.Result.ok p ≡ Perms.Result.ok p' → p ≡ p'
ok-inj {p} {p'} h = ap (λ r. elim r as (λ x. Permissions) [ Perms.ok q ↦ q | Perms.err e ↦ p ]) h

ok≢err : {p : Permissions} {e : RoleError} → Perms.Result.ok p ≢ Perms.Result.err e
ok≢err h = cc

has_membership_row-append :
    (p : Permissions) (m : AgentGroupMember)
    → has_membership_row (record p { members = p.members ++ m ∷ [] }) m.user_id m.agent_group_id
      ≡ true
unfolding has_membership_row
has_membership_row-append p m =
    any-append (λ n. n.user_id == m.user_id && n.agent_group_id == m.agent_group_id) p.members
      (m ∷ [])
    ∙ ground (arith, eq_refl m.user_id, eq_refl m.agent_group_id)

add_member-row :
    (p p' : Permissions) (m : AgentGroupMember)
    → add_member p m ≡ Perms.ok p'
    → (has_membership_row p' m.user_id m.agent_group_id ≡ true) × (p'.users ≡ p.users)
unfolding add_member has_membership_row
add_member-row p p' m h = elim (Bool-cases (has_membership_row p m.user_id m.agent_group_id)) [
  | inl there ↦ by_row p (there, refl) (ok-inj (sym (rw there refl) ∙ h))
  | inr absent ↦
      elim (Bool-cases
        (has_user p m.user_id && has_group p m.agent_group_id && refers (has_user p) m.added_by)) [
          | inl fine ↦
              by_row (record p { members = p.members ++ m ∷ [] })
                (has_membership_row-append p m, refl) (ok-inj (sym (rw (absent, fine) refl) ∙ h))
          | inr dangling ↦
              absurd (ok≢err {e = foreign_key_violation} (sym h ∙ rw (absent, dangling) refl))
        ]
]
  where
    by_row :
        (q : Permissions)
        → (has_membership_row q m.user_id m.agent_group_id ≡ true) × (q.users ≡ p.users)
        → q ≡ p'
        → (has_membership_row p' m.user_id m.agent_group_id ≡ true) × (p'.users ≡ p.users)
    by_row q both same =
        subst
          (λ (r : Permissions).
            (has_membership_row r m.user_id m.agent_group_id ≡ true) × (r.users ≡ p.users))
          same both

add_member-access :
    (p p' : Permissions) (m : AgentGroupMember)
    → is_some (get_user p m.user_id) ≡ true
    → add_member p m ≡ Perms.ok p'
    → is_allowed (can_access_agent_group p' m.user_id m.agent_group_id) ≡ true
unfolding get_user
add_member-access p p' m known h =
    let (member, same) = add_member-row p p' m h in
    let known' : is_some (get_user p' m.user_id) ≡ true =
      subst (λ us. is_some (find (λ (u : User). u.id == m.user_id) us) ≡ true) (sym same) known in
    ground (arith, decision_lem p' m.user_id m.agent_group_id)

judged-Answered :
    (desk : SenderDesk) (row : PendingSenderApproval) (value user : String) (o : Office)
    → is_some (get_user o.world.permissions row.sender_identity) ≡ true
    → is_sender_approver o row user ≡ true
    → Answered desk value o row (judged_click desk row value user o)
judged-Answered desk row value user o known may = elim (Bool-cases (value == "approve")) [
  | inl yes_value ↦
      rw (may, yes_value)
        (by_insert (add_member o.world.permissions (member_row desk.env row user)) refl
          ((eq_iff value "approve").0 yes_value))
  | inr no_value ↦
      turned_away (λ same. ground (arith, (eq_iff value "approve").1 same))
        (rw (may, no_value) refl)
]
  where
    by_insert :
        (r : Perms.Result Permissions)
        → add_member o.world.permissions (member_row desk.env row user) ≡ r
        → value ≡ "approve"
        → Answered desk value o row (after_member desk row o r)
    by_insert (Perms.ok p) e yes_value =
        let_in yes_value p
          (add_member-access o.world.permissions p (member_row desk.env row user) known e) refl
    by_insert (Perms.err x) e yes_value = threw_out yes_value refl

-- While the sender of each pending row has a row in `users`, a click on the card of an unknown sender
-- leaves everything as it was, or it is on a pending row, by a user who may answer for the agent
-- group; and then, where the value is not 'approve', the sender is turned away, and only the row goes;
-- where it is, he is let in, the row is gone, and the stored message is routed where he may access the
-- agent group, or the insert of the member throws, and all is as it was.
pub sender_click-Answered :
    (desk : SenderDesk) (payload : ResponsePayload) (o : Office)
    → All (λ a. is_some (get_user o.world.permissions a.sender_identity) ≡ true) o.sender_approvals
    → (office_of (handle_sender_approval_response desk payload o) ≡ o)
      ⊎ ((row : PendingSenderApproval) × (user : String) × (get_pending_sender_approval o
              payload.question_id
            ≡ some row)
          × (namespaced_user_id payload ≡ some user)
          × MayAdmit o row user
          × Answered desk payload.value o row (handle_sender_approval_response desk payload o))
unfolding handle_sender_approval_response get_pending_sender_approval
sender_click-Answered desk payload o known =
    by_row (get_pending_sender_approval o payload.question_id) refl
  where
    Goal : Option PendingSenderApproval → Type 0
    Goal found =
        (office_of (on_request desk payload found o) ≡ o)
        ⊎ ((row : PendingSenderApproval) × (user : String) × (get_pending_sender_approval o
                payload.question_id
              ≡ some row)
            × (namespaced_user_id payload ≡ some user)
            × MayAdmit o row user
            × Answered desk payload.value o row (on_request desk payload found o))

    by_user :
        (row : PendingSenderApproval) (u : Option String)
        → get_pending_sender_approval o payload.question_id ≡ some row
        → namespaced_user_id payload ≡ u
        → Goal (some row)
    by_user row none e n = inl (rw n refl)
    by_user row (some user) e n = elim (Bool-cases (is_sender_approver o row user)) [
      | inl may ↦ inr (
        row,
        user,
        e,
        n,
        is_sender_approver-MayAdmit o row user may,
        rw n (
            judged-Answered desk row payload.value user o
              (All-lookup (λ a. is_some (get_user o.world.permissions a.sender_identity) ≡ true)
                (find→Memᴰ (λ a. a.id == payload.question_id) o.sender_approvals e).0 known)
              may),
      )
      | inr may_not ↦ inl (rw (n, may_not) refl)
    ]

    by_row :
        (found : Option PendingSenderApproval)
        → get_pending_sender_approval o payload.question_id ≡ found
        → Goal found
    by_row none e = inl refl
    by_row (some row) e = by_user row (namespaced_user_id payload) e refl
