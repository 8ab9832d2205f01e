-- ===== src/Approvals/Response/Once.antt =====
-- An approval is settled once: the row is gone when a click has been answered.
-- src/modules/approvals/response-handler.ts.
use pocketclaw_telegram.Approvals.{
  ended, Ended, Office, PendingApproval, then_do, ClickOutcome, broke, approve, some, reject,
}
use pocketclaw_telegram.Approvals.Response.{
  delete_pending_approval, get_pending_approval, resolve, settle, notify, after_handler, Desk,
  handle_approvals_response, ApprovalHandler, for_session, resolve_onecli_approval,
  handle_registered_approval, ResponsePayload, approved, or_gone, authorized_click, run_handler,
  or_blank, on_approval, namespaced_user_id, session_of, truthy, is_authorized_approval_click,
}
use pocketclaw_telegram.Prelude.{
  String, List, ◌≡◌, find, none, ◌==◌, select, not, Bool, ◌∷◌, Bool-cases, inl, inr, [], refl,
  arith, Option, ◌⊎◌, any, subst, false, ap, ◌∙◌, sym, true, eq_iff, find→Memᴰ,
}
use pocketclaw_telegram.World.{Env}
use pocketclaw_telegram.Types.{Session}
use pocketclaw_telegram.Json.{Json}
use pocketclaw_telegram.Approvals.Response.Clicks.{office_of}

-- The row is gone where the step returns.
abbrev pub Gone {ℓ} : {A : Type ℓ} → String → Ended A → Type 0
Gone id (ended a o) = get_pending_approval o id ≡ none
Gone id (broke o) = Unit {0}

find-select_other :
    (id : String) (rows : List PendingApproval)
    → find (λ a. a.approval_id == id) (select (λ a. not (a.approval_id == id)) rows) ≡ none
find-select_other id [] = refl
find-select_other id (a ∷ rows) = let rest = find-select_other id rows in ground arith

get_pending_approval-delete :
    (id : String) (o : Office) → get_pending_approval (delete_pending_approval id o) id ≡ none
unfolding get_pending_approval delete_pending_approval
get_pending_approval-delete id o = find-select_other id o.approvals

Gone-then_do {ℓ κ} :
    {A : Type ℓ} {B : Type κ} (id : String) (r : Ended A) (f : A → Office → Ended B)
    → ((a : A) (o : Office) → Gone id (f a o))
    → Gone id (then_do r f)
Gone-then_do id (ended a o) f h = h a o
Gone-then_do id (broke o) f h = tt

module _ (env : Env) (approval : PendingApproval) (s : Session) (outcome : ClickOutcome)
    (user : String) where
  resolve-Gone : (o : Office) → Gone approval.approval_id (resolve env approval s outcome user o)
  unfolding get_pending_approval delete_pending_approval
  resolve-Gone o =
      let gone = find-select_other approval.approval_id o.approvals in
      elim (Bool-cases (env.spawns s.id)) [ inl e ↦ rw e gone | inr e ↦ rw e gone ]

  settle-Gone :
      (body : String) (o : Office)
      → Gone approval.approval_id (settle env approval s outcome user body o)
  settle-Gone body o = Gone-then_do approval.approval_id (notify env s body o) _ (λ u. resolve-Gone)

module _ (desk : Desk) (approval : PendingApproval) where
  after_handler-Gone :
      (s : Session) (user : String) (r : Option String × Office)
      → Gone approval.approval_id (after_handler desk.env approval s user r)
  after_handler-Gone s user (none, o) = resolve-Gone desk.env approval s approve user o
  after_handler-Gone s user (some m, o) = settle-Gone desk.env approval s approve user _ o

  approved-Gone :
      (s : Session) (user : String) (handler : Option ApprovalHandler) (o : Office)
      → Gone approval.approval_id (approved desk approval s user handler o)
  approved-Gone s user none o = settle-Gone desk.env approval s approve user _ o
  approved-Gone s user (some handler) o = by_payload (desk.env.parse_json approval.payload)
    where
      by_payload :
          (v : Option Json)
          → Gone approval.approval_id (run_handler desk.env approval s user handler v o)
      by_payload none = tt
      by_payload (some payload) = after_handler-Gone s user (handler s payload user o)

  for_session-Gone :
      (value user : String) (s : Option Session) (o : Office)
      → Gone approval.approval_id (for_session desk approval value user s o)
  for_session-Gone value user none o = get_pending_approval-delete approval.approval_id o
  for_session-Gone value user (some s) o = elim (Bool-cases (value == "approve")) [
    | inl e ↦ rw e (approved-Gone s user (desk.get_approval_handler approval.action) o)
    | inr e ↦ rw e (settle-Gone desk.env approval s reject user _ o)
  ]

  onecli-Gone : (id : String) (o : Office) → Gone id (or_gone id o (resolve_onecli_approval id o))
  unfolding resolve_onecli_approval get_pending_approval
  onecli-Gone id o = elim (Bool-cases (any (λ i. i == id) o.onecli)) [
    | inl e ↦ rw e (find-select_other id o.approvals)
    | inr e ↦ rw e (get_pending_approval-delete id o)
  ]

  authorized_click-Gone :
      (payload : ResponsePayload) (o : Office)
      → approval.approval_id ≡ payload.question_id
      → Gone payload.question_id (authorized_click desk payload approval o)
  unfolding handle_registered_approval
  authorized_click-Gone payload o same =
      elim (Bool-cases (approval.action == "onecli_credential")) [
        | inl e ↦ rw e (onecli-Gone payload.question_id o)
        | inr e ↦ rw e (
            subst
              (λ id. Gone id (
                handle_registered_approval desk approval payload.value
                  (or_blank (namespaced_user_id payload)) o))
              same
              (for_session-Gone payload.value (or_blank (namespaced_user_id payload))
                (session_of o (truthy approval.session_id)) o))
      ]

-- A click that is answered without a throw leaves everything as it was, or a second click on the
-- same card finds nothing to settle: it is not claimed, and changes nothing.
pub click-settles :
    (desk : Desk) (payload again : ResponsePayload) (o o' : Office) (claimed : Bool)
    → again.question_id ≡ payload.question_id
    → handle_approvals_response desk payload o ≡ ended claimed o'
    → (o' ≡ o) ⊎ (handle_approvals_response desk again o' ≡ ended false o')
unfolding handle_approvals_response get_pending_approval
click-settles desk payload again o o' claimed same h =
    by_row (get_pending_approval o payload.question_id) refl h
  where
    again_lem :
        get_pending_approval o' payload.question_id ≡ none
        → on_approval desk again (get_pending_approval o' again.question_id) o' ≡ ended false o'
    again_lem gone =
        ap (λ row. on_approval desk again row o') (ap (get_pending_approval o') same ∙ gone)

    allowed_lem :
        (approval : PendingApproval)
        → is_authorized_approval_click o approval payload ≡ true
        → on_approval desk payload (some approval) o ≡ authorized_click desk payload approval o
    allowed_lem approval may = rw may refl

    refused_lem :
        (approval : PendingApproval)
        → is_authorized_approval_click o approval payload ≡ false
        → on_approval desk payload (some approval) o ≡ ended true o
    refused_lem approval may_not = rw may_not refl

    row_id :
        (approval : PendingApproval)
        → get_pending_approval o payload.question_id ≡ some approval
        → approval.approval_id ≡ payload.question_id
    row_id approval e =
        (eq_iff approval.approval_id payload.question_id).0
          ((find→Memᴰ (λ a. a.approval_id == payload.question_id) o.approvals e).1)

    by_row :
        (row : Option PendingApproval)
        → get_pending_approval o payload.question_id ≡ row
        → on_approval desk payload row o ≡ ended claimed o'
        → (o' ≡ o) ⊎ (handle_approvals_response desk again o' ≡ ended false o')
    by_row none e k = inl (sym (ap office_of k))
    by_row (some approval) e k =
        elim (Bool-cases (is_authorized_approval_click o approval payload)) [
          | inl may ↦ inr (
              again_lem (
                subst (Gone payload.question_id) (sym (allowed_lem approval may) ∙ k)
                  (authorized_click-Gone desk approval payload o (row_id approval e))))
          | inr may_not ↦ inl (sym (ap office_of (sym (refused_lem approval may_not) ∙ k)))
        ]
