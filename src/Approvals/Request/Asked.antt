-- ===== src/Approvals/Request/Asked.antt =====
-- What a request for an approval leaves behind: `requestApproval` of
-- src/modules/approvals/primitive.ts.
use pocketclaw_telegram.Approvals.Response.{
  truthy, note_row, approval_text, counted_draw, system_text,
}
use pocketclaw_telegram.Approvals.{
  RequestApprovalOptions, ended, Office, Ended, PendingApproval, lifted, Card, then_do, ok, threw,
  broke,
}
use pocketclaw_telegram.Approvals.Response.Clicks.{office_of}
use pocketclaw_telegram.Approvals.Reach.Quiet.{SendsNone, pick_approval_delivery-SendsNone}
use pocketclaw_telegram.Prelude.{
  String, Bool, any, ◌≡◌, Option, ◌==◌, ◌⊎◌, some, true, ◌++◌, ◌∷◌, inl, refl, [], inr, ◌∙◌, List,
  ap, none, false, subst, Bool-cases, sym, any-append, arith, eq_refl, some-injective, none-ne-some,
}
use pocketclaw_telegram.Approvals.Request.{
  notify_agent, create_pending_approval, RequestDesk, request_approval, wake_again, deliver_card,
  to_approver, wake_found_session, approval_row, among_approvers, origin_of, with_card,
  after_create, approvers_of, has_session,
}
use pocketclaw_telegram.World.{Ran, Env, write_session_message}
use pocketclaw_telegram.Types.{Session, MessagingGroup}
use pocketclaw_telegram.Sessions.{get_session}
use pocketclaw_telegram.Approvals.Reach.{pick_approval_delivery}

abbrev pub is_pending : String → Office → Bool
is_pending id o = any (λ a. a.approval_id == id) o.approvals

-- No card was sent; or one was, to the adapter, for a row that is pending.
abbrev pub Asked {ℓ} : {A : Type ℓ} → Office → Ended A → Type 0
Asked o r =
    ((office_of r).cards ≡ o.cards)
    ⊎ ((card : Card) × ((office_of r).cards ≡ o.cards ++ card ∷ [])
        × (is_pending card.question_id (office_of r) ≡ true))

-- A step that works on the central database and the sessions alone.
abbrev Leaves {ℓ} : {A : Type ℓ} → Office → Ended A → Type 0
Leaves o r = ((office_of r).cards ≡ o.cards) × ((office_of r).approvals ≡ o.approvals)

Leaves-lifted {ℓ} : {A : Type ℓ} (o : Office) (r : Ran A) → Leaves o (lifted o r)
Leaves-lifted o (ok a w) = (refl, refl)
Leaves-lifted o (threw w) = (refl, refl)

notify_agent-Leaves :
    (env : Env) (s : Session) (body : String) (o : Office) → Leaves o (notify_agent env s body o)
unfolding notify_agent
notify_agent-Leaves env s body o =
    by_written
      (lifted o (
        write_session_message env s.id
          (record (note_row env o.world.draws s (system_text env body)) {
            id = env.fresh "sys" o.world.draws;
          })
          (counted_draw o.world)))
      (Leaves-lifted o _)
  where
    by_written : (r : Ended (Unit {0})) → Leaves o r → Leaves o (then_do r (λ u. wake_again env s))
    by_written (ended u o') h =
        let woken =
          Leaves-lifted o' (wake_found_session env (get_session o'.world.sessions s.id) o'.world) in
        (woken.0 ∙ h.0, woken.1 ∙ h.1)
    by_written (broke o') h = h

create_pending_approval-pending :
    (row : PendingApproval) (o o' : Office)
    → create_pending_approval row o ≡ some o'
    → (is_pending row.approval_id o' ≡ true) × (o'.cards ≡ o.cards)
unfolding create_pending_approval
create_pending_approval-pending row o o' h = elim (Bool-cases (is_pending row.approval_id o)) [
  | inl there ↦ by_row o (there, refl) (some-injective _ _ (sym (rw there refl) ∙ h))
  | inr absent ↦ elim (Bool-cases (has_session o row.session_id)) [
    | inl known ↦
        by_row (record o { approvals = o.approvals ++ row ∷ [] })
          (
            any-append (λ a. a.approval_id == row.approval_id) o.approvals (row ∷ [])
                ∙ ground (arith, eq_refl row.approval_id),
            refl,
          )
          (some-injective _ _ (sym (rw (absent, known) refl) ∙ h))
    | inr dangling ↦ absurd (none-ne-some _ (sym (rw (absent, dangling) refl) ∙ h))
  ]
]
  where
    by_row :
        (q : Office)
        → (is_pending row.approval_id q ≡ true) × (q.cards ≡ o.cards)
        → q ≡ o'
        → (is_pending row.approval_id o' ≡ true) × (o'.cards ≡ o.cards)
    by_row q both same =
        subst (λ (x : Office). (is_pending row.approval_id x ≡ true) × (x.cards ≡ o.cards)) same
          both

module _ (desk : RequestDesk) (opts : RequestApprovalOptions) (user : String) (card : Card) where
  deliver_card-Asked :
      (o o' : Office) (d : Option Bool)
      → o'.cards ≡ o.cards
      → is_pending card.question_id o' ≡ true
      → Asked o (deliver_card desk opts user card d o')
  deliver_card-Asked o o' none same pending = inl same
  deliver_card-Asked o o' (some true) same pending =
      inr (card, ap (λ cards. cards ++ card ∷ []) same, pending)
  deliver_card-Asked o o' (some false) same pending =
      let told =
        notify_agent-Leaves desk.env opts.session
          (approval_text "" opts.action
            (approval_text " failed: could not deliver approval request to " user "."))
          (with_card card o') in
      inr (
        card,
        told.0 ∙ ap (λ cards. cards ++ card ∷ []) same,
        ap (any (λ a. a.approval_id == card.question_id)) told.1 ∙ pending,
      )

to_approver-Asked :
    (desk : RequestDesk) (opts : RequestApprovalOptions) (o o' : Office)
    (t : Option (String × MessagingGroup))
    → o'.cards ≡ o.cards
    → Asked o (to_approver desk opts t o')
to_approver-Asked desk opts o o' none same =
    inl ((notify_agent-Leaves desk.env opts.session _ o').0 ∙ same)
to_approver-Asked desk opts o o' (some (user, mg)) same =
    by_row (create_pending_approval row counted) refl
  where
    row : PendingApproval
    row = approval_row desk opts (desk.env.fresh "appr" o'.world.draws)

    counted : Office
    counted = record o' { world = counted_draw o'.world }

    card : Card
    card = record {
      channel_type = mg.channel_type;
      platform_id = mg.platform_id;
      question_id = desk.env.fresh "appr" o'.world.draws;
    }

    by_row :
        (c : Option Office)
        → create_pending_approval row counted ≡ c
        → Asked o (after_create desk opts user card counted c)
    by_row none e = inl same
    by_row (some o'') e =
        let (pending, kept) = create_pending_approval-pending row counted o'' e in
        deliver_card-Asked desk opts user card o o'' desk.delivers (kept ∙ same) pending

-- A request for an approval hands the delivery adapter no card, or one, and then the approval that
-- the card asks for is pending; also where the delivery or the note to the agent throws.
pub request_approval-Asked :
    (desk : RequestDesk) (opts : RequestApprovalOptions) (o : Office)
    → Asked o (request_approval desk opts o)
unfolding request_approval
request_approval-Asked desk opts o =
    by_approvers (approvers_of o.world.permissions opts.session (truthy opts.approver_user_id))
  where
    by_reached :
        (t : Ended (Option (String × MessagingGroup)))
        → SendsNone o t
        → Asked o (then_do t (to_approver desk opts))
    by_reached (ended t o') same = to_approver-Asked desk opts o o' t same
    by_reached (broke o') same = inl same

    by_approvers : (as' : List String) → Asked o (among_approvers desk opts as' o)
    by_approvers [] = inl (notify_agent-Leaves desk.env opts.session _ o).0
    by_approvers (a ∷ as') =
        let origin = origin_of o (truthy opts.session.messaging_group_id) in
        by_reached (pick_approval_delivery desk.env desk.adapters (a ∷ as') origin o)
          (pick_approval_delivery-SendsNone desk.env desk.adapters (a ∷ as') origin o)
