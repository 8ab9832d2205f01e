-- ===== src/Approvals/Sender/Pending.antt =====
-- One card for a sender: the guard against a second request in
-- src/modules/permissions/sender-approval.ts.
use pocketclaw_telegram.Approvals.{
  ended, Office, Ended, then_do, broke, some, PendingSenderApproval, pick_approver,
}
use pocketclaw_telegram.Approvals.Response.Clicks.{office_of}
use pocketclaw_telegram.Approvals.Reach.{pick_approval_delivery}
use pocketclaw_telegram.World.{get_messaging_group, get_agent_group}
use pocketclaw_telegram.Approvals.Sender.{
  request_sender_approval, SenderDesk, SenderRequest, has_in_flight_sender_approval,
  create_pending_sender_approval, with_target, sender_row, counted_id, row_created, card_sent,
  with_approvers, type_of_group, is_request_of,
}
use pocketclaw_telegram.Prelude.{
  String, ◌≡◌, Option, ◌∙◌, ◌⊎◌, List, refl, ◌∷◌, Bool-cases, ◌==◌, [], inl, none, inr, true, Bool,
  subst, any, sym, ◌||◌, ◌++◌, not, any-append, is_some, arith, eq_iff, none-ne-some,
  some-injective,
}
use pocketclaw_telegram.Types.{MessagingGroup}
use pocketclaw_telegram.Approvals.Reach.Quiet.{SendsNone, pick_approval_delivery-SendsNone}

module _ (desk : SenderDesk) (r : SenderRequest) where
  -- No card was sent since, or the request is pending.
  abbrev IsPendingAfter : Office → Ended (Unit {0}) → Type 0
  IsPendingAfter o result =
      ((office_of result).cards ≡ o.cards)
      ⊎ (has_in_flight_sender_approval (office_of result) r.messaging_group_id r.sender_identity
          ≡ true)

  abbrev taken : PendingSenderApproval → Office → Bool
  taken row o =
      any (λ a. a.id == row.id) o.sender_approvals
      || any (is_request_of row.messaging_group_id row.sender_identity) o.sender_approvals
      || not (is_some (get_messaging_group o.world row.messaging_group_id))
      || not (is_some (get_agent_group o.world row.agent_group_id))

  create-in_flight :
      (row : PendingSenderApproval) (o o' : Office)
      → row.messaging_group_id ≡ r.messaging_group_id
      → row.sender_identity ≡ r.sender_identity
      → create_pending_sender_approval row o ≡ some o'
      → has_in_flight_sender_approval o' r.messaging_group_id r.sender_identity ≡ true
  unfolding create_pending_sender_approval has_in_flight_sender_approval
  create-in_flight row o o' chat sender h = elim (Bool-cases (taken row o)) [
    | inl used ↦ absurd (none-ne-some _ (sym (rw used refl) ∙ h))
    | inr free ↦
        let same : record o { sender_approvals = o.sender_approvals ++ row ∷ [] } ≡ o' =
          some-injective _ _ (sym (rw free refl) ∙ h) in
        subst
          (λ (x : Office).
            any (is_request_of r.messaging_group_id r.sender_identity) x.sender_approvals ≡ true)
          same
          (any-append (is_request_of r.messaging_group_id r.sender_identity) o.sender_approvals
              (row ∷ [])
            ∙ ground (
              arith,
              eq_iff row.messaging_group_id r.messaging_group_id,
              eq_iff row.sender_identity r.sender_identity,
            ))
  ]

  card_sent-in_flight :
      (row : PendingSenderApproval) (mg : MessagingGroup) (o : Office)
      → has_in_flight_sender_approval o r.messaging_group_id r.sender_identity ≡ true
      → has_in_flight_sender_approval
          (office_of (card_sent desk row mg o))
          r.messaging_group_id
          r.sender_identity
        ≡ true
  unfolding has_in_flight_sender_approval
  card_sent-in_flight row mg o h = elim (Bool-cases desk.has_delivery_adapter) [
    | inl e ↦ rw e h
    | inr e ↦ rw e h
  ]

  with_target-IsPendingAfter :
      (o o' : Office) (t : Option (String × MessagingGroup))
      → o'.cards ≡ o.cards
      → IsPendingAfter o (with_target desk r t o')
  with_target-IsPendingAfter o o' none same = inl same
  with_target-IsPendingAfter o o' (some (approver, mg)) same =
      by_row (create_pending_sender_approval row (counted_id o')) refl
    where
      row : PendingSenderApproval
      row = sender_row desk o'.world.draws r approver

      by_row :
          (c : Option Office)
          → create_pending_sender_approval row (counted_id o') ≡ c
          → IsPendingAfter o (row_created desk row mg (counted_id o') c)
      by_row none e = inl same
      by_row (some o'') e =
          inr
            (card_sent-in_flight row mg o'' (create-in_flight row (counted_id o') o'' refl refl e))

  request-IsPendingAfter : (o : Office) → IsPendingAfter o (request_sender_approval desk r o)
  unfolding request_sender_approval
  request-IsPendingAfter o =
      elim (Bool-cases (has_in_flight_sender_approval o r.messaging_group_id r.sender_identity)) [
        | inl e ↦ inl (rw e refl)
        | inr e ↦ rw e (by_approvers (pick_approver o.world.permissions (some r.agent_group_id)))
      ]
    where
      by_reached :
          (t : Ended (Option (String × MessagingGroup)))
          → SendsNone o t
          → IsPendingAfter o (then_do t (with_target desk r))
      by_reached (ended t o') same = with_target-IsPendingAfter o o' t same
      by_reached (broke o') same = inl same

      by_approvers : (as' : List String) → IsPendingAfter o (with_approvers desk r as' o)
      by_approvers [] = inl refl
      by_approvers (a ∷ as') =
          let origin = type_of_group (get_messaging_group o.world r.messaging_group_id) in
          by_reached (pick_approval_delivery desk.env desk.adapters (a ∷ as') origin o)
            (pick_approval_delivery-SendsNone desk.env desk.adapters (a ∷ as') origin o)

-- A request has sent no card, or it is pending, so that a request for the same sender in the same
-- chat changes nothing.
pub request_sender_approval-once :
    (desk : SenderDesk) (r again : SenderRequest) (o : Office)
    → again.messaging_group_id ≡ r.messaging_group_id
    → again.sender_identity ≡ r.sender_identity
    → ((office_of (request_sender_approval desk r o)).cards ≡ o.cards)
      ⊎ (request_sender_approval desk again (office_of (request_sender_approval desk r o))
          ≡ ended tt (office_of (request_sender_approval desk r o)))
unfolding request_sender_approval
request_sender_approval-once desk r again o same_chat same_sender =
    elim (request-IsPendingAfter desk r o) [
      | inl none_sent ↦ inl none_sent
      | inr pending ↦ inr (
          rw
            (subst
              (λ sender.
                has_in_flight_sender_approval (office_of (request_sender_approval desk r o))
                  again.messaging_group_id sender
                ≡ true)
              (sym same_sender)
              (subst
                (λ mg.
                  has_in_flight_sender_approval (office_of (request_sender_approval desk r o)) mg
                    r.sender_identity
                  ≡ true)
                (sym same_chat) pending))
            refl)
    ]
