-- ===== src/Approvals/Request/Others.antt =====
-- A request for an approval leaves the inbound database of every session but the one that asks as it
-- was: src/modules/approvals/primitive.ts.
use pocketclaw_telegram.Approvals.{
  ended, broke, Office, Ended, PendingApproval, lifted, Card, RequestApprovalOptions,
}
use pocketclaw_telegram.Approvals.Response.{truthy, note_row, counted_draw, system_text}
use pocketclaw_telegram.Approvals.Response.Clicks.{office_of}
use pocketclaw_telegram.Approvals.Reach.Quiet.{
  Keeps, Stable, inbox_of, Stable-inbox, Keeps-then_do, pick_approval_delivery-Keeps,
}
use pocketclaw_telegram.Approvals.Reach.{pick_approval_delivery}
use pocketclaw_telegram.Approvals.Request.{
  notify_agent, create_pending_approval, RequestDesk, request_approval, wake_again, deliver_card,
  to_approver, wake_found_session, approval_row, among_approvers, origin_of, with_card,
  after_create, approvers_of, has_session,
}
use pocketclaw_telegram.Approvals.Request.Held.{requests, seen}
use pocketclaw_telegram.Delivery.Attempts.{world_of}
use pocketclaw_telegram.Router.Deliver.{lookup-replace_ne}
use pocketclaw_telegram.World.{
  World, Ran, Env, ok, threw, write_session_message, lookup_db, insert_into, inserted_or_threw,
}
use pocketclaw_telegram.SessionDb.{InboundDb, NewMessage, insert_message}
use pocketclaw_telegram.Types.{Session, MessagingGroup}
use pocketclaw_telegram.Sessions.{get_session}
use pocketclaw_telegram.Prelude.{
  String, Bool, Option, List, ◌==◌, ◌≡◌, ◌∙◌, ◌∷◌, ◌++◌, [], some, none, true, false, refl, sym, ap,
  any, if_lem, Bool-cases, inl, inr, some-injective, none-ne-some,
}

-- Writing a message into the database of one session leaves those of the others.
write_session_message-Others :
    (env : Env) (id other : String) (m : NewMessage) (w : World)
    → (id == other) ≡ false
    → lookup_db other (world_of (write_session_message env id m w)).inboxes
      ≡ lookup_db other w.inboxes
unfolding write_session_message
write_session_message-Others env id other m w n = by_db (lookup_db id w.inboxes)
  where
    by_insert :
        (o : Option InboundDb)
        → lookup_db other (world_of (inserted_or_threw env id w o)).inboxes
          ≡ lookup_db other w.inboxes
    by_insert none = refl
    by_insert (some db) = lookup-replace_ne id other db w.inboxes n

    by_db :
        (o : Option InboundDb)
        → lookup_db other (world_of (insert_into env id m w o)).inboxes ≡ lookup_db other w.inboxes
    by_db none = refl
    by_db (some db) =
        by_insert (insert_message db (record m { content = env.stored_content m.id m.content }))

module _ (other : String) where
  Keeps-lifted :
      (o : Office) (r : Ran (Unit {0}))
      → lookup_db other (world_of r).inboxes ≡ inbox_of other o
      → Keeps (inbox_of other) o (lifted o r)
  Keeps-lifted o (ok u w) h = h
  Keeps-lifted o (threw w) h = h

  wake_again-Keeps :
      (env : Env) (s : Session) (o : Office) → Keeps (inbox_of other) o (wake_again env s o)
  wake_again-Keeps env s o =
      Keeps-lifted o (wake_found_session env (get_session o.world.sessions s.id) o.world)
        (by_found (get_session o.world.sessions s.id))
    where
      by_found :
          (f : Option Session)
          → lookup_db other (world_of (wake_found_session env f o.world)).inboxes ≡ inbox_of other o
      by_found none = refl
      by_found (some fresh) =
          if_lem (λ (r : Ran (Unit {0})). lookup_db other (world_of r).inboxes ≡ inbox_of other o)
            (env.spawns fresh.id) _ _ refl refl

  notify_agent-Keeps :
      (env : Env) (s : Session) (body : String) (o : Office)
      → (s.id == other) ≡ false
      → Keeps (inbox_of other) o (notify_agent env s body o)
  unfolding notify_agent
  notify_agent-Keeps env s body o n =
      Keeps-then_do (inbox_of other) o
        (lifted o (write_session_message env s.id note (counted_draw o.world)))
        (λ u. wake_again env s)
        (Keeps-lifted o (write_session_message env s.id note (counted_draw o.world))
          (write_session_message-Others env s.id other note (counted_draw o.world) n))
        (λ u o'. wake_again-Keeps env s o')
    where
      note : NewMessage
      note = record (note_row env o.world.draws s (system_text env body)) {
        id = env.fresh "sys" o.world.draws;
      }

create_pending_approval-world :
    (row : PendingApproval) (o o' : Office)
    → create_pending_approval row o ≡ some o'
    → o'.world ≡ o.world
unfolding create_pending_approval
create_pending_approval-world row o o' h =
    elim (Bool-cases (any (λ a. a.approval_id == row.approval_id) o.approvals)) [
      | inl there ↦ ap (λ (q : Office). q.world) (some-injective o' o (sym h ∙ rw there refl))
      | inr absent ↦ elim (Bool-cases (has_session o row.session_id)) [
        | inl known ↦
            ap (λ (q : Office). q.world)
              (some-injective o' (record o { approvals = o.approvals ++ row ∷ [] })
                (sym h ∙ rw (absent, known) refl))
        | inr dangling ↦ absurd (none-ne-some _ (sym (rw (absent, dangling) refl) ∙ h))
      ]
    ]

-- What a request keeps of the world is what its note to the agent keeps.
module _ {ι} {X : Type ι} (read : World → X) (stable : Stable (λ o. read o.world))
    (drawn : (w : World) → read (counted_draw w) ≡ read w) (desk : RequestDesk)
    (opts : RequestApprovalOptions)
    (told : (body : String) (o : Office)
      → Keeps (λ q. read q.world) o (notify_agent desk.env opts.session body o)) where
  deliver_card-Keeps :
      (user : String) (card : Card) (d : Option Bool) (o : Office)
      → Keeps (λ q. read q.world) o (deliver_card desk opts user card d o)
  deliver_card-Keeps user card none o = refl
  deliver_card-Keeps user card (some true) o = refl
  deliver_card-Keeps user card (some false) o = told _ (with_card card o)

  to_approver-Keeps :
      (t : Option (String × MessagingGroup)) (o : Office)
      → Keeps (λ q. read q.world) o (to_approver desk opts t o)
  to_approver-Keeps none o = told _ o
  to_approver-Keeps (some (user, mg)) o = by_row (create_pending_approval row counted) refl
    where
      row : PendingApproval
      row = approval_row desk opts (desk.env.fresh "appr" o.world.draws)

      counted : Office
      counted = record o { world = counted_draw o.world }

      card : Card
      card = record {
        channel_type = mg.channel_type;
        platform_id = mg.platform_id;
        question_id = desk.env.fresh "appr" o.world.draws;
      }

      by_row :
          (c : Option Office)
          → create_pending_approval row counted ≡ c
          → Keeps (λ q. read q.world) o (after_create desk opts user card counted c)
      by_row none e = drawn o.world
      by_row (some o') e =
          deliver_card-Keeps user card desk.delivers o'
          ∙ (ap read (create_pending_approval-world row counted o' e) ∙ drawn o.world)

  pub request_approval-Keeps :
      (o : Office) → Keeps (λ q. read q.world) o (request_approval desk opts o)
  unfolding request_approval
  request_approval-Keeps o =
      by_approvers (approvers_of o.world.permissions opts.session (truthy opts.approver_user_id))
    where
      by_approvers :
          (as' : List String) → Keeps (λ q. read q.world) o (among_approvers desk opts as' o)
      by_approvers [] = told _ o
      by_approvers (a ∷ as') =
          let origin = origin_of o (truthy opts.session.messaging_group_id) in
          Keeps-then_do (λ q. read q.world) o
            (pick_approval_delivery desk.env desk.adapters (a ∷ as') origin o)
            (to_approver desk opts)
            (pick_approval_delivery-Keeps (λ q. read q.world) stable desk.env desk.adapters
              (a ∷ as') origin o)
            to_approver-Keeps

-- The request as a step of the world leaves the inbound databases of the other sessions.
pub requests-Others :
    (other : String) (desk : RequestDesk) (opts : RequestApprovalOptions)
    → (opts.session.id == other) ≡ false
    → (o : Office) (w : World)
    → lookup_db other (world_of (requests desk o opts w)).inboxes ≡ lookup_db other w.inboxes
requests-Others other desk opts n o w =
    by_end (request_approval desk opts (record o { world = w; cards = [] })) (
      request_approval-Keeps (λ v. lookup_db other v.inboxes) (Stable-inbox other) (λ v. refl) desk
        opts (λ body q. notify_agent-Keeps other desk.env opts.session body q n)
        (record o { world = w; cards = [] }))
  where
    by_end :
        (r : Ended (Unit {0}))
        → inbox_of other (office_of r) ≡ lookup_db other w.inboxes
        → lookup_db other (world_of (seen r)).inboxes ≡ lookup_db other w.inboxes
    by_end (ended u o') h = h
    by_end (broke o') h = h
