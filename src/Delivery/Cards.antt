-- ===== src/Delivery/Cards.antt =====
-- What `deliverMessage` of src/delivery.ts hands to the channel adapter, with `requestApproval` of
-- src/modules/approvals/primitive.ts behind the gate of the messages between agents.
use pocketclaw_telegram.Prelude.{
  String, Bool, Option, List, ◌≡◌, ◌⊎◌, ◌==◌, ◌++◌, ◌∷◌, [], some, none, inl, inr, refl, ap, sym,
  ◌∙◌, false, if_lem, any, map, append_none, subst, true,
}
use pocketclaw_telegram.World.{
  World, Env, Ran, ok, threw, write_session_message, continue, return, woken, lookup_db,
}
use pocketclaw_telegram.SessionDb.{MessageOut, NewMessage}
use pocketclaw_telegram.Types.{Session}
use pocketclaw_telegram.Sessions.{get_session}
use pocketclaw_telegram.Approvals.{
  Office, Ended, Card, ended, broke, lifted, RequestApprovalOptions,
}
use pocketclaw_telegram.Approvals.Response.{note_row, counted_draw, system_text}
use pocketclaw_telegram.Approvals.Response.Clicks.{office_of}
use pocketclaw_telegram.Approvals.Reach.{upsert_user_dm}
use pocketclaw_telegram.Approvals.Reach.Quiet.{Keeps, Stable, Keeps-then_do}
use pocketclaw_telegram.Approvals.Request.{
  RequestDesk, request_approval, notify_agent, wake_again, wake_found_session,
}
use pocketclaw_telegram.Approvals.Request.Asked.{request_approval-Asked, is_pending}
use pocketclaw_telegram.Approvals.Request.Held.{requests, seen, with_cards, card_effect}
use pocketclaw_telegram.Approvals.Request.Others.{request_approval-Keeps}
use pocketclaw_telegram.AgentToAgent.Gated.{route_host}
use pocketclaw_telegram.AgentToAgent.Route.{gate_request}
use pocketclaw_telegram.Delivery.Attempts.{world_of}
use pocketclaw_telegram.Delivery.Message.{Channels, deliver_message}
use pocketclaw_telegram.Delivery.Quiet.{
  sends, sends_of, sends-append, sends-insert_into, noted, card_call, Call,
}
use pocketclaw_telegram.Delivery.Sends.{Silent, SentOnce, HeldBack, deliver_message-Handed}

-- What the office's world has handed to the channel adapter.
abbrev handed : Office → List Call
handed o = sends_of o.world

Stable-handed : Stable handed
unfolding upsert_user_dm
Stable-handed = (
  λ dm o. refl,
  λ mg o.
      if_lem (λ (r : Ran (Unit {0})). Keeps handed o (lifted o r))
        (any (λ h. h.id == mg.id) o.world.messaging_groups) _ _ refl refl,
)

handed-lifted :
    (o : Office) (r : Ran (Unit {0}))
    → sends_of (world_of r) ≡ handed o
    → Keeps handed o (lifted o r)
handed-lifted o (ok u w) h = h
handed-lifted o (threw w) h = h

handed-wake_again : (env : Env) (s : Session) (o : Office) → Keeps handed o (wake_again env s o)
handed-wake_again env s o =
    handed-lifted o (wake_found_session env (get_session o.world.sessions s.id) o.world)
      (by_found (get_session o.world.sessions s.id))
  where
    by_found :
        (f : Option Session) → sends_of (world_of (wake_found_session env f o.world)) ≡ handed o
    by_found none = refl
    by_found (some fresh) =
        if_lem (λ (r : Ran (Unit {0})). sends_of (world_of r) ≡ handed o) (env.spawns fresh.id) _ _
          (noted o.world (woken fresh.id) refl) refl

handed-notify_agent :
    (env : Env) (s : Session) (body : String) (o : Office)
    → Keeps handed o (notify_agent env s body o)
unfolding notify_agent write_session_message
handed-notify_agent env s body o =
    Keeps-then_do handed o (lifted o (write_session_message env s.id note (counted_draw o.world)))
      (λ u. wake_again env s)
      (handed-lifted o (write_session_message env s.id note (counted_draw o.world)) (
        sends-insert_into env s.id note (lookup_db s.id (counted_draw o.world).inboxes)
          (counted_draw o.world)))
      (λ u o'. handed-wake_again env s o')
  where
    note : NewMessage
    note = record (note_row env o.world.draws s (system_text env body)) {
      id = env.fresh "sys" o.world.draws;
    }

-- Nothing is handed to the adapter, or one card.
abbrev pub OneCard {ℓ} : {A : Type ℓ} → World → Ran A → Type 0
OneCard w r =
    (sends_of (world_of r) ≡ sends_of w)
    ⊎ ((type platform question : String) × (sends_of (world_of r)
          ≡ sends_of w ++ card_call type platform question ∷ []))

sends-with_cards :
    (o : Office) (w : World) (cards : List Card)
    → handed o ≡ sends_of w
    → o.cards ≡ cards
    → sends_of (with_cards o) ≡ sends_of w ++ sends (map card_effect cards)
sends-with_cards o w cards h e =
    sends-append o.world.effects (map card_effect o.cards)
    ∙ (ap (λ l. l ++ sends (map card_effect o.cards)) h
        ∙ ap (λ cs. sends_of w ++ sends (map card_effect cs)) e)

requests-OneCard :
    (desk : RequestDesk) (o : Office) (opts : RequestApprovalOptions) (w : World)
    → OneCard w (requests desk o opts w)
requests-OneCard desk o opts w =
    by_end (request_approval desk opts start)
      (request_approval-Keeps sends_of Stable-handed (λ v. refl) desk opts
        (handed-notify_agent desk.env opts.session) start)
      (request_approval-Asked desk opts start)
  where
    start : Office
    start = record o { world = w; cards = [] }

    by_cards :
        (q : Office)
        → handed q ≡ sends_of w
        → (q.cards ≡ [])
          ⊎ ((card : Card) × (q.cards ≡ [] ++ card ∷ []) × (is_pending card.question_id q ≡ true))
        → (sends_of (with_cards q) ≡ sends_of w)
          ⊎ ((type platform question : String) × (sends_of (with_cards q)
                ≡ sends_of w ++ card_call type platform question ∷ []))
    by_cards q h (inl none_sent) =
        inl (sends-with_cards q w [] h none_sent ∙ append_none (sends_of w))
    by_cards q h (inr (card, one, _)) = inr (
      card.channel_type,
      card.platform_id,
      card.question_id,
      sends-with_cards q w (card ∷ []) h one,
    )

    by_end :
        (r : Ended (Unit {0}))
        → handed (office_of r) ≡ sends_of w
        → ((office_of r).cards ≡ [])
          ⊎ ((card : Card) × ((office_of r).cards ≡ [] ++ card ∷ [])
              × (is_pending card.question_id (office_of r) ≡ true))
        → OneCard w (seen r)
    by_end (ended u q) h a = by_cards q h a
    by_end (broke q) h a = by_cards q h a

module _ (outbox_dir : String → String → Bool) (readable : String → String → String → Bool)
    (desk : RequestDesk) (o : Office) (env : Env) (ch : Channels) (msg : MessageOut)
    (s : Session) where
  -- The channels, with the approvals module behind the routes.
  abbrev pub gated_channels : Channels
  gated_channels = record ch { outbox = route_host outbox_dir readable desk o }

  abbrev pub Permitted : World → Ran (Option String) → Type 0
  Permitted w r =
      Silent env gated_channels msg s w r
      ⊎ (SentOnce env gated_channels msg s w r
          ⊎ (HeldBack env gated_channels msg s w r × OneCard w r))

  HeldBack-OneCard :
      (w : World) (r : Ran (Option String)) → HeldBack env gated_channels msg s w r → OneCard w r
  HeldBack-OneCard w r (target, _, _, (run, (_, (p, _, asked)), rest)) =
      subst (λ (q : Ran (Option String)). OneCard w q) (sym rest)
        (continued run (
          subst (λ (q : Ran (Unit {0})). OneCard w q) (sym asked)
            (requests-OneCard desk o (gate_request msg s target p) w)))
    where
      continued :
          (q : Ran (Unit {0}))
          → OneCard w q
          → OneCard w (continue q (λ done. return {A = Option String} none))
      continued (ok u v) h = h
      continued (threw v) h = h

  -- Delivering a message that is no system action hands the channel adapter nothing, or this message
  -- once: to the instance of a known chat at the message's address, which is the session's own chat or
  -- one that the agent has a destination for, where there is a table of destinations. Or the message
  -- is for another agent group on an edge with an approval policy: then what is run is exactly the
  -- request for that approval, sent to the policy's approver, and it hands the adapter at most one
  -- card and no message.
  pub deliver_message-Permitted :
      (w : World)
      → (msg.kind == "system") ≡ false
      → Permitted w (deliver_message env (some gated_channels) msg s w)
  deliver_message-Permitted w h = elim (deliver_message-Handed env gated_channels msg s w h) [
    | inl silent ↦ inl silent
    | inr (inl once) ↦ inr (inl once)
    | inr (inr held) ↦ inr (inr (held, HeldBack-OneCard w _ held))
  ]
