-- ===== src/Router/Refused.antt =====
-- What `deliverToAgent` of src/router.ts keeps from the container where the command gate refuses.
use pocketclaw_telegram.Prelude.{
  String, Bool, Option, some, none, [], ◌∷◌, ◌++◌, ◌≡◌, ◌≢◌, ◌⊎◌, refl, inl, inr, sym, ◌∙◌,
  Option-cases, arith, true, false,
}
use pocketclaw_telegram.Types.{MessagingGroup, MessagingGroupAgent, Session}
use pocketclaw_telegram.SessionDb.{InboundDb}
use pocketclaw_telegram.CommandGate.{GateResult, pass, filter, deny}
use pocketclaw_telegram.Sessions.{Resolved}
use pocketclaw_telegram.World.Outbound.{write_outbound_direct}
use pocketclaw_telegram.World.{
  World, Env, lookup_db, empty_inbound, opened, opened_or_threw, open_session, continue, M,
}
use pocketclaw_telegram.Router.Event.{Event}
use pocketclaw_telegram.Router.Agents.{after_gate, deliver_to_agent, gate_result}
use pocketclaw_telegram.Delivery.Attempts.{world_of}

-- Nothing leaves the host, no container is woken and no typing is shown; no inbound row is written:
-- at most an empty database is added, for a session that was opened.
abbrev pub KeptOut : World → World → Type 0
KeptOut w w' =
    (w'.effects ≡ w.effects)
    × ((w'.inboxes ≡ w.inboxes)
        ⊎ ((id : String) × (w'.inboxes ≡ w.inboxes ++ (id, empty_inbound) ∷ [])))

opened-KeptOut : (r : Resolved) (w : World) → KeptOut w (opened r w)
opened-KeptOut r w = by_created r.created
  where
    by_lookup :
        (o : Option InboundDb)
        → ((elim o [ none ↦ w.inboxes ++ (r.session.id, empty_inbound) ∷ [] | some db ↦ w.inboxes ])
            ≡ w.inboxes)
          ⊎ ((id : String) × ((elim o [
            | none ↦ w.inboxes ++ (r.session.id, empty_inbound) ∷ []
            | some db ↦ w.inboxes
          ])
                ≡ w.inboxes ++ (id, empty_inbound) ∷ []))
    by_lookup none = inr (r.session.id, refl)
    by_lookup (some db) = inl refl

    by_created : (b : Bool) → KeptOut w (opened (record r { created = b }) w)
    by_created true = (refl, by_lookup (lookup_db r.session.id w.inboxes))
    by_created false = (refl, inl refl)

module _ (env : Env) (agent : MessagingGroupAgent) (e : Event) where
  -- The gate reads nothing that opening a session writes.
  gate_result-opened :
      (user : Option String) (r : Resolved) (w : World)
      → gate_result env (opened r w) agent e user ≡ gate_result env w agent e user
  unfolding gate_result
  gate_result-opened user r w = by_created r.created
    where
      by_created :
          (b : Bool)
          → gate_result env (opened (record r { created = b }) w) agent e user
            ≡ gate_result env w agent e user
      by_created true = refl
      by_created false = refl

  abbrev Kept : World → World → Type 0
  Kept w w' = (w'.effects ≡ w.effects) × (w'.inboxes ≡ w.inboxes)

  after_gate-Kept :
      (s : Session) (wake : Bool) (g : GateResult) (w : World)
      → g ≢ pass
      → Kept w (world_of (after_gate env agent e s wake g w))
  unfolding write_outbound_direct
  after_gate-Kept s wake pass w refused = absurd (refused refl)
  after_gate-Kept s wake filter w refused = (refl, refl)
  after_gate-Kept s wake (deny command) w refused =
      elim (Option-cases (lookup_db s.id w.outboxes)) [
        | inl missing ↦ (ground arith, ground arith)
        | inr (db, found) ↦ (ground arith, ground arith)
      ]

  -- A message that the command gate filters or denies, on the permissions at the start of the run,
  -- reaches no container, whether the run of `deliverToAgent` returns or throws: every inbound
  -- database that was there is as it was, at most an empty one is added, and no call leaves the host:
  -- no container is woken and no typing is shown.
  pub refused_command_stays_out :
      (mg : MessagingGroup) (user : Option String) (supports_threads wake : Bool) (w : World)
      → gate_result env w agent e user ≢ pass
      → KeptOut w (world_of (deliver_to_agent env agent mg e user supports_threads wake w))
  unfolding deliver_to_agent open_session
  refused_command_stays_out mg user supports_threads wake w refused = by_resolved _
    where
      then_gated : Session → M (Unit {0})
      then_gated s v = after_gate env agent e s wake (gate_result env v agent e user) v

      by_resolved :
          (o : Option Resolved) → KeptOut w (world_of (continue (opened_or_threw o w) then_gated))
      by_resolved none = (refl, inl refl)
      by_resolved (some r) =
          let kept =
            after_gate-Kept r.session wake (gate_result env (opened r w) agent e user) (opened r w)
              (λ same. refused (sym (gate_result-opened user r w) ∙ same)) in
          let there = opened-KeptOut r w in
          (
            kept.0 ∙ there.0,
            elim there.1 [
              | inl same ↦ inl (kept.1 ∙ same)
              | inr (id, more) ↦ inr (id, kept.1 ∙ more)
            ],
          )
