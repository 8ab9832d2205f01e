-- ===== src/AgentToAgent/Authorized.antt =====
-- Which messages between agents reach another session: `routeAgentMessage` of
-- src/modules/agent-to-agent/agent-route.ts.
use pocketclaw_telegram.World.{World, Ran, Env, ok, threw, get_agent_group}
use pocketclaw_telegram.Prelude.{
  if_lem, ◌≢◌, String, List, ◌≡◌, ◌⊎◌, Option, Bool-cases, some, true, ◌==◌, inl, none, false, inr,
  arith, if◌then◌else◌, refl, subst, eq_iff, sym, Bool, not, ◌&&◌,
}
use pocketclaw_telegram.AgentToAgent.Route.{
  gate_request, RouteHost, route_agent_message_to, route_agent_message, route_named, route_edge,
  route_found, perform_agent_route,
}
use pocketclaw_telegram.SessionDb.{InboundDb, MessageOut}
use pocketclaw_telegram.Types.{Session, agent, AgentMessagePolicy, AgentGroup}
use pocketclaw_telegram.AgentToAgent.Destinations.{has_destination, get_message_policy}

-- The source may write to the target without an approval.
abbrev pub Free : World → String → String → Type 0
Free w source target =
    (target ≡ source)
    ⊎ ((has_destination w.destinations source agent target ≡ true)
        × (get_message_policy w.policies source target ≡ none))

-- The edge has an approval policy, and the run is that of the request to its approver: nothing else
-- happens to the message.
abbrev pub Held : RouteHost → MessageOut → Session → String → World → Ran (Unit {0}) → Type 0
Held box msg source target w r =
    (target ≢ source.agent_group_id)
    × ((p : AgentMessagePolicy) × (get_message_policy w.policies source.agent_group_id target
          ≡ some p)
        × (r ≡ box.request_approval (gate_request msg source target p) w))

pub ne_of_false : (a b : String) → (a == b) ≡ false → a ≢ b
ne_of_false a b h e = ground (arith, (eq_iff a b).1 e)

-- The databases of the sessions, after a run.
abbrev pub inboxes_of {ℓ} : {A : Type ℓ} → Ran A → List (String × InboundDb)
inboxes_of (ok a w) = w.inboxes
inboxes_of (threw w) = w.inboxes

module _ (env : Env) (box : RouteHost) (msg : MessageOut) (source : Session) (w : World) where
  -- No session's inbound database changes, or the message is held, or the target was free.
  abbrev Guarded : String → Ran (Unit {0}) → Type 0
  Guarded target r =
      (inboxes_of r ≡ w.inboxes)
      ⊎ (Held box msg source target w r ⊎ Free w source.agent_group_id target)

  edge-Guarded :
      (target : String) (p : Option AgentMessagePolicy)
      → get_message_policy w.policies source.agent_group_id target ≡ p
      → (target == source.agent_group_id) ≡ false
      → has_destination w.destinations source.agent_group_id agent target ≡ true
      → Guarded target (route_edge env box msg source target p w)
  edge-Guarded target none e other h = inr (inr (inr (h, e)))
  edge-Guarded target (some q) e other h =
      inr (inl (ne_of_false target source.agent_group_id other, (q, e, refl)))

  found-Guarded :
      (target : String) (g : Option AgentGroup)
      → (target == source.agent_group_id) ≡ false
      → has_destination w.destinations source.agent_group_id agent target ≡ true
      → Guarded target (route_found env box msg source target g w)
  found-Guarded target none other h = inl refl
  found-Guarded target (some g) other h =
      subst
        (λ b. Guarded target (
          if b
          then perform_agent_route env box msg source target w
          else route_edge env box msg source target
              (get_message_policy w.policies source.agent_group_id target) w))
        (sym other)
        (edge-Guarded target (get_message_policy w.policies source.agent_group_id target) refl other
          h)

  abbrev unauthorized : String → Bool
  unauthorized target =
      not (target == source.agent_group_id)
      && not (has_destination w.destinations source.agent_group_id agent target)

  refused-Guarded :
      (target : String) (refused : Bool)
      → unauthorized target ≡ refused
      → (refused ≡ false
          → Guarded target (route_found env box msg source target (get_agent_group w target) w))
      → Guarded target (
          if refused
          then threw w
          else route_found env box msg source target (get_agent_group w target) w)
  refused-Guarded target true e h = inl refl
  refused-Guarded target false e h = h refl

  to-Guarded :
      (target : String) → Guarded target (route_agent_message_to env box msg source target w)
  unfolding route_agent_message_to
  to-Guarded target = refused-Guarded target (unauthorized target) refl λ e.
      elim (Bool-cases (target == source.agent_group_id)) [
        | inl same ↦ inr (inr (inl (ground (arith, eq_iff target source.agent_group_id))))
        | inr other ↦ found-Guarded target (get_agent_group w target) other (ground arith)
      ]

  abbrev pub NamedGuarded : Option String → Ran (Unit {0}) → Type 0
  NamedGuarded named r =
      (inboxes_of r ≡ w.inboxes)
      ⊎ ((target : String) × (named ≡ some target)
          × (Held box msg source target w r ⊎ Free w source.agent_group_id target))

  named-Guarded :
      (named : Option String) → NamedGuarded named (route_named env box msg source named w)
  named-Guarded none = inl refl
  named-Guarded (some target) =
      if_lem (λ (r : Ran (Unit {0})). NamedGuarded (some target) r) (target == "") _ _ (inl refl)
        (elim (to-Guarded target) [ inl same ↦ inl same | inr let_in ↦ inr (target, refl, let_in) ])

  -- The three cases of a run, whatever `requestApproval` does.
  pub route_agent_message-Guarded :
      NamedGuarded msg.platform_id (route_agent_message env box msg source w)
  unfolding route_agent_message
  route_agent_message-Guarded = named-Guarded msg.platform_id
