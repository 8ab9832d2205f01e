-- ===== src/AgentToAgent/Gated.antt =====
-- Which sessions `routeAgentMessage` of src/modules/agent-to-agent/agent-route.ts writes to, with
-- `requestApproval` of src/modules/approvals/primitive.ts behind its gate.
use pocketclaw_telegram.Prelude.{
  String, Bool, ◌≡◌, ◌⊎◌, some, inl, inr, refl, ap, ◌∙◌, Bool-cases, ◌==◌, eq_iff,
}
use pocketclaw_telegram.World.{World, Env, Ran, lookup_db, ok, threw}
use pocketclaw_telegram.SessionDb.{MessageOut}
use pocketclaw_telegram.Types.{Session}
use pocketclaw_telegram.Approvals.{Office}
use pocketclaw_telegram.Approvals.Request.{RequestDesk}
use pocketclaw_telegram.Approvals.Request.Held.{requests}
use pocketclaw_telegram.Approvals.Request.Others.{requests-Others}
use pocketclaw_telegram.AgentToAgent.Route.{RouteHost, route_agent_message, gate_request}
use pocketclaw_telegram.AgentToAgent.Authorized.{
  Held, Free, inboxes_of, route_agent_message-Guarded,
}
use pocketclaw_telegram.Delivery.Attempts.{world_of}

module _ (outbox_dir : String → String → Bool) (readable : String → String → String → Bool)
    (desk : RequestDesk) (o : Office) where
  -- The routes with the approvals module behind them.
  abbrev pub route_host : RouteHost
  route_host = record {
    outbox_dir = outbox_dir;
    readable = readable;
    request_approval = requests desk o;
  }

  inboxes_of-world : (r : Ran (Unit {0})) → inboxes_of r ≡ (world_of r).inboxes
  inboxes_of-world (ok u w) = refl
  inboxes_of-world (threw w) = refl

  module _ (env : Env) (msg : MessageOut) (source : Session) (w : World) (other : String) where
    -- The session is the source, or its inbound database is as it was.
    abbrev pub Spared : Ran (Unit {0}) → Type 0
    Spared r = (source.id ≡ other) ⊎ (lookup_db other (inboxes_of r) ≡ lookup_db other w.inboxes)

    Held-Spared :
        (target : String) (r : Ran (Unit {0})) → Held route_host msg source target w r → Spared r
    Held-Spared target r (away, (p, e, run)) = elim (Bool-cases (source.id == other)) [
      | inl same ↦ inl ((eq_iff source.id other).0 same)
      | inr apart ↦ inr (
          ap (λ q. lookup_db other (inboxes_of q)) run
          ∙ (ap (lookup_db other)
                (inboxes_of-world (requests desk o (gate_request msg source target p) w))
              ∙ requests-Others other desk (gate_request msg source target p) apart o w))
    ]

    -- A message between agents leaves every session's inbound database as it was; or it names its
    -- target, which is one that the source may write to freely: itself, or an agent group of its
    -- destinations on an edge without an approval policy; or the target is another agent group on an
    -- edge with a policy, and then the run is exactly that of the request for an approval, sent to the
    -- policy's approver, which leaves the inbound database of every session but the source as it was.
    pub route_agent_message-Authorized :
        (inboxes_of (route_agent_message env route_host msg source w) ≡ w.inboxes)
        ⊎ ((target : String) × (msg.platform_id ≡ some target)
            × (Free w source.agent_group_id target
                ⊎ (Held route_host msg source target w
                      (route_agent_message env route_host msg source w)
                    × Spared (route_agent_message env route_host msg source w))))
    route_agent_message-Authorized =
        elim (route_agent_message-Guarded env route_host msg source w) [
          | inl same ↦ inl same
          | inr (target, named, how) ↦ inr (
            target,
            named,
            elim how [ inl held ↦ inr (held, Held-Spared target _ held) | inr free ↦ inl free ],
          )
        ]
