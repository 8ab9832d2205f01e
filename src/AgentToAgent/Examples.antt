-- ===== src/AgentToAgent/Examples.antt =====
-- Messages from one agent to another.
use pocketclaw_telegram.Types.{AgentDestination, AgentMessagePolicy, agent}
use pocketclaw_telegram.AgentToAgent.Destinations.{
  get_destination_by_name, get_message_policy, delete_destination,
}
use pocketclaw_telegram.SessionDb.{
  MessageOut, InboundDb, insert_message, insert_row, next_even_seq, message_row, max_seq,
}
use pocketclaw_telegram.AgentToAgent.Authorized.{Held, inboxes_of, Free}
use pocketclaw_telegram.AgentToAgent.Gated.{route_agent_message-Authorized}
use pocketclaw_telegram.World.{lookup_db, World, ok, file_copied}
use pocketclaw_telegram.AgentToAgent.Route.{
  resolve_target_session, route_agent_message, agent_message,
}
use pocketclaw_telegram.AgentToAgent.Files.{forward_attached_files, forwarded_attachment}
use pocketclaw_telegram.Prelude.{List, ◌≡◌, String, some, ◌∷◌, [], none, ◌⊎◌, map, ◌++◌, refl}
use pocketclaw_telegram.Fixtures.{
  out_row, inbox, world, env, row, files, approvals_desk, office, session_a, session_b,
}
use pocketclaw_telegram.AgentToAgent.Attachments.{carried, forward_attached_files_lem}
use pocketclaw_telegram.Sessions.{get_session}
use pocketclaw_telegram.AgentToAgent.Edges.{policy-delete_destination}
use pocketclaw_telegram.AgentToAgent.Returns.{reply_returns}

abbrev edge : AgentDestination
edge = record {
  agent_group_id = "ag-1";
  local_name = "b";
  target_type = agent;
  target_id = "ag-2";
  created_at = 1;
}

abbrev policy : AgentMessagePolicy
policy = record {
  from_agent_group_id = "ag-1";
  to_agent_group_id = "ag-2";
  approver = "tg:1";
  created_at = 1;
}

abbrev second_name : AgentDestination
second_name = record edge { local_name = "b2" }

-- The policy of an edge with two local names goes with the first of them.
policy-delete_destination_example :
    get_message_policy
      (delete_destination (edge ∷ second_name ∷ []) (policy ∷ []) "ag-1" "b").1
      "ag-1"
      "ag-2"
    ≡ none
unfolding get_destination_by_name
policy-delete_destination_example =
    policy-delete_destination (edge ∷ second_name ∷ []) (policy ∷ []) "ag-1" "b" "ag-1" "ag-2"

abbrev to_b : MessageOut
to_b = record out_row { channel_type = some "agent"; platform_id = some "ag-2" }

-- The edge to the other agent has an approval policy.
abbrev gated : World
gated = record world { destinations = edge ∷ []; policies = policy ∷ [] }

route_agent_message-Authorized_example :
    (inboxes_of (route_agent_message env files to_b session_a gated) ≡ gated.inboxes)
    ⊎ ((target : String) × (to_b.platform_id ≡ some target)
        × (Free gated session_a.agent_group_id target
            ⊎ (Held files to_b session_a target gated
                  (route_agent_message env files to_b session_a gated)
                × ((session_a.id ≡ "s-b")
                    ⊎ (lookup_db "s-b"
                          (inboxes_of (route_agent_message env files to_b session_a gated))
                        ≡ lookup_db "s-b" gated.inboxes)))))
route_agent_message-Authorized_example =
    route_agent_message-Authorized files.outbox_dir files.readable approvals_desk office env to_b
      session_a gated "s-b"

abbrev asked : InboundDb
asked = record inbox {
  messages_in = row ∷ message_row (agent_message env "a2a" session_a "{}") 4 ∷ [];
}

abbrev reply : MessageOut
reply = record out_row {
  channel_type = some "agent";
  platform_id = some "ag-1";
  in_reply_to = some "a2a";
}

abbrev conversing : World
conversing = record world { inboxes = ("s-a", inbox) ∷ ("s-b", asked) ∷ [] }

reply_returns_example :
    resolve_target_session env reply session_b "ag-1" conversing ≡ ok session_a conversing
unfolding insert_message insert_row next_even_seq max_seq get_session
reply_returns_example =
    reply_returns env "a2a" "{}" session_a session_b session_a inbox asked reply conversing refl
      refl refl refl refl refl refl

abbrev carried_names : List String
carried_names = carried files.outbox_dir files.readable "s-a" "o-1" ("x" ∷ "../y" ∷ [])

forward_attached_files_lem_example :
    forward_attached_files files.outbox_dir files.readable "s-a" "o-1" "a2a"
      ("x" ∷ "../y" ∷ [])
      world
    ≡ (
      map (forwarded_attachment "a2a") carried_names,
      record world { effects = world.effects ++ map (file_copied "s-a" "o-1") carried_names },
    )
forward_attached_files_lem_example =
    forward_attached_files_lem files.outbox_dir files.readable "s-a" "o-1" "a2a" ("x" ∷ "../y" ∷ [])
      world
