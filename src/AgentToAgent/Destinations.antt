-- ===== src/AgentToAgent/Destinations.antt =====
-- src/modules/agent-to-agent/db/: who may send to whom, and which edges wait for an approver. The key
-- of `agent_destinations` is the owner and the local name, that of `agent_message_policies` the edge.
use pocketclaw_telegram.Types.{TargetType, AgentDestination, AgentMessagePolicy, agent, channel}
use pocketclaw_telegram.Prelude.{
  String, List, Bool, true, not, ◌==◌, Option, any, ℕ, select, false, ◌&&◌, find, if◌then◌else◌,
  ◌||◌, some, none, update, ◌++◌, ◌∷◌, [],
}

abbrev pub is_agent : TargetType → Bool
is_agent agent = true
is_agent channel = false

abbrev pub same_target : TargetType → TargetType → Bool
same_target agent t = is_agent t
same_target channel t = not (is_agent t)

abbrev pub names : String → String → AgentDestination → Bool
names group name d = d.agent_group_id == group && d.local_name == name

abbrev pub reaches : String → TargetType → String → AgentDestination → Bool
reaches group type id d =
    d.agent_group_id == group && same_target type d.target_type && d.target_id == id

unfoldable pub get_destination_by_name :
    List AgentDestination → String → String → Option AgentDestination
get_destination_by_name ds group name = find (names group name) ds

unfoldable pub get_destination_by_target :
    List AgentDestination → String → TargetType → String → Option AgentDestination
get_destination_by_target ds group type id = find (reaches group type id) ds

unfoldable pub has_destination : List AgentDestination → String → TargetType → String → Bool
has_destination ds group type id = any (reaches group type id) ds

-- `none` where the key is taken.
unfoldable pub create_destination :
    List AgentDestination → AgentDestination → Option (List AgentDestination)
create_destination ds d =
    if any (names d.agent_group_id d.local_name) ds then none else some (ds ++ d ∷ [])

abbrev pub is_edge : String → String → AgentMessagePolicy → Bool
is_edge source target p = p.from_agent_group_id == source && p.to_agent_group_id == target

unfoldable pub get_message_policy :
    List AgentMessagePolicy → String → String → Option AgentMessagePolicy
get_message_policy ps source target = find (is_edge source target) ps

-- `ON CONFLICT … DO UPDATE SET approver`
unfoldable pub set_message_policy :
    List AgentMessagePolicy → String → String → String → ℕ → List AgentMessagePolicy
set_message_policy ps source target approver now =
    if any (is_edge source target) ps
    then update (is_edge source target) (λ p. record p { approver = approver }) ps
    else ps
      ++ (record {
        from_agent_group_id = source;
        to_agent_group_id = target;
        approver = approver;
        created_at = now;
      })
        ∷ []

unfoldable pub remove_message_policy :
    List AgentMessagePolicy → String → String → List AgentMessagePolicy
remove_message_policy ps source target = select (λ p. not (is_edge source target p)) ps

unfoldable pub delete_policies_touching : List AgentMessagePolicy → String → List AgentMessagePolicy
delete_policies_touching ps group =
    select (λ p. not (p.from_agent_group_id == group || p.to_agent_group_id == group)) ps

-- The destinations and the policies after a deletion.
abbrev pub without_policy :
    List AgentMessagePolicy → String → Option AgentDestination → List AgentMessagePolicy
without_policy ps group none = ps
without_policy ps group (some d) =
    if is_agent d.target_type then remove_message_policy ps group d.target_id else ps

unfoldable pub delete_destination :
    List AgentDestination
    → List AgentMessagePolicy
    → String
    → String
    → List AgentDestination × List AgentMessagePolicy
delete_destination ds ps group name = (
  select (λ d. not (names group name d)) ds,
  without_policy ps group (get_destination_by_name ds group name),
)

unfoldable pub delete_all_destinations_touching :
    List AgentDestination
    → List AgentMessagePolicy
    → String
    → List AgentDestination × List AgentMessagePolicy
delete_all_destinations_touching ds ps group = (
  select (λ d. not (d.agent_group_id == group || (is_agent d.target_type && d.target_id == group)))
      ds,
  delete_policies_touching ps group,
)
