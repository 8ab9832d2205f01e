-- ===== src/AgentToAgent/Edges.antt =====
-- Destinations and approval policies together: src/modules/agent-to-agent/db/agent-destinations.ts.
use pocketclaw_telegram.Prelude.{
  Option, String, List, Bool, ◌≡◌, find, false, true, select, if◌then◌else◌, ◌==◌, not, none, some,
  ◌&&◌, Bool-cases, arith, inl, eq_iff, inr, ◌∷◌, [], refl, ap, ◌∙◌,
}
use pocketclaw_telegram.Types.{AgentMessagePolicy, AgentDestination}
use pocketclaw_telegram.AgentToAgent.Destinations.{
  remove_message_policy, delete_destination, is_edge, get_message_policy, without_policy,
  get_destination_by_name, is_agent,
}

abbrev pub dropped_edge : Option AgentDestination → String → String → String → Bool
dropped_edge none group a b = false
dropped_edge (some d) group a b = is_agent d.target_type && group == a && d.target_id == b

-- Two lookups of one row ask for the same edge.
same_edge :
    (p : AgentMessagePolicy) (a b c d : String)
    → is_edge a b p ≡ true
    → is_edge c d p ≡ (a == c && b == d)
same_edge p a b c d e =
    let ea : p.from_agent_group_id ≡ a = ground (arith, eq_iff p.from_agent_group_id a) in
    let eb : p.to_agent_group_id ≡ b = ground (arith, eq_iff p.to_agent_group_id b) in rw (ea, eb)

find-select-not :
    (a b c d : String) (ps : List AgentMessagePolicy)
    → find (is_edge c d) (select (λ p. not (is_edge a b p)) ps)
      ≡ (if a == c && b == d then none else find (is_edge c d) ps)
find-select-not a b c d [] = elim (Bool-cases (a == c && b == d)) [ inl e ↦ rw e | inr e ↦ rw e ]
find-select-not a b c d (p ∷ ps) = elim (Bool-cases (is_edge a b p)) [
  | inl e ↦ ground (arith, find-select-not a b c d ps, same_edge p a b c d e)
  | inr e ↦
      let rest : List AgentMessagePolicy = select (λ q. not (is_edge a b q)) ps in
      let kept : find (is_edge c d) (select (λ q. not (is_edge a b q)) (p ∷ ps))
          ≡ (if is_edge c d p then some p else find (is_edge c d) rest) =
        ap (λ t. find (is_edge c d) (if not t then p ∷ rest else rest)) e in
      elim (Bool-cases (is_edge c d p)) [
        | inl f ↦ kept ∙ ground (arith, same_edge p c d a b f, eq_iff a c, eq_iff b d)
        | inr f ↦ kept ∙ ground (arith, find-select-not a b c d ps)
      ]
]

without_policy_lem :
    (ps : List AgentMessagePolicy) (group a b : String) (d : Option AgentDestination)
    → find (is_edge a b) (without_policy ps group d)
      ≡ (if dropped_edge d group a b then none else find (is_edge a b) ps)
unfolding remove_message_policy
without_policy_lem ps group a b none = refl
without_policy_lem ps group a b (some d) = elim (Bool-cases (is_agent d.target_type)) [
  | inl e ↦ ground (arith, find-select-not group d.target_id a b ps)
  | inr e ↦ ground arith
]

-- Deleting the local name of an agent drops the approval policy of that edge and leaves the policy of
-- every other edge as it was; deleting the name of a chat, or a name that is not there, drops none.
pub policy-delete_destination :
    (ds : List AgentDestination) (ps : List AgentMessagePolicy) (group name a b : String)
    → get_message_policy ((delete_destination ds ps group name).1) a b ≡ (
        if dropped_edge (get_destination_by_name ds group name) group a b
        then none
        else get_message_policy ps a b)
unfolding delete_destination get_message_policy
policy-delete_destination ds ps group name a b =
    without_policy_lem ps group a b (get_destination_by_name ds group name)
