-- ===== src/Router/Silence.antt =====
-- What the fan-out of src/router.ts leaves undone when it counts no agent.
use pocketclaw_telegram.Router.Event.{
  Outcome, Hooks, engaged, accumulated, Adapter, declined, missing, Event,
}
use pocketclaw_telegram.World.{Env, World, get_agent_group, M, ok, Ran}
use pocketclaw_telegram.Prelude.{
  ℕ, ◌≤◌, Option, arith, String, List, Bool, ◌≡◌, none, ◌⊎◌, ◌∷◌, ap, [], sym, ◌∙◌, inr,
  Option-cases, inl, some,
}
use pocketclaw_telegram.Router.Agents.{counted, fan_out, fan_out_one, consider_agent}
use pocketclaw_telegram.Types.{MessagingGroup, MessagingGroupAgent, AgentGroup}
use pocketclaw_telegram.Router.FanOut.{Accounts, consider_agent-Accounts}
use pocketclaw_telegram.World.Runs.{>>=-eq-ok}

counted_grows : (o : Outcome) (n : ℕ) → n ≤ counted o n
counted_grows engaged n = omega arith
counted_grows accumulated n = omega arith
counted_grows declined n = omega arith
counted_grows missing n = omega arith

module _ (env : Env) (hooks : Hooks) (adapter : Option Adapter) (mg : MessagingGroup) (e : Event)
    (user : Option String) (message : String) where
  -- From the world `w` of its turn to `v`, an agent has no group, and nothing changes; or it declines.
  abbrev pub Silent : MessagingGroupAgent → Bool → World → World → Type 0
  Silent agent already w v =
      ((get_agent_group w agent.agent_group_id ≡ none) × (v ≡ w))
      ⊎ Accounts env hooks adapter mg e user message already agent w declined v

  -- The agents have their turns one after the other, each from the world and the subscription flag
  -- that the turn before it left, and each is silent in its turn.
  abbrev pub SilentTurns : List MessagingGroupAgent → Bool → World → World → Type 0
  SilentTurns [] already w w' = w' ≡ w
  SilentTurns (agent ∷ agents) already w w' =
      (o : Outcome) × (flag : Bool) × (v : World) × (fan_out_one env hooks adapter mg e user message
          already agent w
        ≡ ok (o, flag) v)
      × Silent agent already w v
      × SilentTurns agents flag v w'

  abbrev rest : ℕ → List MessagingGroupAgent → Outcome × Bool → M ℕ
  rest n agents r = fan_out env hooks adapter mg e user message (counted r.0 n) r.1 agents

  fan_out_grows :
      (agents : List MessagingGroupAgent) (n r : ℕ) (already : Bool) (w w' : World)
      → fan_out env hooks adapter mg e user message n already agents w ≡ ok r w'
      → n ≤ r
  unfolding fan_out
  fan_out_grows [] n r already w w' h = let same : n ≡ r = cc in omega arith
  fan_out_grows (a ∷ agents) n r already w w' h =
      let ((o, flag), v, _, h₁) =
        >>=-eq-ok (fan_out_one env hooks adapter mg e user message already a) (rest n agents) w h in
      let more = fan_out_grows agents (counted o n) r flag v w' h₁ in
      let step = counted_grows o n in omega arith

  abbrev round : MessagingGroupAgent → Bool → World → Option AgentGroup → Ran (Outcome × Bool)
  round a already w none = ok (missing, already) w
  round a already w (some g) = consider_agent env hooks adapter mg e user message already a w

  counted-Silent :
      (a : MessagingGroupAgent) (already : Bool) (o : Outcome) (n : ℕ) (w v : World)
      → counted o n ≤ n
      → Accounts env hooks adapter mg e user message already a w o v
      → Silent a already w v
  counted-Silent a already engaged n w v c acc = absurd (omega arith)
  counted-Silent a already accumulated n w v c acc = absurd (omega arith)
  counted-Silent a already declined n w v c acc = inr acc
  counted-Silent a already missing n w v c acc = absurd acc

  same_world : {r s : Outcome × Bool} {w v : World} → ok r w ≡ ok s v → v ≡ w
  same_world h = cc

  fan_out_one-Silent :
      (a : MessagingGroupAgent) (already flag : Bool) (o : Outcome) (n : ℕ) (w v : World)
      → counted o n ≤ n
      → fan_out_one env hooks adapter mg e user message already a w ≡ ok (o, flag) v
      → Silent a already w v
  fan_out_one-Silent a already flag o n w v c h =
      elim (Option-cases (get_agent_group w a.agent_group_id)) [
        | inl gone ↦ inl (gone, same_world (ap (round a already w) (sym gone) ∙ h))
        | inr (g, found) ↦ counted-Silent a already o n w v c (
            consider_agent-Accounts env hooks adapter mg e user message already a w o flag v
              (ap (round a already w) (sym found) ∙ h))
      ]

  -- If a fan-out returns with its count as it was, every agent of the list was passed over in its
  -- turn, in the world that the turns before it left: it has no agent group and nothing changed, or
  -- its wiring engages and a gate refused the sender, or its wiring does not engage and its policy is
  -- to drop; and what the last turn left is the world that the fan-out returns.
  pub fan_out-Silent :
      (agents : List MessagingGroupAgent) (n : ℕ) (already : Bool) (w w' : World)
      → fan_out env hooks adapter mg e user message n already agents w ≡ ok n w'
      → SilentTurns agents already w w'
  unfolding fan_out
  fan_out-Silent [] n already w w' h = cc
  fan_out-Silent (a ∷ agents) n already w w' h =
      let ((o, flag), v, h₀, h₁) =
        >>=-eq-ok (fan_out_one env hooks adapter mg e user message already a) (rest n agents) w h in
      let grown = fan_out_grows agents (counted o n) n flag v w' h₁ in
      let step = counted_grows o n in
      let kept : counted o n ≡ n = omega arith in
      (
        o,
        flag,
        v,
        h₀,
        fan_out_one-Silent a already flag o n w v grown h₀,
        fan_out-Silent agents n flag v w'
            (ap (λ k. fan_out env hooks adapter mg e user message k flag agents v) (sym kept) ∙ h₁),
      )
