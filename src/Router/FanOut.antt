-- ===== src/Router/FanOut.antt =====
-- What the fan-out of src/router.ts does for one wired agent, by the answers of the gates.
use pocketclaw_telegram.Prelude.{
  String, Bool, true, false, ◌&&◌, Option, if◌then◌else◌, ◌≡◌, ap, ◌∙◌, refl, subst, Bool-cases,
  sym, inl, inr, ◌⊎◌,
}
use pocketclaw_telegram.Types.{
  MessagingGroup, MessagingGroupAgent, drop, accumulate, IgnoredMessagePolicy,
}
use pocketclaw_telegram.World.{World, Env, ok, M, ◌>>=◌, return, ◌>>◌}
use pocketclaw_telegram.Router.Event.{
  Event, Adapter, Hooks, Outcome, engaged, accumulated, declined, missing, evaluate_engage,
}
use pocketclaw_telegram.Router.Agents.{
  consider_agent, ask_access, ask_scope, engage_agent, ignore_agent, deliver_to_agent, supports,
  subscribe_once, is_accumulate,
}
use pocketclaw_telegram.World.Runs.{run_ok, >>-eq-ok, >>=-eq-ok}

module _ (env : Env) (hooks : Hooks) (adapter : Option Adapter) (mg : MessagingGroup) (e : Event)
    (user : Option String) (message : String) (already : Bool) (agent : MessagingGroupAgent)
    (w : World) where
  abbrev refusal : M (Outcome × Bool)
  refusal = return (declined, already)

  abbrev chosen : Bool → Bool → M (Outcome × Bool)
  chosen access scope =
      if access && scope
      then engage_agent env adapter mg e user agent already
      else return (declined, already)

  abbrev scoped : Bool → M (Outcome × Bool)
  scoped access = ask_scope hooks e user mg agent >>= chosen access

  abbrev ignored : M (Outcome × Bool)
  ignored =
      deliver_to_agent env agent mg e user (supports adapter) false >> return (accumulated, already)

  abbrev gates : M (Outcome × Bool)
  gates = ask_access hooks e user mg agent >>= scoped

  -- A wiring engages on the message, and one of the two gates refuses the sender: the world is what
  -- the gates left, whatever the wiring's policy for ignored messages is. Nothing is delivered, no
  -- session is opened and nothing is stored as silent context.
  pub refused_sender_leaves_nothing :
      (w₁ w₂ : World) (access scope : Bool)
      → evaluate_engage env w agent message e.is_mention mg e.thread_id ≡ true
      → ask_access hooks e user mg agent w ≡ ok access w₁
      → ask_scope hooks e user mg agent w₁ ≡ ok scope w₂
      → (access && scope) ≡ false
      → consider_agent env hooks adapter mg e user message already agent w
        ≡ ok (declined, already) w₂
  unfolding consider_agent
  refused_sender_leaves_nothing w₁ w₂ access scope h a s r =
      ap (λ b. if b then gates w else ignore_agent env adapter mg e user agent already w) h
      ∙ run_ok (ask_access hooks e user mg agent) scoped a
      ∙ run_ok (ask_scope hooks e user mg agent) (chosen access) s
      ∙ ap
          (λ b.
            (if b
                then engage_agent env adapter mg e user agent already
                else return (declined, already))
              w₂)
          r

  -- What is true of each outcome of a round.
  abbrev pub Accounts : Outcome → World → Type 0
  Accounts engaged w' =
      (w₁ w₂ : World) × (evaluate_engage env w agent message e.is_mention mg e.thread_id ≡ true)
      × (ask_access hooks e user mg agent w ≡ ok true w₁)
      × (ask_scope hooks e user mg agent w₁ ≡ ok true w₂)
  Accounts accumulated w' =
      (evaluate_engage env w agent message e.is_mention mg e.thread_id ≡ false)
      × (agent.ignored_message_policy ≡ accumulate)
  Accounts declined w' =
      ((w₁ : World) × (access scope : Bool) × (evaluate_engage env w agent message e.is_mention mg
            e.thread_id
          ≡ true)
        × (ask_access hooks e user mg agent w ≡ ok access w₁)
        × (ask_scope hooks e user mg agent w₁ ≡ ok scope w')
        × ((access && scope) ≡ false))
      ⊎ ((evaluate_engage env w agent message e.is_mention mg e.thread_id ≡ false)
          × (agent.ignored_message_policy ≡ drop)
          × (w' ≡ w))
  Accounts missing w' = ⊥

  engage_outcome :
      (o : Outcome) (flag : Bool) (v w' : World)
      → engage_agent env adapter mg e user agent already v ≡ ok (o, flag) w'
      → o ≡ engaged
  engage_outcome o flag v w' h =
      let (_, v₁, _, h₁) =
        >>-eq-ok (deliver_to_agent env agent mg e user (supports adapter) true)
          (subscribe_once agent adapter e mg already >>= λ f. return (engaged, f)) v h in
      let (f, v₂, _, h₂) =
        >>=-eq-ok (subscribe_once agent adapter e mg already) (λ f. return (engaged, f)) v₁ h₁ in
      cc

  ignore-Accounts :
      (o : Outcome) (flag : Bool) (w' : World) (policy : IgnoredMessagePolicy)
      → agent.ignored_message_policy ≡ policy
      → evaluate_engage env w agent message e.is_mention mg e.thread_id ≡ false
      → ignore_agent env adapter mg e user agent already w ≡ ok (o, flag) w'
      → Accounts o w'
  ignore-Accounts o flag w' accumulate p quiet h =
      let (_, v, _, done) =
        >>-eq-ok (deliver_to_agent env agent mg e user (supports adapter) false)
          (return (accumulated, already)) w
          (ap (λ q. (if is_accumulate q then ignored else return (declined, already)) w) (sym p)
            ∙ h) in
      let same : accumulated ≡ o = cc in subst (λ q. Accounts q w') same (quiet, p)
  ignore-Accounts o flag w' drop p quiet h =
      let done : refusal w ≡ ok (o, flag) w' =
        ap (λ q. (if is_accumulate q then ignored else return (declined, already)) w) (sym p) ∙ h in
      let same : declined ≡ o = cc in
      let unchanged : w' ≡ w = cc in subst (λ q. Accounts q w') same (inr (quiet, p, unchanged))

  refused-Accounts :
      (o : Outcome) (flag : Bool) (w' : World)
      → evaluate_engage env w agent message e.is_mention mg e.thread_id ≡ true
      → (access scope : Bool) (w₁ w₂ : World) → ask_access hooks e user mg agent w ≡ ok access w₁
      → ask_scope hooks e user mg agent w₁ ≡ ok scope w₂
      → (access && scope) ≡ false
      → refusal w₂ ≡ ok (o, flag) w'
      → Accounts o w'
  refused-Accounts o flag w' fires access scope w₁ w₂ a s r h =
      let same : declined ≡ o = cc in
      let last : ok scope w₂ ≡ ok scope w' = cc in
      subst (λ q. Accounts q w') same (inl (w₁, access, scope, fires, a, s ∙ last, r))

  gates-Accounts :
      (o : Outcome) (flag : Bool) (w' : World)
      → evaluate_engage env w agent message e.is_mention mg e.thread_id ≡ true
      → gates w ≡ ok (o, flag) w'
      → Accounts o w'
  gates-Accounts o flag w' fires h =
      let (access, w₁, a, h₁) = >>=-eq-ok (ask_access hooks e user mg agent) scoped w h in
      let (scope, w₂, s, h₂) = >>=-eq-ok (ask_scope hooks e user mg agent) (chosen access) w₁ h₁ in
      by_answers access scope w₁ w₂ a s h₂
    where
      by_answers :
          (access scope : Bool) (w₁ w₂ : World)
          → ask_access hooks e user mg agent w ≡ ok access w₁
          → ask_scope hooks e user mg agent w₁ ≡ ok scope w₂
          → chosen access scope w₂ ≡ ok (o, flag) w'
          → Accounts o w'
      by_answers true true w₁ w₂ a s h =
          subst (λ q. Accounts q w') (sym (engage_outcome o flag w₂ w' h)) (w₁, w₂, fires, a, s)
      by_answers true false w₁ w₂ a s h =
          refused-Accounts o flag w' fires true false w₁ w₂ a s refl h
      by_answers false scope w₁ w₂ a s h =
          refused-Accounts o flag w' fires false scope w₁ w₂ a s refl h

  -- Every outcome of a round is accounted for: an agent is engaged only if its wiring engages and
  -- both gates let the sender pass; a message is stored as silent context only if the wiring does
  -- not engage and its policy is to accumulate; and an agent declines only if its wiring engages and
  -- a gate refused the sender, when the world is what the gates left, or if its wiring does not
  -- engage and its policy is to drop, when the world is as it was.
  pub consider_agent-Accounts :
      (o : Outcome) (flag : Bool) (w' : World)
      → consider_agent env hooks adapter mg e user message already agent w ≡ ok (o, flag) w'
      → Accounts o w'
  unfolding consider_agent
  consider_agent-Accounts o flag w' h =
      elim (Bool-cases (evaluate_engage env w agent message e.is_mention mg e.thread_id)) [
        | inl fires ↦ gates-Accounts o flag w' fires (
            ap (λ b. if b then gates w else ignore_agent env adapter mg e user agent already w)
              (sym fires)
            ∙ h)
        | inr quiet ↦ ignore-Accounts o flag w' agent.ignored_message_policy refl quiet (
            ap (λ b. if b then gates w else ignore_agent env adapter mg e user agent already w)
              (sym quiet)
            ∙ h)
      ]
