-- ===== src/SenderGates/Admission.antt =====
-- Who reaches an agent when the permissions module is installed: the router's fan-out with the gates of
-- src/modules/permissions/index.ts.
use pocketclaw_telegram.Prelude.{
  if◌then◌else◌, Option, String, ◌≡◌, some, ◌≢◌, true, Bool, refl, false, Bool-cases, ◌==◌, inl,
  none, sym, ap, ◌∙◌, inr, ◌⊎◌, arith, subst,
}
use pocketclaw_telegram.World.{World, Env, Ran, ◌>>=◌, ◌>>◌, return}
use pocketclaw_telegram.SenderGates.{
  handle_unknown_sender, allows, refuse, admit_user, ok, by_policy, public, access_gate, in_scope,
  sender_scope_gate, is_public, all_senders, is_all,
}
use pocketclaw_telegram.Types.{
  MessagingGroup, UnknownSenderPolicy, MessagingGroupAgent, SenderScope, strict, known_senders,
  request_approval,
}
use pocketclaw_telegram.Router.Event.{
  Event, Parsed, or_throw, field_text, parsed_sender, throws, Hooks, Adapter, engaged,
}
use pocketclaw_telegram.Permissions.{can_access_agent_group, AccessDecision, allowed, denied}
use pocketclaw_telegram.Permissions.Access.{MayAccess, is_allowed, can_access_iff}
use pocketclaw_telegram.Router.Agents.{consider_agent}
use pocketclaw_telegram.Router.FanOut.{consider_agent-Accounts}

-- The sender is known by an id and may access the agent group.
abbrev pub IsAdmitted : World → Option String → String → Type 0
IsAdmitted w user group = (id : String) × (user ≡ some id) × MayAccess w.permissions id group

allows-MayAccess :
    (w : World) (id group : String)
    → allows (can_access_agent_group w.permissions id group) ≡ true
    → MayAccess w.permissions id group
allows-MayAccess w id group h =
    (can_access_iff w.permissions id group).0
      (same (can_access_agent_group w.permissions id group) h)
  where
    same : (d : AccessDecision) → allows d ≡ true → is_allowed d ≡ true
    same (allowed r) h = refl
    same (denied r) h = cc

-- A refusal never answers yes.
refuse_says_no :
    (env : Env) (mg : MessagingGroup) (user : Option String) (group : String) (e : Event)
    (w w' : World)
    → refuse env mg user group e w ≢ ok true w'
unfolding handle_unknown_sender
refuse_says_no env mg user group e w w' h = by_sender (parsed_sender env e.content) h
  where
    by_sender :
        (p : Parsed)
        → ((or_throw p >>= λ sender.
                λ v. ok tt (by_policy env e mg user group sender mg.unknown_sender_policy v))
              >> return false)
            w
          ≢ ok true w'
    by_sender throws h = absurd (cc)
    by_sender (field_text s) h = absurd (cc)

admit_user-IsAdmitted :
    (env : Env) (e : Event) (user : Option String) (mg : MessagingGroup) (group : String)
    (w w' : World)
    → admit_user env e user mg group w ≡ ok true w'
    → (w' ≡ w) × IsAdmitted w user group
admit_user-IsAdmitted env e none mg group w w' h =
    absurd (refuse_says_no env mg none group e w w' h)
admit_user-IsAdmitted env e (some id) mg group w w' h = elim (Bool-cases (id == "")) [
  | inl empty ↦ absurd (
      refuse_says_no env mg none group e w w'
        (sym (ap (λ b. if b then refuse env mg none group e w else others) empty) ∙ h))
  | inr named ↦
      let k : others ≡ ok true w' =
        sym (ap (λ b. if b then refuse env mg none group e w else others) named) ∙ h in
      elim (Bool-cases (allows (can_access_agent_group w.permissions id group))) [
        | inl may ↦
            let same : ok true w ≡ ok true w' =
              sym (ap (λ b. if b then ok true w else refuse env mg (some id) group e w) may) ∙ k in
            let unchanged : w' ≡ w = cc in (unchanged, (id, refl, allows-MayAccess w id group may))
        | inr may_not ↦ absurd (
            refuse_says_no env mg (some id) group e w w' (
              sym (ap (λ b. if b then ok true w else refuse env mg (some id) group e w) may_not)
              ∙ k))
      ]
]
  where
    others : Ran Bool
    others =
        if allows (can_access_agent_group w.permissions id group)
        then ok true w
        else refuse env mg (some id) group e w

-- The chat is public, or the sender is admitted.
abbrev pub PassesAccess : World → MessagingGroup → Option String → String → Type 0
PassesAccess w mg user group = (mg.unknown_sender_policy ≡ public) ⊎ IsAdmitted w user group

is_public-eq : (q : UnknownSenderPolicy) → is_public q ≡ true → q ≡ public
is_public-eq public h = refl
is_public-eq strict h = cc
is_public-eq request_approval h = cc

access_gate-PassesAccess :
    (env : Env) (e : Event) (user : Option String) (mg : MessagingGroup) (group : String)
    (w w' : World)
    → access_gate env e user mg group w ≡ ok true w'
    → (w' ≡ w) × PassesAccess w mg user group
unfolding access_gate
access_gate-PassesAccess env e user mg group w w' h =
    elim (Bool-cases (is_public mg.unknown_sender_policy)) [
      | inl open_chat ↦
          let same : ok true w ≡ ok true w' =
            sym (ap (λ b. if b then ok true w else admit_user env e user mg group w) open_chat)
            ∙ h in
          let unchanged : w' ≡ w = cc in
          (unchanged, inl (is_public-eq mg.unknown_sender_policy open_chat))
      | inr closed_chat ↦
          let (unchanged, admitted) = admit_user-IsAdmitted env e user mg group w w' (
            sym (ap (λ b. if b then ok true w else admit_user env e user mg group w) closed_chat)
            ∙ h) in
          (unchanged, inr admitted)
    ]

-- The wiring takes all senders, or the sender is admitted.
abbrev pub PassesScope : World → MessagingGroupAgent → Option String → Type 0
PassesScope w agent user =
    (agent.sender_scope ≡ all_senders) ⊎ IsAdmitted w user agent.agent_group_id

is_all-eq : (q : SenderScope) → is_all q ≡ true → q ≡ all_senders
is_all-eq all_senders h = refl
is_all-eq known_senders h = cc

in_scope-IsAdmitted :
    (w : World) (user : Option String) (group : String)
    → in_scope w user group ≡ true
    → IsAdmitted w user group
in_scope-IsAdmitted w none group h = cc
in_scope-IsAdmitted w (some id) group h = (id, refl, allows-MayAccess w id group (ground arith))

scope_gate-PassesScope :
    (e : Event) (user : Option String) (mg : MessagingGroup) (agent : MessagingGroupAgent)
    (w w' : World)
    → sender_scope_gate e user mg agent w ≡ ok true w'
    → PassesScope w agent user
unfolding sender_scope_gate
scope_gate-PassesScope e user mg agent w w' h =
    let passes : (if is_all agent.sender_scope then true else in_scope w user agent.agent_group_id)
        ≡ true =
      cc in
    elim (Bool-cases (is_all agent.sender_scope)) [
      | inl all ↦ inl (is_all-eq agent.sender_scope all)
      | inr known ↦ inr (
          in_scope-IsAdmitted w user agent.agent_group_id (
            sym (ap (λ b. if b then true else in_scope w user agent.agent_group_id) known)
            ∙ passes))
    ]

-- The hooks with the two gates of the module.
abbrev pub gated : Env → Hooks → Hooks
gated env hooks = record hooks {
  access_gate = some (access_gate env);
  sender_scope_gate = some sender_scope_gate;
}

-- With the module's gates installed, an agent is engaged on a message only if the chat is public or the
-- sender may access the agent group, and the wiring takes all senders or he may.
pub engaged_has_access :
    (env : Env) (hooks : Hooks) (adapter : Option Adapter) (mg : MessagingGroup) (e : Event)
    (user : Option String) (message : String) (already flag : Bool) (agent : MessagingGroupAgent)
    (w w' : World)
    → consider_agent env (gated env hooks) adapter mg e user message already agent w
      ≡ ok (engaged, flag) w'
    → PassesAccess w mg user agent.agent_group_id × PassesScope w agent user
engaged_has_access env hooks adapter mg e user message already flag agent w w' h =
    let (w₁, w₂, _, access, scope) =
      consider_agent-Accounts env (gated env hooks) adapter mg e user message already agent w
        engaged flag w' h in
    let (unchanged, passes) =
      access_gate-PassesAccess env e user mg agent.agent_group_id w w₁ access in
    (
      passes,
      subst (λ v. PassesScope v agent user) unchanged
          (scope_gate-PassesScope e user mg agent w₁ w₂ scope),
    )
