-- ===== src/SessionSweep/Cleaning.antt =====
-- Steps 3 and 4 of `sweepSession` in src/host-sweep.ts: kills, and the claims they leave.
use pocketclaw_telegram.Prelude.{
  ℕ, Bool, true, false, not, Option, none, some, List, [], ◌∷◌, if◌then◌else◌, ◌≡◌, refl, ◌⊎◌, inl,
  inr, arith, select, Bool-cases, Option-cases, sym, ◌∙◌, ap, suc, subst,
}
use pocketclaw_telegram.SessionDb.Acks.{
  is_processing, get_processing_claims, delete_orphan_processing_claims,
}
use pocketclaw_telegram.SessionDb.{OutboundDb, ProcessingAck}
use pocketclaw_telegram.HostSweep.{
  StuckDecision, no_action, kill_ceiling, kill_claim, decide_stuck_action,
  reset_stuck_processing_rows,
}
use pocketclaw_telegram.SessionSweep.{
  SweepAction, woke, killed_for_ceiling, killed_for_claim, SweptSession, Tick, reset_step,
  enforce_sla, clean_step,
}

no_claims :
    (acks : List ProcessingAck)
    → select is_processing (select (λ a. not (is_processing a)) acks) ≡ []
no_claims [] = refl
no_claims (a ∷ acks) = ground (arith, no_claims acks)

-- Deleting the orphans leaves no claim.
pub claims-delete_orphan :
    (out : OutboundDb) → get_processing_claims (delete_orphan_processing_claims out) ≡ []
unfolding get_processing_claims delete_orphan_processing_claims
claims-delete_orphan out = no_claims out.processing_ack

-- The claims that the outbound database of a session still holds.
abbrev pub claims_of : SweptSession → List ProcessingAck
claims_of s = elim s.out_db [ none ↦ [] | some out ↦ get_processing_claims out ]

pub reset_step-actions :
    (t : Tick) (out : OutboundDb) (s : SweptSession) → (reset_step t out s).actions ≡ s.actions
unfolding reset_step
reset_step-actions t out s = refl

pub reset_step-claims :
    (t : Tick) (out : OutboundDb) (s : SweptSession)
    → t.writable ≡ true
    → claims_of (reset_step t out s) ≡ []
unfolding reset_step reset_stuck_processing_rows
reset_step-claims t out s w = rw w (claims-delete_orphan out)

-- The kills among the actions.
abbrev pub kills : List SweepAction → ℕ
kills [] = 0
kills (woke ∷ l) = kills l
kills (killed_for_ceiling ∷ l) = suc (kills l)
kills (killed_for_claim id ∷ l) = suc (kills l)

enforce_cases :
    (t : Tick) (out : OutboundDb) (s : SweptSession)
    → (enforce_sla t out s ≡ s)
      ⊎ ((a : SweepAction) × ((l : List SweepAction) → kills (a ∷ l) ≡ suc (kills l))
          × (enforce_sla t out s ≡ reset_step t out (record s { actions = a ∷ s.actions })))
unfolding enforce_sla
enforce_cases t out s =
    split (decide_stuck_action t.now t.heartbeat out.container_state (get_processing_claims out))
      refl
  where
    split :
        (d : StuckDecision)
        → decide_stuck_action t.now t.heartbeat out.container_state (get_processing_claims out) ≡ d
        → (enforce_sla t out s ≡ s)
          ⊎ ((a : SweepAction) × ((l : List SweepAction) → kills (a ∷ l) ≡ suc (kills l))
              × (enforce_sla t out s ≡ reset_step t out (record s { actions = a ∷ s.actions })))
    split no_action e = inl (rw (e, enforce_sla) refl)
    split (kill_ceiling age ceiling) e =
        inr (killed_for_ceiling, (λ l. refl), rw (e, enforce_sla) refl)
    split (kill_claim id age tolerance) e =
        inr (killed_for_claim id, (λ l. refl), rw (e, enforce_sla) refl)

abbrev clean_on : Tick → Bool → SweptSession → Option OutboundDb → SweptSession
clean_on t jw s none = s
clean_on t jw s (some out) =
    if s.running then (if jw then s else enforce_sla t out s) else reset_step t out s

clean_none : (t : Tick) (jw : Bool) (s : SweptSession) → s.out_db ≡ none → clean_step t jw s ≡ s
unfolding clean_step
clean_none t jw s e = ap (clean_on t jw s) e

pub clean_open :
    (t : Tick) (jw : Bool) (out : OutboundDb) (s : SweptSession)
    → s.out_db ≡ some out
    → clean_step t jw s
      ≡ (if s.running then (if jw then s else enforce_sla t out s) else reset_step t out s)
unfolding clean_step
clean_open t jw out s e = ap (clean_on t jw s) e

-- Steps 3 and 4.
abbrev pub Cleaned : Tick → Bool → SweptSession → SweptSession → Type 0
Cleaned t just_woke s s' =
    (kills s'.actions ≡ kills s.actions)
    ⊎ ((s.running ≡ true)
        × (just_woke ≡ false)
        × (kills s'.actions ≡ suc (kills s.actions))
        × (t.writable ≡ true → claims_of s' ≡ []))

enforce-Cleaned :
    (t : Tick) (out : OutboundDb) (s : SweptSession)
    → s.running ≡ true
    → Cleaned t false s (enforce_sla t out s)
enforce-Cleaned t out s r = elim (enforce_cases t out s) [
  | inl e ↦ inl (ap (λ (q : SweptSession). kills q.actions) e)
  | inr (a, one, e) ↦
      let killed : SweptSession = record s { actions = a ∷ s.actions } in
      inr (
        r,
        refl,
        ap (λ (q : SweptSession). kills q.actions) e
            ∙ ap kills (reset_step-actions t out killed)
            ∙ one s.actions,
        λ w. ap claims_of e ∙ reset_step-claims t out killed w,
      )
]

clean_some :
    (t : Tick) (jw : Bool) (out : OutboundDb) (s : SweptSession)
    → Cleaned t jw s
        (if s.running then (if jw then s else enforce_sla t out s) else reset_step t out s)
clean_some t true out s = elim (Bool-cases s.running) [
  | inl r ↦ inl (ap (λ b. kills (if b then s else reset_step t out s).actions) r)
  | inr r ↦ inl (
      ap (λ b. kills (if b then s else reset_step t out s).actions) r
      ∙ ap kills (reset_step-actions t out s))
]
clean_some t false out s = elim (Bool-cases s.running) [
  | inl r ↦
      subst (λ b. Cleaned t false s (if b then enforce_sla t out s else reset_step t out s)) (sym r)
        (enforce-Cleaned t out s r)
  | inr r ↦ inl (
      ap (λ b. kills (if b then enforce_sla t out s else reset_step t out s).actions) r
      ∙ ap kills (reset_step-actions t out s))
]

pub clean_step-Cleaned :
    (t : Tick) (jw : Bool) (s : SweptSession) → Cleaned t jw s (clean_step t jw s)
clean_step-Cleaned t jw s = elim (Option-cases s.out_db) [
  | inl e ↦ subst (Cleaned t jw s) (sym (clean_none t jw s e)) (inl refl)
  | inr (out, e) ↦ subst (Cleaned t jw s) (sym (clean_open t jw out s e)) (clean_some t jw out s)
]
