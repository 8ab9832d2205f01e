-- ===== src/SessionSweep/Ticks.antt =====
-- What one tick of the sweep of src/host-sweep.ts does to a container and its claims.
use pocketclaw_telegram.Prelude.{
  ℕ, String, Bool, true, false, Option, some, [], ◌∷◌, if◌then◌else◌, ◌≡◌, refl, ◌⊎◌, inl, inr,
  arith, Bool-cases, sym, ◌∙◌, ap, suc, subst,
}
use mathlib.Core.Bool.{false≢true}
use pocketclaw_telegram.SessionDb.{OutboundDb}
use pocketclaw_telegram.SessionSweep.{
  woke, SweptSession, Tick, sync_step, is_wake_due, wake_step, reset_step, enforce_sla, clean_step,
  recurrence_step, sweep_session, tick_open,
}
use pocketclaw_telegram.SessionSweep.Cleaning.{
  claims_of, kills, Cleaned, reset_step-actions, reset_step-claims, clean_open, clean_step-Cleaned,
}

-- A premise on a Boolean, as an alternative.
implied {ℓ} : {P : Type ℓ} (b : Bool) → (b ≡ true → P) → (b ≡ false) ⊎ P
implied true h = inr (h refl)
implied false h = inl refl

module _ (t : Tick) (s : SweptSession) where
  synced :
      ((sync_step s).running ≡ s.running)
      × ((sync_step s).actions ≡ s.actions)
      × ((sync_step s).out_db ≡ s.out_db)
  synced = ground arith

  wake_cases :
      ((is_wake_due t (sync_step s) ≡ true)
        × (kills (wake_step t (sync_step s)).actions ≡ kills s.actions))
      ⊎ ((is_wake_due t (sync_step s) ≡ false) × (wake_step t (sync_step s) ≡ sync_step s))
  wake_cases = elim (Bool-cases (is_wake_due t (sync_step s))) [
    | inl due ↦ inl (due, rw due (ap kills synced.1))
    | inr idle ↦ inr (idle, rw idle refl)
  ]

module _ (next_run : String → ℕ → Option ℕ) (new_id : String → ℕ → String) where
  tick_closed :
      (t : Tick) (s : SweptSession) → t.reachable ≡ false → sweep_session next_run new_id t s ≡ s
  unfolding sweep_session
  tick_closed t s r = ap (λ b. if b then tick_open next_run new_id t s else s) r

  tick_opened :
      (t : Tick) (s : SweptSession)
      → t.reachable ≡ true
      → sweep_session next_run new_id t s ≡ tick_open next_run new_id t s
  unfolding sweep_session
  tick_opened t s r = ap (λ b. if b then tick_open next_run new_id t s else s) r

  Cleaned-recurrence :
      (t : Tick) (jw : Bool) (s s' : SweptSession)
      → Cleaned t jw s s'
      → Cleaned t jw s (recurrence_step next_run new_id t s')
  unfolding recurrence_step
  Cleaned-recurrence t jw s s' c = c

  -- A tick kills the container at most once, and only one that was running before the tick and was
  -- not woken in it; after a kill no claim is left, if the outbound database opens for writing.
  pub sweep_session-kills :
      (t : Tick) (s : SweptSession)
      → (kills (sweep_session next_run new_id t s).actions ≡ kills s.actions)
        ⊎ ((s.running ≡ true)
            × (is_wake_due t (sync_step s) ≡ false)
            × (kills (sweep_session next_run new_id t s).actions ≡ suc (kills s.actions))
            × ((t.writable ≡ false) ⊎ (claims_of (sweep_session next_run new_id t s) ≡ [])))
  sweep_session-kills t s = elim (Bool-cases t.reachable) [
    | inr r ↦ inl (ap (λ (q : SweptSession). kills q.actions) (tick_closed t s r))
    | inl r ↦
        subst
          (λ q.
            (kills q.actions ≡ kills s.actions)
            ⊎ ((s.running ≡ true)
                × (is_wake_due t (sync_step s) ≡ false)
                × (kills q.actions ≡ suc (kills s.actions))
                × ((t.writable ≡ false) ⊎ (claims_of q ≡ []))))
          (sym (tick_opened t s r))
          (settled t s (tick_open next_run new_id t s) (
            Cleaned-recurrence t (is_wake_due t (sync_step s)) (wake_step t (sync_step s)) _
              (clean_step-Cleaned t (is_wake_due t (sync_step s)) (wake_step t (sync_step s)))))
  ]
    where
      settled :
          (t : Tick) (s q : SweptSession)
          → Cleaned t (is_wake_due t (sync_step s)) (wake_step t (sync_step s)) q
          → (kills q.actions ≡ kills s.actions)
            ⊎ ((s.running ≡ true)
                × (is_wake_due t (sync_step s) ≡ false)
                × (kills q.actions ≡ suc (kills s.actions))
                × ((t.writable ≡ false) ⊎ (claims_of q ≡ [])))
      settled t s q (inl same) = elim (wake_cases t s) [
        | inl (due, k) ↦ inl (same ∙ k)
        | inr (idle, e) ↦
            inl (same ∙ ap (λ (w : SweptSession). kills w.actions) e ∙ ap kills (synced t s).1)
      ]
      settled t s q (inr (running, idle, killed, cleared)) = elim (wake_cases t s) [
        | inl (due, k) ↦ absurd (false≢true (sym idle ∙ due))
        | inr (_, e) ↦ inr (
          sym (synced t s).0 ∙ sym (ap (λ (w : SweptSession). w.running) e) ∙ running,
          idle,
          killed
              ∙ ap (λ (w : SweptSession). suc (kills w.actions)) e
              ∙ ap (λ l. suc (kills l)) (synced t s).1,
          implied t.writable cleared,
        )
      ]

  -- A container that is not running, and is not woken for due work, loses every claim in one tick,
  -- if the outbound database opens for writing; nothing is killed or woken.
  pub sweep_session_dead :
      (t : Tick) (s : SweptSession) (out : OutboundDb)
      → t.reachable ≡ true
      → t.writable ≡ true
      → s.out_db ≡ some out
      → s.running ≡ false
      → is_wake_due t (sync_step s) ≡ false
      → (claims_of (sweep_session next_run new_id t s) ≡ [])
        × ((sweep_session next_run new_id t s).actions ≡ s.actions)
  unfolding recurrence_step
  sweep_session_dead t s out r w o d n =
      let cleaned : clean_step t (is_wake_due t (sync_step s)) (wake_step t (sync_step s))
          ≡ reset_step t out (sync_step s) =
        ap
          (λ b. clean_step t b (
            if b
            then record (sync_step s) { running = t.spawns; actions = woke ∷ (sync_step s).actions }
            else sync_step s))
          n
        ∙ clean_open t false out (sync_step s) ((synced t s).2 ∙ o)
        ∙ ap (λ b. if b then enforce_sla t out (sync_step s) else reset_step t out (sync_step s))
            ((synced t s).0 ∙ d) in
      let ended : sweep_session next_run new_id t s
          ≡ recurrence_step next_run new_id t (reset_step t out (sync_step s)) =
        tick_opened t s r ∙ ap (recurrence_step next_run new_id t) cleaned in
      (
        ap claims_of ended ∙ reset_step-claims t out (sync_step s) w,
        ap (λ (q : SweptSession). q.actions) ended
            ∙ reset_step-actions t out (sync_step s)
            ∙ (synced t s).1,
      )
