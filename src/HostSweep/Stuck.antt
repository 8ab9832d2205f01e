-- ===== src/HostSweep/Stuck.antt =====
-- When the sweep kills a running container: `decideStuckAction` in src/host-sweep.ts.
use pocketclaw_telegram.Prelude.{
  ℕ, ◌-◌, ◌≤◌, ◌<◌, max, String, Option, List, [], ◌∷◌, ◌++◌, ◌≡◌, refl, ◌≢◌, ◌⊎◌, inl, inr, arith,
  All, ap, ◌∙◌,
}
use native.Mathlib.Decide.{dec_lt, dec_le, ℕ_discrete}
use pocketclaw_telegram.SessionDb.{Timestamp, unreadable, at, ProcessingAck, ContainerState}
use pocketclaw_telegram.HostSweep.{
  StuckDecision, no_action, kill_ceiling, kill_claim, absolute_ceiling_ms, claim_stuck_ms,
  bash_timeout_ms, or_zero, first_stuck, decide_stuck_action,
}

-- No heartbeat since the claim was made, for longer than the tolerance.
abbrev pub IsSilent : ℕ → ℕ → ℕ → Timestamp → Type 0
IsSilent now heartbeat tolerance unreadable = ⊥
IsSilent now heartbeat tolerance (at t) = (tolerance < now - t) × (heartbeat ≤ t)

abbrev pub AllHeard : ℕ → ℕ → ℕ → List ProcessingAck → Type 0
AllHeard now heartbeat tolerance = All (λ c. ¬ IsSilent now heartbeat tolerance c.status_changed)

-- The first silent claim, with those before it.
pub record FirstSilent (now heartbeat tolerance : ℕ) (claims : List ProcessingAck) (id : String)
    (age : ℕ) : Type 0 where
  pub claim : ProcessingAck
  pub before : List ProcessingAck
  pub later : List ProcessingAck
  pub found : claims ≡ before ++ claim ∷ later
  pub heard : AllHeard now heartbeat tolerance before
  pub claimed_at : ℕ
  pub claimed : claim.status_changed ≡ at claimed_at
  pub silent : IsSilent now heartbeat tolerance (at claimed_at)
  pub named : claim.message_id ≡ id
  pub aged : age ≡ now - claimed_at

module _ (now heartbeat tolerance : ℕ) where
  silent_dec :
      (s : Timestamp)
      → ((t : ℕ) × (s ≡ at t) × IsSilent now heartbeat tolerance (at t))
        ⊎ (¬ IsSilent now heartbeat tolerance s)
  silent_dec unreadable = inr (λ h. h)
  silent_dec (at t) = elim (dec_lt tolerance (now - t)) [
    | yes old ↦ elim (dec_le heartbeat t) [
      | yes quiet ↦ inl (t, refl, (old, quiet))
      | no beat ↦ inr (λ h. beat h.1)
    ]
    | no young ↦ inr (λ h. young h.0)
  ]

  first_stuck_silent :
      (c : ProcessingAck) (cs : List ProcessingAck) (t : ℕ)
      → c.status_changed ≡ at t
      → IsSilent now heartbeat tolerance (at t)
      → first_stuck now heartbeat tolerance (c ∷ cs) ≡ kill_claim c.message_id (now - t) tolerance
  unfolding first_stuck
  first_stuck_silent c cs t e h = rw (e, first_stuck) (ground arith)

  heard_at :
      (c : ProcessingAck) (cs : List ProcessingAck) (s : Timestamp)
      → c.status_changed ≡ s
      → (¬ IsSilent now heartbeat tolerance s)
      → first_stuck now heartbeat tolerance (c ∷ cs) ≡ first_stuck now heartbeat tolerance cs
  unfolding first_stuck
  heard_at c cs unreadable e h = rw (e, first_stuck) refl
  heard_at c cs (at t) e h = rw (e, first_stuck) (ground arith)

  first_stuck_heard :
      (cs : List ProcessingAck)
      → AllHeard now heartbeat tolerance cs
      → first_stuck now heartbeat tolerance cs ≡ no_action
  unfolding first_stuck
  first_stuck_heard [] h = refl
  first_stuck_heard (c ∷ cs) h = heard_at c cs c.status_changed refl h.0 ∙ first_stuck_heard cs h.1

  all_or_first :
      (cs : List ProcessingAck)
      → AllHeard now heartbeat tolerance cs
        ⊎ ((id : String) × (age : ℕ) × FirstSilent now heartbeat tolerance cs id age
            × (first_stuck now heartbeat tolerance cs ≡ kill_claim id age tolerance))
  all_or_first [] = inl tt
  all_or_first (c ∷ cs) = elim (silent_dec c.status_changed) [
    | inl (t, e, h) ↦ inr (
      c.message_id,
      now - t,
      record {
        claim = c;
        before = [];
        later = cs;
        found = refl;
        heard = tt;
        claimed_at = t;
        claimed = e;
        silent = h;
        named = refl;
        aged = refl;
      },
      first_stuck_silent c cs t e h,
    )
    | inr heard ↦ elim (all_or_first cs) [
      | inl rest ↦ inl (heard, rest)
      | inr (id, age, f, e) ↦ inr (
        id,
        age,
        record {
          claim = f.claim;
          before = c ∷ f.before;
          later = f.later;
          found = ap (◌∷◌ c) f.found;
          heard = (heard, f.heard);
          claimed_at = f.claimed_at;
          claimed = f.claimed;
          silent = f.silent;
          named = f.named;
          aged = f.aged;
        },
        heard_at c cs c.status_changed refl heard ∙ e,
      )
    ]
  ]

abbrev pub ceiling_of : Option ContainerState → ℕ
ceiling_of state = max absolute_ceiling_ms (or_zero (bash_timeout_ms state))

abbrev pub tolerance_of : Option ContainerState → ℕ
tolerance_of state = max claim_stuck_ms (or_zero (bash_timeout_ms state))

abbrev pub IsPastCeiling : ℕ → ℕ → Option ContainerState → Type 0
IsPastCeiling now heartbeat state = (heartbeat ≢ 0) × (ceiling_of state < now - heartbeat)

-- What the decision says of its inputs.
abbrev pub Justified : ℕ → ℕ → Option ContainerState → List ProcessingAck → StuckDecision → Type 0
Justified now heartbeat state claims no_action =
    (¬ IsPastCeiling now heartbeat state) × AllHeard now heartbeat (tolerance_of state) claims
Justified now heartbeat state claims (kill_ceiling age ceiling) =
    IsPastCeiling now heartbeat state × (age ≡ now - heartbeat) × (ceiling ≡ ceiling_of state)
Justified now heartbeat state claims (kill_claim id age tolerance) =
    (¬ IsPastCeiling now heartbeat state)
    × (tolerance ≡ tolerance_of state)
    × FirstSilent now heartbeat (tolerance_of state) claims id age

module _ (now heartbeat : ℕ) (state : Option ContainerState) (claims : List ProcessingAck) where
  past_dec : IsPastCeiling now heartbeat state ⊎ (¬ IsPastCeiling now heartbeat state)
  past_dec = elim (ℕ_discrete heartbeat 0) [
    | yes absent ↦ inr (λ h. h.0 absent)
    | no there ↦ elim (dec_lt (ceiling_of state) (now - heartbeat)) [
      | yes old ↦ inl (there, old)
      | no young ↦ inr (λ h. young h.1)
    ]
  ]

  decide_past :
      IsPastCeiling now heartbeat state
      → decide_stuck_action now heartbeat state claims
        ≡ kill_ceiling (now - heartbeat) (ceiling_of state)
  unfolding decide_stuck_action
  decide_past h = ground arith

  decide_not_past :
      (¬ IsPastCeiling now heartbeat state)
      → decide_stuck_action now heartbeat state claims
        ≡ first_stuck now heartbeat (tolerance_of state) claims
  unfolding decide_stuck_action
  decide_not_past h = ground arith

-- Every decision is justified by the inputs. A container is left alone only if its heartbeat is
-- absent or within the ceiling (30 minutes, or the declared timeout of a running Bash, if longer)
-- and no claim has been silent past the tolerance (60 seconds, or that timeout); it is killed for
-- the ceiling only if the heartbeat is there and older; and for a claim only if the heartbeat is
-- not and the claim is the first silent one. These three conditions exclude one another.
pub decide_stuck_action-Justified :
    (now heartbeat : ℕ) (state : Option ContainerState) (claims : List ProcessingAck)
    → Justified now heartbeat state claims (decide_stuck_action now heartbeat state claims)
decide_stuck_action-Justified now heartbeat state claims =
    elim (past_dec now heartbeat state claims) [
      | inl past ↦ rw (decide_past now heartbeat state claims past) (past, refl, refl)
      | inr fresh ↦
          rw (decide_not_past now heartbeat state claims fresh)
            (elim (all_or_first now heartbeat (tolerance_of state) claims) [
              | inl heard ↦
                  rw (first_stuck_heard now heartbeat (tolerance_of state) claims heard)
                    (fresh, heard)
              | inr (id, age, f, e) ↦ rw e (fresh, refl, f)
            ])
    ]
