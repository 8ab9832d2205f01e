-- ===== src/Runner/Loop/Settled.antt =====
-- What a round of the poll loop leaves of its batch: container/agent-runner/src/poll-loop.ts.
use pocketclaw_telegram.Runner.Loop.{
  Sorted, poll_round, sort_commands, Turn, Loop, Script, has_trigger, raised, crashed, continued,
  after_failure, failed_query, asked, after_commands, went, continues, completed_in, reported,
  finished, fresh_query, forgets, differs, sorted_none,
}
use pocketclaw_telegram.Prelude.{
  String, List, ◌||◌, ◌≡◌, Option, true, ◌∷◌, Bool, ◌==◌, ap, [], if◌then◌else◌, select, arith, All,
  Bool-cases, none, some, refl, false, inl, not, ◌∙◌, inr, ◌&&◌, if_lem, All-imp, subst, sym,
}
use pocketclaw_telegram.Runner.Send.{
  RunnerEnv, Container, RoutingContext, Went, set_continuation, clear_continuation, write_out,
  extract_routing,
}
use pocketclaw_telegram.Runner.Query.{ids_of, kept, skipped, Query, not_system, pending_of, claim}
use pocketclaw_telegram.SessionDb.{MessageIn, ack_completed}
use pocketclaw_telegram.Runner.Acks.{mem, is_settled, is_settled-completed}
use pocketclaw_telegram.Runner.{mark_completed, put_acks}
use pocketclaw_telegram.Runner.Query.Kept.{
  acks_of, Settled, container_of, query_steps-Keeps, Settled-complete, write_out-acks,
}
use pocketclaw_telegram.Runner.Loop.Placed.{Placed, PlacesAll, sort_commands-PlacesAll}

-- The messages that the scripts let through and those that they keep back are all.
split_by :
    (env : RunnerEnv) (id : String) (ms : List MessageIn)
    → (mem id (ids_of (kept env ms)) || mem id (ids_of (skipped env ms))) ≡ mem id (ids_of ms)
split_by env id [] = refl
split_by env id (m ∷ ms) = elim (Bool-cases (env.skips m)) [
  | inl e ↦ rw e (ground (arith, split_by env id ms))
  | inr e ↦ rw e (ground (arith, split_by env id ms))
]

module _ (env : RunnerEnv) (routing : RoutingContext) (id : String) where
  abbrev SettledAfter : Turn → Type 0
  SettledAfter (crashed l) = Unit
  SettledAfter (continues l) = Settled id (acks_of l.container)

  continued_acks :
      (o old : Option String) (c : Container)
      → acks_of (continued env o old c).container ≡ acks_of c
  unfolding set_continuation
  continued_acks none old c = refl
  continued_acks (some k) old c =
      if_lem (λ (l : Loop). acks_of l.container ≡ acks_of c) (not (k == "") && differs old k) _ _
        refl refl

  failure_acks :
      (old : Option String) (invalid : Bool) (c : Container)
      → acks_of (after_failure env old invalid c).container ≡ acks_of c
  unfolding clear_continuation
  failure_acks old invalid c =
      if_lem (λ (l : Loop). acks_of l.container ≡ acks_of c) (forgets old invalid) _ _ refl refl

  -- The end of the round completes the ids and keeps what was settled.
  completed-SettledAfter :
      (ids : List String) (l : Loop)
      → (mem id ids || is_settled id (acks_of l.container)) ≡ true
      → Settled id (acks_of (completed_in env ids l).container)
  completed-SettledAfter ids l h = Settled-complete env id ids l.container h

  failed_query-SettledAfter :
      (ids : List String) (old : Option String) (f : String × Bool) (c : Container)
      → (mem id ids || is_settled id (acks_of c)) ≡ true
      → SettledAfter (failed_query env routing ids old f c)
  failed_query-SettledAfter ids old (m, invalid) c h =
      by_write (write_out env _ (after_failure env old invalid c).container) (
        write_out-acks env _ (after_failure env old invalid c).container
        ∙ failure_acks old invalid c)
    where
      by_write :
          (w : Went (Unit {0}))
          → acks_of (container_of w) ≡ acks_of c
          → SettledAfter (reported env ids (after_failure env old invalid c) w)
      by_write (raised e c') k = tt
      by_write (went u c') k =
          Settled-complete env id ids c' (ap (λ a. mem id ids || is_settled id a) k ∙ h)

  finished-SettledAfter :
      (ids : List String) (old : Option String) (failure : Option (String × Bool)) (w : Went Query)
      → (mem id ids || is_settled id (acks_of (container_of w))) ≡ true
      → SettledAfter (finished env routing ids old failure w)
  finished-SettledAfter ids old none (raised m c) h =
      failed_query-SettledAfter ids old (m, false) c h
  finished-SettledAfter ids old (some f) (raised m c) h =
      failed_query-SettledAfter ids old (m, false) c h
  finished-SettledAfter ids old (some f) (went q c) h = failed_query-SettledAfter ids old f c h
  finished-SettledAfter ids old none (went q c) h =
      Settled-complete env id ids (continued env q.continuation old c).container
        (ap (λ a. mem id ids || is_settled id a) (continued_acks q.continuation old c) ∙ h)

  asked-SettledAfter :
      (script : Script) (ms : List MessageIn) (old : Option String) (c : Container)
      → (mem id (ids_of ms) || is_settled id (acks_of c)) ≡ true
      → SettledAfter (asked env routing script ms old c)
  asked-SettledAfter script [] old c h = h
  asked-SettledAfter script (m ∷ ms) old c h =
      finished-SettledAfter (ids_of (m ∷ ms)) old script.failure _ (
        by_kept (mem id (ids_of (m ∷ ms))) (is_settled id (acks_of c)) h
          (query_steps-Keeps env routing (ids_of (m ∷ ms)) id script.steps fresh_query c))
    where
      by_kept : (a b : Bool) {d : Bool} → (a || b) ≡ true → (b ≡ true → d ≡ true) → (a || d) ≡ true
      by_kept true b h k = refl
      by_kept false b h k = k h

  after_commands-SettledAfter :
      (script : Script) (l : Loop) (s : Sorted) (c : Container)
      → (mem id s.commands || mem id (ids_of s.normal)) ≡ true
      → SettledAfter (after_commands env routing script l (went s c))
  unfolding mark_completed
  after_commands-SettledAfter script l s c h =
      asked-SettledAfter script (kept env s.normal) s.continuation _ (
        ground (
          arith,
          is_settled-completed env.now id (ids_of (skipped env s.normal))
              (put_acks env.now ack_completed s.commands (acks_of c)),
          is_settled-completed env.now id s.commands (acks_of c),
          split_by env id s.normal,
        ))

-- A round that does not crash leaves no message of its batch as a claim, if some message of the
-- batch may wake the agent: each of them is completed, whatever the provider, the follow-up polls
-- and the host do during the query, and also where the query fails.
pub poll_round-Settled :
    (env : RunnerEnv) (upload_trace : Container → String) (script : Script) (l l' : Loop)
    → has_trigger (select not_system (pending_of env l.first l.container)) ≡ true
    → poll_round env upload_trace script l ≡ continues l'
    → All
        (λ m. Settled m.id (acks_of l'.container))
        (select not_system (pending_of env l.first l.container))
unfolding poll_round
poll_round-Settled env upload_trace script l l' t h =
    by_sort run
      (sort_commands-PlacesAll env upload_trace (extract_routing ms) ms (sorted_none l.continuation)
        (claim env (ids_of ms) l.container))
      (sym (
          ap
            (λ b.
              if b
              then after_commands env (extract_routing ms) script l run
              else continues (record l { first = false }))
            t)
        ∙ h)
  where
    ms : List MessageIn
    ms = select not_system (pending_of env l.first l.container)

    run : Went Sorted
    run =
        sort_commands env upload_trace (extract_routing ms) ms (sorted_none l.continuation)
          (claim env (ids_of ms) l.container)

    by_sort :
        (w : Went Sorted)
        → PlacesAll env upload_trace (extract_routing ms) ms (sorted_none l.continuation) w
        → after_commands env (extract_routing ms) script l w ≡ continues l'
        → All (λ m. Settled m.id (acks_of l'.container)) ms
    by_sort (raised e c) p k = absurd (cc)
    by_sort (went s c) p k =
        All-imp (Placed s) _ ms
          (λ m placed.
            subst (SettledAfter env (extract_routing ms) m.id) k
              (after_commands-SettledAfter env (extract_routing ms) m.id script l s c placed))
          p.0
