-- ===== src/Runner/Query/Kept.antt =====
-- What a query of container/agent-runner/src/poll-loop.ts does to the acknowledgements: what holds of
-- them and only of them is kept by every write of a message, and a settled message stays settled.
use Prim.Native.String
use pocketclaw_telegram.Runner.Send.{
  Went, Container, write_out, RunnerEnv, RoutingContext, went, R, pure, send_to_destination,
  dispatch_pieces, dispatch_result_text, raised, ◌>>=◌, ◌>>◌, onward, set_continuation, reply_with,
  is_empty_text, find_by_name, summed, dropped_note,
}
use pocketclaw_telegram.Runner.Query.{
  follow_up_start, follow_up_end, complete, Query, judged, query_step, query_steps, on_result,
  ended, on_event, QueryStep, ids_of, claim, claimed_new, started, not_system, pending_of, kept,
  provider_event, skipped, init, any_command, result, host_wrote, follow_up_started,
  follow_up_ended, other_event,
}
use pocketclaw_telegram.Runner.{
  write_message_out, mark_completed, mark_processing, WriteMessageOut, has_ack, DestinationEntry,
}
use pocketclaw_telegram.Prelude.{
  List, String, ℕ, Bool, ◌≡◌, subst, ◌||◌, arith, All, Option, sym, if◌then◌else◌, eqb, true, false,
  some, ◌∷◌, ◌&&◌, select, none, Bool-cases, ◌+◌, ◌∙◌, [], any, not, ◌==◌, ap, All-select, is_some,
  refl, All-imp, inl, eq_iff, inr,
}
use pocketclaw_telegram.SessionDb.{ProcessingAck, MessageIn, InboundDb, OutboundDb}
use pocketclaw_telegram.Runner.Acks.{mem, is_settled, is_settled-completed, is_settled-processing}
use pocketclaw_telegram.Runner.Blocks.{Piece, scratch, pieces, message, trim_text}
use pocketclaw_telegram.Runner.Pending.{Fresh, get_pending_messages_lem}
use mathlib.Core.Bool.{false≢true}

abbrev pub container_of {ℓ} : {A : Type ℓ} → Went A → Container
container_of (went a c) = c
container_of (raised m c) = c

abbrev pub acks_of : Container → List ProcessingAck
acks_of c = c.outbound.processing_ack

write_message_out-acks :
    (now n : ℕ) (in_db : InboundDb) (out_db out_db' : OutboundDb) (m : WriteMessageOut)
    → write_message_out now in_db out_db m ≡ some (n, out_db')
    → out_db'.processing_ack ≡ out_db.processing_ack
unfolding write_message_out
write_message_out-acks now n in_db out_db out_db' m h =
    elim (Bool-cases (any (λ r. r.id == m.id) out_db.messages_out)) [
      | inl taken ↦ absurd (ground arith)
      | inr free ↦ ground arith
    ]

pub write_out-acks :
    (env : RunnerEnv) (m : String → WriteMessageOut) (c : Container)
    → acks_of (container_of (write_out env m c)) ≡ acks_of c
unfolding write_out
write_out-acks env m c = by_write _ refl
  where
    by_write :
        (o : Option (ℕ × OutboundDb))
        → write_message_out env.now c.inbound c.outbound (m (env.fresh c.draws)) ≡ o
        → acks_of (
            container_of {A = Unit {0}} (elim o [
              | none ↦ raised "UNIQUE constraint failed" (record c { draws = c.draws + 1 })
              | some (n, db) ↦ went tt (record c { outbound = db; draws = c.draws + 1 })
            ]))
          ≡ acks_of c
    by_write none e = refl
    by_write (some (n, db)) e =
        write_message_out-acks env.now n c.inbound c.outbound db (m (env.fresh c.draws)) e

module _ (P : List ProcessingAck → Type 0) where
  -- The step keeps what holds of the acknowledgements, also where it throws.
  abbrev pub Keeps : {A : Type 0} → R A → Type 0
  Keeps m = (c : Container) → P (acks_of c) → P (acks_of (container_of (m c)))

  pub Keeps-pure : {A : Type 0} (a : A) → Keeps (pure a)
  Keeps-pure a c p = p

  pub Keeps-bind :
      {A B : Type 0} (m : R A) (f : A → R B) → Keeps m → ((a : A) → Keeps (f a)) → Keeps (m >>= f)
  Keeps-bind {A} {B} m f km kf c p = by_run (m c) (km c p)
    where
      by_run : (r : Went A) → P (acks_of (container_of r)) → P (acks_of (container_of (onward r f)))
      by_run (went a c') q = kf a c' q
      by_run (raised e c') q = q

  pub Keeps-then : {A B : Type 0} (m : R A) (n : R B) → Keeps m → Keeps n → Keeps (m >> n)
  Keeps-then m n km kn = Keeps-bind m (λ a. n) km (λ a. kn)

  pub Keeps-write_out : (env : RunnerEnv) (m : String → WriteMessageOut) → Keeps (write_out env m)
  Keeps-write_out env m c p = subst P (sym (write_out-acks env m c)) p

  Keeps-if : {A : Type 0} (b : Bool) (m n : R A) → Keeps m → Keeps n → Keeps (if b then m else n)
  Keeps-if true m n km kn = km
  Keeps-if false m n km kn = kn

  Keeps-send :
      (env : RunnerEnv) (d : DestinationEntry) (body : String) (routing : RoutingContext)
      → Keeps (send_to_destination env d body routing)
  unfolding send_to_destination
  Keeps-send env d body routing c p = Keeps-write_out env _ c p

  Keeps-pieces :
      (env : RunnerEnv) (routing : RoutingContext) (sent : ℕ) (pad : String) (ps : List Piece)
      → Keeps (dispatch_pieces env routing sent pad ps)
  unfolding dispatch_pieces
  Keeps-pieces env routing sent pad [] = Keeps-pure {A = ℕ × String} (sent, pad)
  Keeps-pieces env routing sent pad (scratch ch ∷ ps) = Keeps-pieces env routing sent _ ps
  Keeps-pieces env routing sent pad (message name body ∷ ps) = λ c p.
      by_name (find_by_name c.destinations name)
        (dispatch_pieces env routing sent (String.◌++◌ pad (dropped_note name (trim_text body))) ps
          c)
        (λ d.
          (send_to_destination env d (trim_text body) routing
              >> dispatch_pieces env routing (sent + 1) pad ps)
            c)
        (Keeps-pieces env routing sent _ ps c p)
        (λ d.
          Keeps-then (send_to_destination env d (trim_text body) routing)
            (dispatch_pieces env routing (sent + 1) pad ps)
            (Keeps-send env d (trim_text body) routing) (Keeps-pieces env routing (sent + 1) pad ps)
            c p)
    where
      by_name :
          (o : Option DestinationEntry) (dropped : Went (ℕ × String))
          (delivered : DestinationEntry → Went (ℕ × String))
          → P (acks_of (container_of dropped))
          → ((d : DestinationEntry) → P (acks_of (container_of (delivered d))))
          → P (acks_of (container_of (elim o [ none ↦ dropped | some d ↦ delivered d ])))
      by_name none dropped delivered p q = p
      by_name (some d) dropped delivered p q = q d

  Keeps-judged :
      (env : RunnerEnv) (routing : RoutingContext) (t : String) (is_error : Bool) (q : Query)
      (r : ℕ × Bool)
      → Keeps (judged env routing t is_error q r)
  Keeps-judged env routing t is_error q (sent, unwrapped) =
      Keeps-if (eqb sent 0 && is_error) _ _
        (Keeps-then (write_out env (reply_with env routing routing.in_reply_to t)) (pure q)
          (Keeps-write_out env _) (Keeps-pure q))
        (Keeps-if (unwrapped && not q.nudged) _ _
          (Keeps-pure (record q { nudged = true; pushed = q.pushed + 1 })) (Keeps-pure q))

  Keeps-on_result :
      (env : RunnerEnv) (routing : RoutingContext) (t : Option String) (is_error : Bool) (q : Query)
      → Keeps (on_result env routing t is_error q)
  unfolding dispatch_result_text
  Keeps-on_result env routing none is_error q = Keeps-pure q
  Keeps-on_result env routing (some t) is_error q = Keeps-if (is_empty_text t) _ _ (Keeps-pure q) (
      Keeps-bind (dispatch_result_text env routing t) (judged env routing t is_error q)
        (Keeps-bind (dispatch_pieces env routing 0 "" (pieces t)) (λ r. pure (summed r))
          (Keeps-pieces env routing 0 "" (pieces t)) (λ r. Keeps-pure (summed r)))
        (Keeps-judged env routing t is_error q))

-- The message is completed or failed.
abbrev pub Settled : String → List ProcessingAck → Type 0
Settled id acks = is_settled id acks ≡ true

pub Settled-complete :
    (env : RunnerEnv) (id : String) (ids : List String) (c : Container)
    → (mem id ids || is_settled id (acks_of c)) ≡ true
    → Settled id (acks_of (complete env ids c))
unfolding mark_completed
Settled-complete env id ids c h = is_settled-completed env.now id ids (acks_of c) ∙ h

pub complete-keeps :
    (env : RunnerEnv) (id : String) (ids : List String) (c : Container)
    → Settled id (acks_of c)
    → Settled id (acks_of (complete env ids c))
complete-keeps env id ids c h = Settled-complete env id ids c (ground arith)

has_ack-Settled :
    (id : String) (acks : List ProcessingAck) → Settled id acks → has_ack id acks ≡ true
has_ack-Settled id [] h = cc
has_ack-Settled id (a ∷ acks) h = ground (arith, has_ack-Settled id acks)

-- A settled id is none of messages that no container has picked up.
not_among :
    (id : String) (acks : List ProcessingAck) (ms : List MessageIn)
    → Settled id acks
    → All (λ m. has_ack m.id acks ≡ false) ms
    → mem id (ids_of ms) ≡ false
not_among id acks [] s h = refl
not_among id acks (m ∷ ms) s h =
    let there = has_ack-Settled id acks s in
    elim (Bool-cases (m.id == id)) [
      | inl same ↦
          let e : m.id ≡ id = (eq_iff m.id id).0 same in
          absurd (false≢true (sym (subst (λ i. has_ack i acks ≡ false) e h.0) ∙ there))
      | inr other ↦ rw other (not_among id acks ms s h.1)
    ]

claim-keeps :
    (env : RunnerEnv) (id : String) (ms : List MessageIn) (c : Container)
    → Settled id (acks_of c)
    → All (λ m. has_ack m.id (acks_of c) ≡ false) ms
    → Settled id (acks_of (claim env (ids_of ms) c))
unfolding mark_processing
claim-keeps env id ms c s h =
    is_settled-processing env.now id (ids_of ms) (acks_of c)
    ∙ ap (λ b. not b && is_settled id (acks_of c)) (not_among id (acks_of c) ms s h)
    ∙ s

unclaimed_pending :
    (env : RunnerEnv) (first : Bool) (c : Container)
    → All (λ m. has_ack m.id (acks_of c) ≡ false) (select not_system (pending_of env first c))
unclaimed_pending env first c =
    All-select (λ m. has_ack m.id (acks_of c) ≡ false) not_system (pending_of env first c)
      (All-imp (Fresh env.now env.limit first c.inbound c.outbound) _ (pending_of env first c)
        (λ m f. f.4) (get_pending_messages_lem env.now env.limit first c.inbound c.outbound).0)

claimed_new-keeps :
    (env : RunnerEnv) (id : String) (ms : List MessageIn) (q : Query) (c : Container)
    → Settled id (acks_of c)
    → All (λ m. has_ack m.id (acks_of c) ≡ false) ms
    → Settled id (acks_of (claimed_new env ms q c).1)
claimed_new-keeps env id [] q c s h = s
claimed_new-keeps env id (m ∷ ms) q c s h = claim-keeps env id (m ∷ ms) c s h

follow_up_start-keeps :
    (env : RunnerEnv) (id : String) (q : Query) (c : Container)
    → Settled id (acks_of c)
    → Settled id (acks_of (follow_up_start env q c).1)
unfolding follow_up_start
follow_up_start-keeps env id q c s =
    by_test (is_some q.in_flight || q.ended_for_command)
      (any_command env.parse_json (pending_of env false c))
  where
    by_test :
        (b : Bool) (o : Option Bool)
        → Settled id (acks_of (if b then (q, c) else started env (pending_of env false c) o q c).1)
    by_test true o = s
    by_test false none = s
    by_test false (some true) = s
    by_test false (some false) =
        claimed_new-keeps env id (select not_system (pending_of env false c)) q c s
          (unclaimed_pending env false c)

follow_up_end-keeps :
    (env : RunnerEnv) (id : String) (q : Query) (c : Container)
    → Settled id (acks_of c)
    → Settled id (acks_of (follow_up_end env q c).1)
unfolding follow_up_end
follow_up_end-keeps env id q c s = by_flight q.in_flight
  where
    by_flight : (o : Option (List MessageIn)) → Settled id (acks_of (ended env o q c).1)
    by_flight none = s
    by_flight (some ms) =
        complete-keeps env id (ids_of (kept env ms)) (complete env (ids_of (skipped env ms)) c)
          (complete-keeps env id (ids_of (skipped env ms)) c s)

module _ (env : RunnerEnv) (routing : RoutingContext) (batch : List String) (id : String) where
  query_step-Keeps :
      (s : QueryStep) (q : Query) → Keeps (Settled id) (query_step env routing batch s q)
  unfolding query_step on_event set_continuation
  query_step-Keeps (provider_event (init k)) q c h = h
  query_step-Keeps (provider_event (result t is_error)) q c h =
      Keeps-on_result (Settled id) env routing t is_error q (complete env batch c)
        (complete-keeps env id batch c h)
  query_step-Keeps (provider_event other_event) q c h = h
  query_step-Keeps follow_up_started q c h = follow_up_start-keeps env id q c h
  query_step-Keeps follow_up_ended q c h = follow_up_end-keeps env id q c h
  query_step-Keeps (host_wrote db) q c h = h

  -- Whatever the provider, the polls and the host do during a query, in whatever order, a message
  -- that was completed or failed before is so after.
  pub query_steps-Keeps :
      (ss : List QueryStep) (q : Query) → Keeps (Settled id) (query_steps env routing batch ss q)
  unfolding query_steps
  query_steps-Keeps [] q = Keeps-pure (Settled id) q
  query_steps-Keeps (s ∷ ss) q =
      Keeps-bind (Settled id) (query_step env routing batch s q) (query_steps env routing batch ss)
        (query_step-Keeps s q) (query_steps-Keeps ss)
