-- ===== src/Runner/Query.antt =====
-- One query of the agent: `processQuery` of container/agent-runner/src/poll-loop.ts.
pub mod Kept
use Prim.Native.String
use pocketclaw_telegram.SessionDb.{InboundDb, MessageIn, OutboundDb, latest}
use pocketclaw_telegram.Prelude.{
  ℕ, String, Option, List, Bool, if◌then◌else◌, select, ◌++◌, none, find, false, ◌==◌, eqb, ◌∷◌,
  not, is_some, ◌+◌, some, [], is_text, ◌&&◌, ◌||◌, true,
}
use pocketclaw_telegram.Runner.{
  DestinationEntry, WriteMessageOut, mark_completed, mark_processing, get_pending_messages,
  write_message_out, to_channel, to_agent,
}
use pocketclaw_telegram.Json.{Json, obj, field, text, end}
use pocketclaw_telegram.World.{lookup_db}
use pocketclaw_telegram.Runner.Blocks.{
  Piece, pieces, scratch, strip_internal_tags, message, trim_text,
}
use pocketclaw_telegram.Runner.Commands.{is_runner_command}
use pocketclaw_telegram.Runner.Send.{
  Container, R, RoutingContext, RunnerEnv, Went, adopted, clear_continuation, continuation_key,
  delete_value, dest_channel, dest_platform, dispatch_pieces, dispatch_result_text, dropped_note,
  extract_routing, find_by_name, is_empty_text, migrate_legacy_continuation, onward, pure, raised,
  reply_of, reply_with, resolve_destination_thread, same_text, send_to_destination,
  set_continuation, set_value, summed, text_content, thread_of, went, write_out, ◌>>=◌, ◌>>◌,
}

pub data ProviderEvent : Type 0 where
  init : String → ProviderEvent
  result : Option String → Bool → ProviderEvent
  other_event : ProviderEvent

-- The follow-up poll waits for its scripts between the claim and the push, and the host may write
-- at any time.
pub data QueryStep : Type 0 where
  provider_event : ProviderEvent → QueryStep
  follow_up_started follow_up_ended : QueryStep
  host_wrote : InboundDb → QueryStep

pub record Query : Type 0 where
  pub in_flight : Option (List MessageIn)
  pub ended_for_command : Bool
  pub nudged : Bool
  pub continuation : Option String
  pub pushed : ℕ

abbrev pub complete : RunnerEnv → List String → Container → Container
complete env ids c = record c { outbound = mark_completed env.now ids c.outbound }

abbrev pub claim : RunnerEnv → List String → Container → Container
claim env ids c = record c { outbound = mark_processing env.now ids c.outbound }

abbrev pub ids_of : List MessageIn → List String
ids_of [] = []
ids_of (m ∷ ms) = m.id ∷ ids_of ms

abbrev pub not_system : MessageIn → Bool
not_system m = not (m.kind == "system")

abbrev pub pending_of : RunnerEnv → Bool → Container → List MessageIn
pending_of env first c = get_pending_messages env.now env.limit first c.inbound c.outbound

-- `pending.some((m) => isRunnerCommand(m))`; `none` is a throw.
abbrev pub any_command : (String → Option Json) → List MessageIn → Option Bool
any_command parse_json [] = some false
any_command parse_json (m ∷ ms) = elim (is_runner_command parse_json m) [
  | none ↦ none
  | some true ↦ some true
  | some false ↦ any_command parse_json ms
]

abbrev pub claimed_new : RunnerEnv → List MessageIn → Query → Container → Query × Container
claimed_new env [] q c = (q, c)
claimed_new env (m ∷ ms) q c =
    (record q { in_flight = some (m ∷ ms) }, claim env (ids_of (m ∷ ms)) c)

-- A throw is logged, and leaves all as it was.
abbrev pub started :
    RunnerEnv → List MessageIn → Option Bool → Query → Container → Query × Container
started env ms none q c = (q, c)
started env ms (some true) q c = (record q { ended_for_command = true }, c)
started env ms (some false) q c = claimed_new env (select not_system ms) q c

unfoldable pub follow_up_start : RunnerEnv → Query → Container → Query × Container
follow_up_start env q c =
    if is_some q.in_flight || q.ended_for_command
    then (q, c)
    else started env (pending_of env false c) (any_command env.parse_json (pending_of env false c))
        q c

abbrev pub pushed_if : Bool → Query → Query
pushed_if true q = record q { pushed = q.pushed + 1; nudged = false }
pushed_if false q = q

abbrev pub is_nonempty {ℓ} : {A : Type ℓ} → List A → Bool
is_nonempty [] = false
is_nonempty (x ∷ xs) = true

abbrev pub kept : RunnerEnv → List MessageIn → List MessageIn
kept env ms = select (λ m. not (env.skips m)) ms

abbrev pub skipped : RunnerEnv → List MessageIn → List MessageIn
skipped env ms = select env.skips ms

-- While the query is open: the skipped tasks are completed, and so is what is pushed.
abbrev pub ended : RunnerEnv → Option (List MessageIn) → Query → Container → Query × Container
ended env none q c = (q, c)
ended env (some ms) q c = (
  pushed_if (is_nonempty (kept env ms)) (record q { in_flight = none }),
  complete env (ids_of (kept env ms)) (complete env (ids_of (skipped env ms)) c),
)

unfoldable pub follow_up_end : RunnerEnv → Query → Container → Query × Container
follow_up_end env q c = ended env q.in_flight q c

-- After a turn's text: an error without a block goes to the chat as it is; text without a block is
-- asked for again once.
abbrev pub judged : RunnerEnv → RoutingContext → String → Bool → Query → ℕ × Bool → R Query
judged env routing t is_error q (sent, unwrapped) =
    if eqb sent 0 && is_error
    then write_out env (reply_with env routing routing.in_reply_to t) >> pure q
    else if unwrapped && not q.nudged
    then pure (record q { nudged = true; pushed = q.pushed + 1 })
    else pure q

abbrev pub on_result : RunnerEnv → RoutingContext → Option String → Bool → Query → R Query
on_result env routing none is_error q = pure q
on_result env routing (some t) is_error q =
    if is_empty_text t
    then pure q
    else dispatch_result_text env routing t >>= λ r. judged env routing t is_error q r

unfoldable pub on_event : RunnerEnv → RoutingContext → List String → ProviderEvent → Query → R Query
on_event env routing batch (init id) q =
    λ c. went (record q { continuation = some id }) (set_continuation env id c)
on_event env routing batch (result t is_error) q =
    λ c. on_result env routing t is_error q (complete env batch c)
on_event env routing batch other_event q = pure q

abbrev pub of_pair : Query × Container → Went Query
of_pair (q, c) = went q c

unfoldable pub query_step : RunnerEnv → RoutingContext → List String → QueryStep → Query → R Query
query_step env routing batch (provider_event e) q c = on_event env routing batch e q c
query_step env routing batch follow_up_started q c = of_pair (follow_up_start env q c)
query_step env routing batch follow_up_ended q c = of_pair (follow_up_end env q c)
query_step env routing batch (host_wrote db) q c = went q (record c { inbound = db })

-- The events and polls of a query, in the order in which they happen.
unfoldable pub query_steps :
    RunnerEnv → RoutingContext → List String → List QueryStep → Query → R Query
query_steps env routing batch [] q = pure q
query_steps env routing batch (s ∷ ss) q =
    query_step env routing batch s q >>= λ q'. query_steps env routing batch ss q'
