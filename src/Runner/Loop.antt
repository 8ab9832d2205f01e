-- ===== src/Runner/Loop.antt =====
-- One round of `runPollLoop` in container/agent-runner/src/poll-loop.ts.
pub mod Placed
pub mod Settled
use Prim.Native.String
use pocketclaw_telegram.Prelude.{
  Option, List, String, none, Bool, false, ◌++◌, [], if◌then◌else◌, select, ◌∷◌, true, any, some,
  not, ◌==◌, ◌&&◌,
}
use pocketclaw_telegram.Runner.Send.{
  RunnerEnv, Container, migrate_legacy_continuation, RoutingContext, clear_continuation, R, Went,
  reply_with, write_out, raised, pure, extract_routing, went, ◌>>◌, ◌>>=◌, set_continuation,
}
use pocketclaw_telegram.Runner.Query.{
  Query, QueryStep, complete, not_system, ids_of, kept, claim, pending_of, query_steps, skipped,
}
use pocketclaw_telegram.SessionDb.{MessageIn}
use pocketclaw_telegram.Runner.{WriteMessageOut, clear_stale_processing_acks}
use pocketclaw_telegram.Runner.Commands.{is_chat, is_upload_trace_command, is_clear_command}

-- The loop's variables beside the databases.
pub record Loop : Type 0 where
  pub continuation : Option String
  pub first : Bool
  pub container : Container

-- How a query ends: its steps, and whether the stream throws after them, with the message and
-- whether the provider then holds the session for invalid.
pub record Script : Type 0 where
  pub steps : List QueryStep
  pub failure : Option (String × Bool)

pub data Turn : Type 0 where
  continues : Loop → Turn
  crashed : Loop → Turn

abbrev pub fresh_query : Query
fresh_query = record {
  in_flight = none;
  ended_for_command = false;
  nudged = false;
  continuation = none;
  pushed = 0;
}

-- What the commands of a batch leave: the other messages, the ids of the commands, the continuation.
pub record Sorted : Type 0 where
  pub normal : List MessageIn
  pub commands : List String
  pub continuation : Option String

abbrev pub cleared_text : RunnerEnv → RoutingContext → String → WriteMessageOut
cleared_text env routing = reply_with env routing none "Session cleared."

module _ (env : RunnerEnv) (upload_trace : Container → String) (routing : RoutingContext) where
  abbrev pub with_command : String → Sorted → Sorted
  with_command id s = record s { commands = s.commands ++ id ∷ [] }

  abbrev pub handle_clear : MessageIn → Sorted → R Sorted
  handle_clear m s = λ c.
      (write_out env (cleared_text env routing)
          >> pure (with_command m.id (record s { continuation = none })))
        (clear_continuation env c)

  abbrev pub handle_upload : MessageIn → Sorted → R Sorted
  handle_upload m s = λ c.
      (write_out env (reply_with env routing none (upload_trace c)) >> pure (with_command m.id s)) c

  abbrev pub handle_chat : MessageIn → Option Bool → Sorted → R Sorted
  handle_chat m none s = λ c. raised "text.trim is not a function" c
  handle_chat m (some true) s = handle_clear m s
  handle_chat m (some false) s =
      if is_upload_trace_command env.parse_json m
      then handle_upload m s
      else pure (record s { normal = s.normal ++ m ∷ [] })

  abbrev pub handle_one : MessageIn → Sorted → R Sorted
  handle_one m s =
      if is_chat m
      then handle_chat m (is_clear_command env.parse_json m) s
      else pure (record s { normal = s.normal ++ m ∷ [] })

  unfoldable pub sort_commands : List MessageIn → Sorted → R Sorted
  sort_commands [] s = pure s
  sort_commands (m ∷ ms) s = handle_one m s >>= sort_commands ms

abbrev pub differs : Option String → String → Bool
differs none id = true
differs (some old) id = not (old == id)

-- `if (result.continuation && result.continuation !== continuation)`
abbrev pub continued : RunnerEnv → Option String → Option String → Container → Loop
continued env none old c = record { continuation = old; first = false; container = c }
continued env (some id) old c =
    if not (id == "") && differs old id
    then record { continuation = some id; first = false; container = set_continuation env id c }
    else record { continuation = old; first = false; container = c }

abbrev pub forgets : Option String → Bool → Bool
forgets none invalid = false
forgets (some id) invalid = invalid

-- The handler of a failed query, up to its message.
abbrev pub after_failure : RunnerEnv → Option String → Bool → Container → Loop
after_failure env old invalid c =
    if forgets old invalid
    then record { continuation = none; first = false; container = clear_continuation env c }
    else record { continuation = old; first = false; container = c }

abbrev pub completed_in : RunnerEnv → List String → Loop → Loop
completed_in env ids l = record l { container = complete env ids l.container }

abbrev pub in_container : Loop → Container → Loop
in_container l c = record l { container = c }

abbrev pub reported : RunnerEnv → List String → Loop → Went (Unit {0}) → Turn
reported env ids l (went u c) = continues (completed_in env ids (in_container l c))
reported env ids l (raised m c) = crashed (in_container l c)

-- `catch (err)`: the error goes to the chat that the batch came from, and the batch is completed.
abbrev pub failed_query :
    RunnerEnv → RoutingContext → List String → Option String → String × Bool → Container → Turn
failed_query env routing ids old (m, invalid) c =
    reported env ids (after_failure env old invalid c) (
      write_out env (reply_with env routing none (String.◌++◌ "Error: " m))
        (after_failure env old invalid c).container)

-- A throw of the runner's own writes is no fault of the session.
abbrev pub finished :
    RunnerEnv
    → RoutingContext
    → List String
    → Option String
    → Option (String × Bool)
    → Went Query
    → Turn
finished env routing ids old failure (raised m c) = failed_query env routing ids old (m, false) c
finished env routing ids old (some f) (went q c) = failed_query env routing ids old f c
finished env routing ids old none (went q c) =
    continues (completed_in env ids (continued env q.continuation old c))

abbrev pub asked :
    RunnerEnv → RoutingContext → Script → List MessageIn → Option String → Container → Turn
asked env routing script [] old c =
    continues (record { continuation = old; first = false; container = c })
asked env routing script (m ∷ ms) old c =
    finished env routing (ids_of (m ∷ ms)) old script.failure
      (query_steps env routing (ids_of (m ∷ ms)) script.steps fresh_query c)

-- Past the commands: the tasks that their scripts keep from the agent, then the query.
abbrev pub after_commands : RunnerEnv → RoutingContext → Script → Loop → Went Sorted → Turn
after_commands env routing script l (raised m c) = crashed (in_container l c)
after_commands env routing script l (went s c) =
    asked env routing script (kept env s.normal) s.continuation
      (complete env (ids_of (skipped env s.normal)) (complete env s.commands c))

abbrev pub has_trigger : List MessageIn → Bool
has_trigger = any (λ m. m.trigger)

abbrev pub sorted_none : Option String → Sorted
sorted_none old = record { normal = []; commands = []; continuation = old }

abbrev pub on_batch : RunnerEnv → (Container → String) → Script → List MessageIn → Loop → Turn
on_batch env upload_trace script ms l =
    if has_trigger ms
    then after_commands env (extract_routing ms) script l (
        sort_commands env upload_trace (extract_routing ms) ms (sorted_none l.continuation)
          (claim env (ids_of ms) l.container))
    else continues (record l { first = false })

-- A batch without a message that may wake the agent is left as it is.
unfoldable pub poll_round : RunnerEnv → (Container → String) → Script → Loop → Turn
poll_round env upload_trace script l =
    on_batch env upload_trace script (select not_system (pending_of env l.first l.container)) l

-- The start of the loop: the continuation that is kept, and no claims of an earlier container.
-- `too_old` is `maybeRotateContinuation`.
unfoldable pub start_loop : RunnerEnv → (String → Bool) → Container → Loop
unfolding migrate_legacy_continuation clear_continuation
start_loop env too_old c =
    let (old, c') = migrate_legacy_continuation env c in
    let rotates : Bool = elim old [ none ↦ false | some id ↦ not (id == "") && too_old id ] in
    let c'' : Container = if rotates then clear_continuation env c' else c' in
    record {
      continuation = if rotates then none else old;
      first = true;
      container = record c'' { outbound = clear_stale_processing_acks c''.outbound };
    }
