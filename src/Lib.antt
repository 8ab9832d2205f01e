-- ===== src/Lib.antt =====
-- pocketclaw-telegram: a host that carries messages between chat platforms and agents in containers.
--
-- A channel adapter hands an event to the router (src/router.ts), which finds the chat, asks the
-- wired agents one by one whether they engage, and writes the message into the inbound database of
-- an agent's session (src/session-manager.ts, src/db/). The container of the session reads it and
-- writes its answers into the outbound database, which delivery (src/delivery.ts) polls: a message
-- goes to a chat, to another agent (src/modules/agent-to-agent/) or to the host itself. A sweep
-- (src/host-sweep.ts) copies acknowledgements back, wakes sessions with due work, kills stuck
-- containers, retries their messages and arms recurring tasks (src/modules/scheduling/).
--
-- The files, and the code they model:
-- - Types: the rows of the central database, src/types.ts; Json: the values of JSON.parse.
-- - World: the state that routing and delivery share. The central tables are lists of rows, oldest
--   insert first; each session has an inbound and an outbound database, found by the session's id.
--   A step is a function from the world to a result and a world (`M`), and what was written before a
--   throw stays written. Calls that leave the host are appended to `effects`.
-- - SessionDb: src/db/session-db.ts, one function for each statement; Acks has the acknowledgements,
--   Outbound what delivery runs. Sessions: resolveSession and the lookups of
--   src/db/sessions.ts; Resolve and Lookup are about them.
-- - Router: src/router.ts. Event has the event and evaluateEngage, Agents has deliverToAgent and the
--   fan-out, Inbound has routeInbound; Engage, FanOut, Silence, Deliver, Refused and Strangers
--   are about them.
-- - Permissions: src/modules/permissions/access.ts and db/; CommandGate: src/command-gate.ts.
-- - SenderGates: the hooks of src/modules/permissions/index.ts; Admission is about the router with
--   them installed.
-- - Delivery: src/delivery.ts. Message has deliverMessage, Questions the questions it tracks, Drain
--   drainSession and the guard of sessions in flight, Polls the steps of the two timer chains; Chats,
--   Quiet, Sends, Cards, Attempts and Retries are about them.
-- - AgentToAgent: src/modules/agent-to-agent/ and src/attachment-safety.ts. Destinations has the two
--   tables, Files the forwarded files, Route the routes; Edges, Authorized, Gated,
--   Returns and Attachments are about them.
-- - HostSweep: the rules of src/host-sweep.ts; SessionSweep: its tick over one session; Scheduling:
--   src/modules/scheduling/db.ts and recurrence.ts.
-- - Approvals: src/modules/approvals/ and the approval of senders in src/modules/permissions/. Approvals
--   has the tables, the state of the whole office and pickApprover; Reach has ensureUserDm, Request
--   requestApproval, Response the clicks on an approval, Sender the card for an unknown sender and
--   its answer. Held is requestApproval for a caller that has the world alone, Others about it.
--   Picks, Quiet, Asked, Clicks, Once, Pending and Admits are about them.
-- - CircuitBreaker: src/circuit-breaker.ts; GroupFolder: src/group-folder.ts.
-- - Cli: src/cli/frame.ts, registry.ts and normalizeArgs of crud.ts; Cli/Dispatch: src/cli/dispatch.ts,
--   over a registry of commands and any state; Cli/Checks has its checks on an agent. Confined, Scope,
--   Rows and Normal are about it.
-- - Runner: the program in the container, container/agent-runner/src/. Runner has db/messages-in.ts,
--   db/messages-out.ts and the start of db/connection.ts; Commands has categorizeMessage and the
--   tests on commands of formatter.ts and upload-trace.ts; Blocks finds the message blocks of a
--   text; Send has dispatchResultText, Query processQuery and Loop a round of runPollLoop. Pending,
--   Numbers, Acks, Gate, Fuel, Wrap, Kept, Placed and Settled are about them.
-- - Mounts: src/modules/mount-security/index.ts; Contained is about it.
-- - Prelude: tests on numbers, lists and the library's names; Fixtures and the Examples modules: the
--   theorems and tests at concrete data.
--
-- What is a parameter: the clock, ids drawn at random, JSON, regular expressions and the order of
-- texts (`Env`); the hooks that modules register with the router (`Hooks`); the channel adapter and
-- the system actions (`Channels`); the files of an outbox, and requestApproval where a message is held
-- (`RouteHost`; Approvals/Request/Held gives it from Approvals/Request); cron-parser; the commands of the
-- registry; the handlers of approved actions; the host's files behind a mount; the agent's provider,
-- whose events are a list, and its pre-task scripts (`RunnerEnv`). A time is a number of milliseconds,
-- an identifier a text. Every loop is a recursion on the list that the code
-- walks, except the searches of a regular expression in Runner/Blocks, whose fuel is the length of
-- the text and one more: a match takes at least one character, and Runner/Blocks/Fuel has the lemma
-- that more fuel finds the same. The poll loop of the container runs for ever: Loop has one round.
--
-- What is not modelled: starting containers, the typing indicator's timers, the approval of channels,
-- the OneCLI bridge, the handlers of the command line's resources, the bridges to the platforms, the
-- tools and providers of the program in the container, set-up and migrations. They are I/O, or decide
-- nothing that the modelled parts rely on beyond the parameters above. In the executable model an asynchronous call runs to its end; Delivery/Polls has the
-- interleavings of the two polls as steps.
mod Prelude
mod Fixtures
pub mod Types
pub mod Json
pub mod Permissions
pub mod CommandGate
pub mod Sessions
pub mod SessionDb
pub mod World
pub mod Router
pub mod HostSweep
pub mod Scheduling
pub mod SessionSweep
pub mod AgentToAgent
pub mod Approvals
pub mod Delivery
pub mod SenderGates
pub mod CircuitBreaker
pub mod GroupFolder
pub mod Cli
pub mod Runner
pub mod Mounts
