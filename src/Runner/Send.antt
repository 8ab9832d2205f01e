-- ===== src/Runner/Send.antt =====
-- What the container's program works on, and what it sends: `dispatchResultText` of
-- container/agent-runner/src/poll-loop.ts, and the continuation that db/session-state.ts keeps.
use Prim.Native.String
use pocketclaw_telegram.SessionDb.{InboundDb, MessageIn, OutboundDb, latest}
use pocketclaw_telegram.Prelude.{
  ℕ, String, Option, List, Bool, select, ◌++◌, none, find, false, ◌==◌, eqb, ◌∷◌, not, ◌+◌, some,
  [], is_text, ◌&&◌,
}
use pocketclaw_telegram.Runner.{
  DestinationEntry, WriteMessageOut, write_message_out, to_channel, to_agent,
}
use pocketclaw_telegram.Json.{Json, obj, field, text, end}
use pocketclaw_telegram.World.{lookup_db}
use pocketclaw_telegram.Runner.Blocks.{
  Piece, pieces, scratch, strip_internal_tags, message, trim_text,
}

-- What the container works on. The host may replace the inbound database between two steps.
pub record Container : Type 0 where
  pub inbound : InboundDb
  pub destinations : List DestinationEntry
  pub outbound : OutboundDb
  pub session_state : List (String × String)
  pub draws : ℕ

-- `limit` is `maxMessagesPerPrompt`, `fresh n` the n-th id of `generateId`, `lowered` is
-- `providerName.toLowerCase()`, and `skips` says which task a pre-task script keeps from the agent.
pub record RunnerEnv : Type 0 where
  pub now : ℕ
  pub limit : ℕ
  pub parse_json : String → Option Json
  pub stringify : Json → String
  pub fresh : ℕ → String
  pub lowered : String
  pub skips : MessageIn → Bool

pub data Went {ℓ} (A : Type ℓ) : Type ℓ where
  went : A → Container → Went A
  raised : String → Container → Went A

abbrev pub R : Type 0 → Type 0
R A = Container → Went A

abbrev pub onward {ℓ κ} : {A : Type ℓ} {B : Type κ} → Went A → (A → Container → Went B) → Went B
onward (went a c) f = f a c
onward (raised m c) f = raised m c

infixl 5 ◌>>=◌ ◌>>◌
abbrev pub ◌>>=◌ : {A B : Type 0} → R A → (A → R B) → R B
◌>>=◌ m f c = onward (m c) f

abbrev pub ◌>>◌ : {A B : Type 0} → R A → R B → R B
◌>>◌ m f c = onward (m c) (λ a. f)

abbrev pub pure : {A : Type 0} → A → R A
pure a c = went a c

-- `DELETE` and `INSERT OR REPLACE` on `session_state`
abbrev pub delete_value : String → List (String × String) → List (String × String)
delete_value key = select (λ (k, v). not (k == key))

abbrev pub set_value : String → String → List (String × String) → List (String × String)
set_value key v rows = delete_value key rows ++ (key, v) ∷ []

abbrev pub continuation_key : RunnerEnv → String
continuation_key env = String.◌++◌ "continuation:" env.lowered

unfoldable pub set_continuation : RunnerEnv → String → Container → Container
set_continuation env id c = record c {
  session_state = set_value (continuation_key env) id c.session_state;
}

unfoldable pub clear_continuation : RunnerEnv → Container → Container
clear_continuation env c = record c {
  session_state = delete_value (continuation_key env) c.session_state;
}

abbrev pub adopted :
    RunnerEnv → Option String → Option String → Container → Option String × Container
adopted env none current c = (current, c)
adopted env (some legacy) (some current) c =
    (some current, record c { session_state = delete_value "sdk_session_id" c.session_state })
adopted env (some legacy) none c = (
  some legacy,
  set_continuation env legacy
      (record c { session_state = delete_value "sdk_session_id" c.session_state }),
)

unfoldable pub migrate_legacy_continuation : RunnerEnv → Container → Option String × Container
migrate_legacy_continuation env c =
    adopted env (lookup_db "sdk_session_id" c.session_state)
      (lookup_db (continuation_key env) c.session_state) c

pub record RoutingContext : Type 0 where
  pub platform_id : Option String
  pub channel_type : Option String
  pub thread_id : Option String
  pub in_reply_to : Option String

unfoldable pub extract_routing : List MessageIn → RoutingContext
extract_routing [] = record {
  platform_id = none;
  channel_type = none;
  thread_id = none;
  in_reply_to = none;
}
extract_routing (m ∷ ms) = record {
  platform_id = m.platform_id;
  channel_type = m.channel_type;
  thread_id = m.thread_id;
  in_reply_to = some m.id;
}

abbrev pub text_content : RunnerEnv → String → String
text_content env s = env.stringify (obj (field "text" (text s) end))

-- The write throws on an id that is taken.
unfoldable pub write_out : RunnerEnv → (String → WriteMessageOut) → R (Unit {0})
write_out env m c = elim (write_message_out env.now c.inbound c.outbound (m (env.fresh c.draws))) [
  | none ↦ raised "UNIQUE constraint failed" (record c { draws = c.draws + 1 })
  | some (n, db) ↦ went tt (record c { outbound = db; draws = c.draws + 1 })
]

-- A message to the chat that the batch came from.
abbrev pub reply_with :
    RunnerEnv → RoutingContext → Option String → String → String → WriteMessageOut
reply_with env routing reply body id = record {
  id = id;
  in_reply_to = reply;
  deliver_after = none;
  kind = "chat";
  platform_id = routing.platform_id;
  channel_type = routing.channel_type;
  thread_id = routing.thread_id;
  content = text_content env body;
}

unfoldable pub find_by_name : List DestinationEntry → String → Option DestinationEntry
find_by_name rows name = find (λ d. d.name == name) rows

abbrev pub dest_platform : DestinationEntry → Option String
dest_platform d = elim d.kind [ to_channel ↦ d.platform_id | to_agent ↦ d.agent_group_id ]

abbrev pub dest_channel : DestinationEntry → Option String
dest_channel d = elim d.kind [ to_channel ↦ d.channel_type | to_agent ↦ some "agent" ]

abbrev pub same_text : Option String → Option String → Bool
same_text none o = false
same_text (some s) o = is_text o s

-- The newest inbound row of the destination's chat.
abbrev pub resolve_destination_thread : DestinationEntry → InboundDb → Option MessageIn
resolve_destination_thread d db = latest (
    select
      (λ m. same_text (dest_channel d) m.channel_type && same_text (dest_platform d) m.platform_id)
      db.messages_in)

abbrev pub reply_of : Option MessageIn → Option String → Option String
reply_of none default = default
reply_of (some m) default = some m.id

abbrev pub thread_of : Option MessageIn → Option String
thread_of none = none
thread_of (some m) = m.thread_id

unfoldable pub send_to_destination :
    RunnerEnv → DestinationEntry → String → RoutingContext → R (Unit {0})
send_to_destination env d body routing c =
    write_out env
      (λ id. record {
        id = id;
        in_reply_to = reply_of (resolve_destination_thread d c.inbound) routing.in_reply_to;
        deliver_after = none;
        kind = "chat";
        platform_id = dest_platform d;
        channel_type = dest_channel d;
        thread_id = thread_of (resolve_destination_thread d c.inbound);
        content = text_content env body;
      })
      c

abbrev pub dropped_note : String → String → String
dropped_note name body =
    String.◌++◌ "[dropped: unknown destination \"" (String.◌++◌ name (String.◌++◌ "\"] " body))

-- The number of messages sent, and the text outside the blocks.
unfoldable pub dispatch_pieces :
    RunnerEnv → RoutingContext → ℕ → String → List Piece → R (ℕ × String)
dispatch_pieces env routing sent pad [] = pure (sent, pad)
dispatch_pieces env routing sent pad (scratch ch ∷ ps) =
    dispatch_pieces env routing sent (String.◌++◌ pad (String.◌∷◌ ch String.[])) ps
dispatch_pieces env routing sent pad (message name body ∷ ps) = λ c.
    elim (find_by_name c.destinations name) [
      | none ↦
          dispatch_pieces env routing sent (String.◌++◌ pad (dropped_note name (trim_text body))) ps
            c
      | some d ↦
          (send_to_destination env d (trim_text body) routing
              >> dispatch_pieces env routing (sent + 1) pad ps)
            c
    ]

abbrev pub is_empty_text : String → Bool
is_empty_text s = s == ""

abbrev pub summed : ℕ × String → ℕ × Bool
summed (sent, pad) = (sent, eqb sent 0 && not (is_empty_text (strip_internal_tags pad)))

-- The count, and whether text was left while nothing was sent.
unfoldable pub dispatch_result_text : RunnerEnv → RoutingContext → String → R (ℕ × Bool)
dispatch_result_text env routing t =
    dispatch_pieces env routing 0 "" (pieces t) >>= λ r. pure (summed r)
