-- ===== src/Runner/Examples.antt =====
-- The container's program on one inbound row and one outbound row, with a batch that is grown by
-- one wrapped message.
use pocketclaw_telegram.Fixtures.{row, inbox, outbox, out_row, read_object, nobody}
use pocketclaw_telegram.CommandGate.{codes, trim, gate_command, pass, parsed_text, lower, is_admin}
use pocketclaw_telegram.Prelude.{
  List, All, String, some, ◌∷◌, Option, true, false, none, ◌≡◌, [], length, ◌≤◌, arith, ◌%◌, refl,
  ◌<◌, select, ◌↔◌, ◌⊎◌, ◌≢◌,
}
use pocketclaw_telegram.Runner.{
  WriteMessageOut, write_message_out, DestinationEntry, next_odd_seq, get_message_id_by_seq,
  clear_stale_processing_acks, to_channel, get_pending_messages, out_row_of, delivered_id,
  mark_processing, mark_completed, ack_row, ack_completed, put_ack,
}
use pocketclaw_telegram.SessionDb.Acks.{sync_processing_acks}
use pocketclaw_telegram.SessionDb.{OutboundDb, MessageIn, max_seq, is_completed}
use pocketclaw_telegram.Runner.Blocks.{
  pieces, message, scan, match_block, open_tag, strip_internal_tags, drop_internal, trim_text,
}
use pocketclaw_telegram.Runner.Send.{
  Container, RunnerEnv, set_continuation, dispatch_result_text, dispatch_pieces, write_out,
  send_to_destination, find_by_name, extract_routing,
}
use pocketclaw_telegram.Runner.Query.{
  provider_event, init, result, query_steps, query_step, on_event, not_system, pending_of,
}
use pocketclaw_telegram.Runner.Loop.{Loop, Script, poll_round, continues, sort_commands}
use pocketclaw_telegram.Runner.Pending.{Fresh, Climbing, get_pending_messages_lem}
use pocketclaw_telegram.Runner.Acks.{mem, completed_stays, sync-mark_completed}
use pocketclaw_telegram.Runner.Blocks.Wrap.{wrapped, pieces-wrapped}
use pocketclaw_telegram.Json.{Json, obj, field, text, end}
use pocketclaw_telegram.World.Outbound.{max_seq_out}
use pocketclaw_telegram.Runner.Numbers.{
  get_message_id_by_seq_lem, OddRising, write_message_out-OddRising,
}
use pocketclaw_telegram.Runner.Commands.{
  is_clear_text, is_clear_command, is_upload_trace_command, is_upload_trace_text, has_prefix,
}
use pocketclaw_telegram.Runner.Commands.Gate.{clear_passes_gate}
use pocketclaw_telegram.Runner.Query.Kept.{Settled, acks_of}
use pocketclaw_telegram.Runner.Loop.Settled.{poll_round-Settled}

abbrev waiting : List MessageIn
waiting = get_pending_messages 5000 10 true inbox outbox

get_pending_messages_lem_example :
    All (Fresh 5000 10 true inbox outbox) waiting × Climbing waiting × (length waiting ≤ 10)
get_pending_messages_lem_example = get_pending_messages_lem 5000 10 true inbox outbox

abbrev answer : WriteMessageOut
answer = record {
  id = "o-2";
  in_reply_to = some "m-1";
  deliver_after = none;
  kind = "chat";
  platform_id = some "chat-1";
  channel_type = some "telegram";
  thread_id = none;
  content = "{}";
}

abbrev grown : OutboundDb
grown = record outbox { messages_out = out_row ∷ out_row_of 5000 5 answer ∷ [] }

write_message_out-OddRising_example :
    OddRising 0 grown.messages_out × (5 % 2 ≡ 1) × (2 < 5) × (3 < 5)
unfolding write_message_out next_odd_seq max_seq max_seq_out
write_message_out-OddRising_example =
    write_message_out-OddRising 5000 5 inbox outbox grown answer (omega arith, refl, tt) refl

get_message_id_by_seq_lem_example :
    All (λ m. get_message_id_by_seq inbox outbox m.seq ≡ some m.id) inbox.messages_in
    × All
        (λ m. get_message_id_by_seq inbox outbox m.seq ≡ some (delivered_id inbox.delivered m.id))
        outbox.messages_out
get_message_id_by_seq_lem_example =
    get_message_id_by_seq_lem inbox outbox (omega arith, refl, tt) (omega arith, refl, tt)

completed_stays_example :
    All
      (λ m. mem m.id ("m-1" ∷ []) ≡ false)
      (get_pending_messages 9000 10 true inbox
        (clear_stale_processing_acks (mark_completed 5000 ("m-1" ∷ []) outbox)))
completed_stays_example = completed_stays 5000 9000 10 true ("m-1" ∷ []) inbox outbox

sync-mark_completed_example :
    All
      (λ m. mem m.id ("m-1" ∷ []) ≡ true → is_completed m.status ≡ true)
      (sync_processing_acks inbox (mark_completed 5000 ("m-1" ∷ []) outbox)).messages_in
sync-mark_completed_example = sync-mark_completed 5000 ("m-1" ∷ []) inbox outbox

-- A parser that reads one message, whose text is no command of the gate.
abbrev clearly : String → Option Json
clearly content = some (obj (field "text" (text "/clearly now") end))

clear_passes_gate_example :
    ((gate_command clearly nobody true "{}" none "ag-1" ≡ pass)
      × (is_clear_text (parsed_text (clearly "{}") "{}") ≡ true))
    ↔ ((has_prefix (codes "/clear") (lower (codes "/clearly")) ≡ true)
        × ((is_admin nobody true none "ag-1" ≡ true) ⊎ (lower (codes "/clearly") ≢ codes "/clear")))
unfolding trim
clear_passes_gate_example =
    clear_passes_gate clearly nobody true "{}" none "ag-1" (codes "/clearly") (codes " now") refl
      (refl, (refl, (refl, (refl, (refl, (refl, (refl, (refl, tt)))))))) refl

abbrev wrapped_hi : String
wrapped_hi = "so <message to=\"home\">hi</message>"

pieces-wrapped_example : pieces (wrapped "home" "hi" "!") ≡ message "home" "hi" ∷ pieces "!"
pieces-wrapped_example =
    pieces-wrapped "home" "hi" "!" refl (refl, (refl, (refl, (refl, tt)))) (refl, (refl, tt))

abbrev home : DestinationEntry
home = record {
  name = "home";
  kind = to_channel;
  channel_type = some "telegram";
  platform_id = some "chat-1";
  agent_group_id = none;
}

abbrev container : Container
container = record {
  inbound = record { messages_in = record row { trigger = true } ∷ []; delivered = [] };
  destinations = home ∷ [];
  outbound = record outbox { messages_out = [] };
  session_state = [];
  draws = 0;
}

abbrev runner_env : RunnerEnv
runner_env = record {
  now = 5000;
  limit = 10;
  parse_json = read_object;
  stringify = λ v. "{}";
  fresh = λ n. "o-1";
  lowered = "claude";
  skips = λ m. false;
}

abbrev start : Loop
start = record { continuation = none; first = true; container = container }

abbrev script : Script
script = record {
  steps = provider_event (init "c-1") ∷ provider_event (result (some wrapped_hi) false) ∷ [];
  failure = none;
}

-- The message is sent to the chat, and the batch is completed.
abbrev after_round : Loop
after_round = record {
  continuation = some "c-1";
  first = false;
  container = record container {
    outbound = record outbox {
      messages_out =
          record out_row { id = "o-1"; seq = 3; timestamp = 5000; in_reply_to = some "m-1" } ∷ [];
      processing_ack = ack_row 5000 ack_completed "m-1" ∷ [];
    };
    session_state = ("continuation:claude", "c-1") ∷ [];
    draws = 1;
  };
}

round : poll_round runner_env (λ c. "") script start ≡ continues after_round
unfolding poll_round sort_commands query_steps query_step on_event set_continuation
    dispatch_result_text dispatch_pieces pieces scan match_block open_tag write_out
    write_message_out next_odd_seq max_seq max_seq_out send_to_destination find_by_name
    mark_completed mark_processing put_ack strip_internal_tags drop_internal trim_text
    get_pending_messages extract_routing is_clear_command is_clear_text is_upload_trace_command
    is_upload_trace_text
round = refl

poll_round-Settled_example :
    All
      (λ m. Settled m.id (acks_of after_round.container))
      (select not_system (pending_of runner_env true container))
unfolding get_pending_messages
poll_round-Settled_example =
    poll_round-Settled runner_env (λ c. "") script start after_round refl round
