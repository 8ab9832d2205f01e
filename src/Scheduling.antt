-- ===== src/Scheduling.antt =====
-- src/modules/scheduling/db.ts and recurrence.ts: tasks are rows of `messages_in`.
pub mod Series
pub mod Recurrence
pub mod Rounds
mod Examples
use pocketclaw_telegram.Prelude.{
  ℕ, zero, suc, ◌+◌, String, ◌==◌, Bool, true, false, not, ◌&&◌, ◌||◌, Option, none, some, List, [],
  ◌∷◌, ◌++◌, any, select, update, length, if◌then◌else◌, is_some, ◌*◌,
}
use pocketclaw_telegram.Json.{Json, null, bool, number, text, arr, obj, Fields, end, field}
use pocketclaw_telegram.SessionDb.{
  Timestamp, at, MessageIn, MessageInStatus, pending, processing, completed, failed, paused,
  InboundDb, is_pending, is_completed, next_even_seq, insert_row, seconds,
}

abbrev pub is_paused : MessageInStatus → Bool
is_paused paused = true
is_paused _ = false

abbrev pub is_live : MessageInStatus → Bool
is_live s = is_pending s || is_paused s

-- `(id = ? OR series_id = ?) AND kind = 'task'`
abbrev pub is_task_of : String → MessageIn → Bool
is_task_of task_id m = (m.id == task_id || m.series_id == task_id) && m.kind == "task"

pub record Task : Type 0 where
  pub id : String
  pub process_after : Timestamp
  pub recurrence : Option String
  pub platform_id : Option String
  pub channel_type : Option String
  pub thread_id : Option String
  pub content : String

unfoldable pub insert_task : ℕ → InboundDb → Task → Option InboundDb
insert_task now db t = insert_row db (record {
  id = t.id;
  seq = next_even_seq db;
  kind = "task";
  timestamp = seconds now * 1000;
  status = pending;
  process_after = some t.process_after;
  recurrence = t.recurrence;
  series_id = t.id;
  tries = 0;
  trigger = true;
  platform_id = t.platform_id;
  channel_type = t.channel_type;
  thread_id = t.thread_id;
  content = t.content;
  source_session_id = none;
  on_wake = false;
})

unfoldable pub cancel_task : InboundDb → String → InboundDb
cancel_task db task_id = record db {
  messages_in =
      update (λ m. is_task_of task_id m && is_live m.status)
        (λ m. record m { status = completed; recurrence = none }) db.messages_in;
}

unfoldable pub pause_task : InboundDb → String → InboundDb
pause_task db task_id = record db {
  messages_in =
      update (λ m. is_task_of task_id m && is_pending m.status) (λ m. record m { status = paused })
        db.messages_in;
}

unfoldable pub resume_task : InboundDb → String → InboundDb
resume_task db task_id = record db {
  messages_in =
      update (λ m. is_task_of task_id m && is_paused m.status) (λ m. record m { status = pending })
        db.messages_in;
}

-- `none` is an argument that is not given; the inner option of a nullable one is null.
pub record TaskUpdate : Type 0 where
  pub prompt : Option String
  pub script : Option (Option String)
  pub recurrence : Option (Option String)
  pub process_after : Option Timestamp

abbrev pub set_field : String → Json → Fields → Fields
set_field key v end = field key v end
set_field key v (field k w fs) = if k == key then field key v fs else field k w (set_field key v fs)

-- `parsed.key = v`: a TypeError on a value that is no object; an array keeps its items, and
-- `JSON.stringify` prints no other property of it.
abbrev pub set_property : String → Json → Json → Option Json
set_property key v (obj fs) = some (obj (set_field key v fs))
set_property key v (arr xs) = some (arr xs)
set_property key v _ = none

abbrev pub nullable_text : Option String → Json
nullable_text none = null
nullable_text (some s) = text s

infixl 5 ◌>>=◌
abbrev pub ◌>>=◌ {ℓ κ} : {A : Type ℓ} {B : Type κ} → Option A → (A → Option B) → Option B
none >>= k = none
some a >>= k = k a

module _ (parse_json : String → Option Json) (stringify : Json → String) where
  abbrev pub set_prompt : Option String → Json → Option Json
  set_prompt none v = some v
  set_prompt (some s) v = set_property "prompt" (text s) v

  abbrev pub set_script : Option (Option String) → Json → Option Json
  set_script none v = some v
  set_script (some s) v = set_property "script" (nullable_text s) v

  -- The merged content of one row; `none` where parsing or an assignment throws.
  unfoldable pub merge_content : TaskUpdate → String → Option String
  merge_content u content =
      if is_some u.prompt || is_some u.script
      then (do
        parsed ← parse_json content
        with_prompt ← set_prompt u.prompt parsed
        with_script ← set_script u.script with_prompt
        some (stringify with_script))
      else some content

  abbrev pub or_keep {ℓ} : {A : Type ℓ} → Option A → A → A
  or_keep none old = old
  or_keep (some new) old = new

  abbrev pub apply_update : TaskUpdate → String → MessageIn → MessageIn
  apply_update u content m = record m {
    content = content;
    process_after = elim u.process_after [ none ↦ m.process_after | some t ↦ some t ];
    recurrence = or_keep u.recurrence m.recurrence;
  }

  -- The loop of the transaction, over the rows that the SELECT found.
  unfoldable pub update_rows :
      TaskUpdate → List MessageIn → List MessageIn → Option (List MessageIn)
  update_rows u [] ms = some ms
  update_rows u (r ∷ rs) ms = merge_content u r.content >>= λ content.
      update_rows u rs (update (λ m. m.id == r.id) (apply_update u content) ms)

  -- The new database and the number of rows touched. An error inside the transaction rolls it back
  -- and is thrown: `none`.
  unfoldable pub update_task : InboundDb → String → TaskUpdate → Option (InboundDb × ℕ)
  update_task db task_id u =
      let rows = select (λ m. is_task_of task_id m && is_live m.status) db.messages_in in
      update_rows u rows db.messages_in >>= λ ms. some (record db { messages_in = ms }, length rows)

unfoldable pub get_completed_recurring : InboundDb → List MessageIn
get_completed_recurring db =
    select (λ m. is_completed m.status && is_some m.recurrence) db.messages_in

-- The clone of a row, under a new id and at its next run.
abbrev pub recurrence_row : ℕ → ℕ → MessageIn → String → ℕ → MessageIn
recurrence_row now next m new_id next_run = record m {
  id = new_id;
  seq = next;
  timestamp = seconds now * 1000;
  status = pending;
  process_after = some (at next_run);
  tries = 0;
  trigger = true;
  source_session_id = none;
  on_wake = false;
}

unfoldable pub insert_recurrence : ℕ → InboundDb → MessageIn → String → ℕ → Option InboundDb
insert_recurrence now db m new_id next_run =
    insert_row db (recurrence_row now (next_even_seq db) m new_id next_run)

unfoldable pub clear_recurrence : InboundDb → String → InboundDb
clear_recurrence db id = record db {
  messages_in = update (λ m. m.id == id) (λ m. record m { recurrence = none }) db.messages_in;
}

-- `next_run cron now` is the next instant of the expression in the host's time zone, `none` where
-- cron-parser throws; `new_id prefix n` is the random id that round n makes.
module _ (next_run : String → ℕ → Option ℕ) (new_id : String → ℕ → String) where
  abbrev next_of : ℕ → MessageIn → Option ℕ
  next_of now m = m.recurrence >>= λ cron. next_run cron now

  abbrev pub id_prefix : MessageIn → String
  id_prefix m = if m.kind == "task" then "task" else "msg"

  abbrev inserted_or : InboundDb → Option InboundDb → String → InboundDb
  inserted_or db none id = db
  inserted_or db (some db') id = clear_recurrence db' id

  abbrev recurred : ℕ → ℕ → InboundDb → MessageIn → Option ℕ → InboundDb
  recurred now n db m none = db
  recurred now n db m (some t) =
      inserted_or db (insert_recurrence now db m (new_id (id_prefix m) n) t) m.id

  -- One round of the loop; whatever throws is caught and logged, and leaves the row as it was.
  unfoldable pub recur_one : ℕ → ℕ → InboundDb → MessageIn → InboundDb
  recur_one now n db m = recurred now n db m (next_of now m)

  unfoldable pub recur_all : ℕ → ℕ → InboundDb → List MessageIn → InboundDb
  recur_all now n db [] = db
  recur_all now n db (m ∷ ms) = recur_all now (n + 1) (recur_one now n db m) ms

  unfoldable pub handle_recurrence : ℕ → InboundDb → InboundDb
  handle_recurrence now db = recur_all now 0 db (get_completed_recurring db)
