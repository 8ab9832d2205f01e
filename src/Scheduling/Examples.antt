-- ===== src/Scheduling/Examples.antt =====
-- A series with one task that waits.
use pocketclaw_telegram.SessionDb.{MessageIn, InboundDb}
use pocketclaw_telegram.Prelude.{All, some, ◌∷◌, [], ◌≡◌, String, ℕ, Option, ◌+◌, refl}
use pocketclaw_telegram.Fixtures.{row, inbox}
use pocketclaw_telegram.Scheduling.Series.{IsOver, cancel_task_lem}
use pocketclaw_telegram.Scheduling.{
  cancel_task, get_completed_recurring, completed, handle_recurrence,
}
use pocketclaw_telegram.Scheduling.Recurrence.{heads}
use pocketclaw_telegram.Scheduling.Rounds.{handle_recurrence-heads}

abbrev task : MessageIn
task = record row {
  id = "task-1";
  kind = "task";
  series_id = "task-1";
  recurrence = some "0 9 * * *";
}

abbrev tasks : InboundDb
tasks = record inbox { messages_in = task ∷ row ∷ [] }

cancel_task_lem_example :
    All (IsOver "task-1") (cancel_task tasks "task-1").messages_in
    × (get_completed_recurring (cancel_task tasks "task-1") ≡ get_completed_recurring tasks)
cancel_task_lem_example = cancel_task_lem tasks "task-1"

abbrev next_run : String → ℕ → Option ℕ
next_run cron now = some (now + 60000)

abbrev new_id : String → ℕ → String
new_id prefix n = "task-2"

-- The task has run and waits for its next occurrence.
abbrev ran : InboundDb
ran = record inbox { messages_in = record task { status = completed } ∷ row ∷ [] }

handle_recurrence-heads_example :
    heads "task-1" (handle_recurrence next_run new_id 5000 ran).messages_in
    ≡ heads "task-1" ran.messages_in
handle_recurrence-heads_example =
    handle_recurrence-heads next_run new_id "task-1" 5000 ran (refl, (refl, tt))
