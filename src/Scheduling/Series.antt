-- ===== src/Scheduling/Series.antt =====
-- Cancelling, pausing and resuming the live rows of a series: src/modules/scheduling/db.ts.
use pocketclaw_telegram.Prelude.{
  ℕ, String, false, ◌&&◌, none, List, [], ◌∷◌, select, update, is_some, ◌≡◌, refl, ap, arith, All,
}
use pocketclaw_telegram.SessionDb.{
  MessageIn, pending, completed, paused, InboundDb, is_pending, is_completed, is_due,
}
use pocketclaw_telegram.Scheduling.{
  is_paused, is_live, is_task_of, cancel_task, pause_task, resume_task, get_completed_recurring,
}

-- A row of the series after a cancellation.
abbrev pub IsOver : String → MessageIn → Type 0
IsOver task_id m = (is_task_of task_id m && is_live m.status) ≡ false

module _ (task_id : String) where
  cancel_rows :
      (ms : List MessageIn)
      → All (IsOver task_id) (
          update
            (λ m. is_task_of task_id m && is_live m.status)
            (λ m. record m { status = completed; recurrence = none })
            ms)
  cancel_rows [] = tt
  cancel_rows (m ∷ ms) = (ground arith, cancel_rows ms)

  recurring_rows :
      (ms : List MessageIn)
      → select
          (λ m. is_completed m.status && is_some m.recurrence)
          (update
            (λ m. is_task_of task_id m && is_live m.status)
            (λ m. record m { status = completed; recurrence = none })
            ms)
        ≡ select (λ m. is_completed m.status && is_some m.recurrence) ms
  recurring_rows [] = refl
  recurring_rows (m ∷ ms) = ground (arith, recurring_rows ms)

  resumed_rows :
      (ms : List MessageIn)
      → update
          (λ m. is_task_of task_id m && is_paused m.status)
          (λ m. record m { status = pending })
          (update
            (λ m. is_task_of task_id m && is_pending m.status)
            (λ m. record m { status = paused })
            ms)
        ≡ update
            (λ m. is_task_of task_id m && is_paused m.status)
            (λ m. record m { status = pending })
            ms
  resumed_rows [] = refl
  resumed_rows (m ∷ ms) = ground (arith, resumed_rows ms)

  due_rows :
      (now : ℕ) (ms : List MessageIn)
      → All
          (λ m.
            (is_task_of task_id m && is_pending m.status && m.trigger && is_due now m.process_after)
            ≡ false)
          (update
            (λ m. is_task_of task_id m && is_pending m.status)
            (λ m. record m { status = paused })
            ms)
  due_rows now [] = tt
  due_rows now (m ∷ ms) = (ground arith, due_rows now ms)

-- A cancelled series has no task that is pending or paused, and the rows that wait for their next
-- occurrence to be inserted, which are completed and still hold a recurrence, are the same as before.
pub cancel_task_lem :
    (db : InboundDb) (task_id : String)
    → All (IsOver task_id) (cancel_task db task_id).messages_in
      × (get_completed_recurring (cancel_task db task_id) ≡ get_completed_recurring db)
unfolding cancel_task get_completed_recurring
cancel_task_lem db task_id =
    (cancel_rows task_id db.messages_in, recurring_rows task_id db.messages_in)

-- While a series is paused none of its tasks is due, at any time; and resuming it after a pause is
-- the same as resuming it without: pausing loses nothing but the difference between the two.
pub pause_task_lem :
    (db : InboundDb) (task_id : String) (now : ℕ)
    → All
        (λ m.
          (is_task_of task_id m && is_pending m.status && m.trigger && is_due now m.process_after)
          ≡ false)
        (pause_task db task_id).messages_in
      × (resume_task (pause_task db task_id) task_id ≡ resume_task db task_id)
unfolding pause_task resume_task
pause_task_lem db task_id now = (
  due_rows task_id now db.messages_in,
  ap (λ ms. record db { messages_in = ms }) (resumed_rows task_id db.messages_in),
)
