-- ===== src/Worker/Failures.antt =====
-- worker.py: what becomes of a control task that fails.
use insightxadsflow.Prelude.{
  ℕ, Bool, [], ◌∷◌, refl, ◌+◌, ◌≡◌, ap, ◌∙◌, not, inl, inr, true, Option, some, ◌==◌, if◌then◌else◌,
  leb, is_some, arith, Bool-cases, find_where, find_where-replace, ==-refl,
}
use insightxadsflow.Models.{
  ControlTask, ControlTaskStatus, TelegramConnection, Database, Exception, is_task_failed, put_task,
  is_retryable,
}
use insightxadsflow.Text.{Unicode}
use insightxadsflow.Errors.{ClassifiedError, classify_error}
use insightxadsflow.Events.{notify, has_alert}
use insightxadsflow.Events.Frames.{has_alert-notify, notify_frame}
use insightxadsflow.Worker.Control.{
  failed_status, failed_task, failure_alert, after_exception, connection_row, process_control_task,
}

abbrev pub find_task : ℕ → Database → Option ControlTask
find_task task_id db = find_where (λ t. t.id == task_id) db.control_tasks

-- Three attempts have been made, or the class of the failure is not retried.
abbrev pub is_final : ClassifiedError → ℕ → Bool
is_final classified attempts =
    if leb 3 attempts then true else not (is_retryable classified.error_class)

-- What `process_control_task` owes after a failure of `task`.
pub record IsReported (classified : ClassifiedError) (task : ControlTask) (db : Database)
    : Type 0 where
  pub row : ControlTask
  pub found : find_task task.id db ≡ some row
  pub one_attempt_more : row.attempt_count ≡ task.attempt_count + 1
  pub error_code : row.last_error_code ≡ some classified.code
  pub status : row.status ≡ (
      if is_final classified (task.attempt_count + 1)
      then ControlTaskStatus.failed
      else ControlTaskStatus.pending)
  pub alerted :
      is_final classified (task.attempt_count + 1) ≡ true
      → has_alert ("control_task_failed" ∷ [], task.id ∷ []) db.notifications ≡ true

final_status :
    (classified : ClassifiedError) (attempts : ℕ)
    → failed_status classified attempts ≡ (
        if is_final classified attempts
        then ControlTaskStatus.failed
        else ControlTaskStatus.pending)
final_status classified attempts = ground arith

final_failed :
    (classified : ClassifiedError) (attempts : ℕ)
    → is_task_failed (failed_status classified attempts) ≡ is_final classified attempts
final_failed classified attempts = ground arith

find_task-put_task :
    (row : ControlTask) (db : Database)
    → is_some (find_task row.id db) ≡ true
    → find_task row.id (put_task row db) ≡ some row
unfolding put_task
find_task-put_task row db there =
    find_where-replace (λ t. t.id == row.id) row (==-refl row.id) db.control_tasks there

find_task-notify :
    (task_id : ℕ) (row : ControlTask) (db : Database)
    → find_task task_id (notify (failure_alert row) db) ≡ find_task task_id db
find_task-notify task_id row db =
    let (n, e) = notify_frame (failure_alert row) db in ap (λ (d : Database). find_task task_id d) e

after_exception-IsReported :
    (classified : ClassifiedError) (task : ControlTask) (db : Database)
    → is_some (find_task task.id db) ≡ true
    → IsReported classified task (after_exception classified task db)
unfolding after_exception
after_exception-IsReported classified task db there =
    let row = failed_task classified task in
    let final = final_failed classified (task.attempt_count + 1) in
    elim (Bool-cases (is_task_failed row.status)) [
      | inl e ↦
          rw (e, after_exception)
            (record {
              row = row;
              found =
                  find_task-notify task.id row (put_task row db) ∙ find_task-put_task row db there;
              one_attempt_more = refl;
              error_code = refl;
              status = final_status classified (task.attempt_count + 1);
              alerted = λ h. has_alert-notify (failure_alert row) (put_task row db);
            })
      | inr e ↦
          rw (e, after_exception)
            (record {
              row = row;
              found = find_task-put_task row db there;
              one_attempt_more = refl;
              error_code = refl;
              status = final_status classified (task.attempt_count + 1);
              alerted = λ h. ground (arith, final, e);
            })
    ]

-- Where a control task is in the table, its connection is there, and the work for it raises an exception
-- and leaves the task's row, the row afterwards has one attempt more and the exception's code; it is
-- failed exactly from the third attempt on or where the class is not retried, and pending otherwise;
-- and where it is failed there is an alert about it.
pub process_control_task-IsReported :
    (u : Unicode) (work : ControlTask → TelegramConnection → Database → Option Exception × Database)
    (db after : Database) (task : ControlTask) (connection : TelegramConnection) (exc : Exception)
    (found : find_task task.id db ≡ some task)
    (connected : connection_row db task.connection_id ≡ some connection)
    (raises : work task connection db ≡ (some exc, after))
    (kept : is_some (find_task task.id after) ≡ true)
    → IsReported (classify_error u exc) task (process_control_task u work task.id db)
unfolding process_control_task
process_control_task-IsReported u work db after task connection exc found connected raises kept =
    rw (found, connected, raises)
      (after_exception-IsReported (classify_error u exc) task after kept)
