-- ===== src/Worker/Control.antt =====
-- Control tasks: the functions of repositories/jobs.py on them, and `process_control_task` of
-- worker.py.
use insightxadsflow.Prelude.{
  ℕ, ◌+◌, ◌*◌, Bool, true, false, not, List, [], ◌∷◌, ◌++◌, Option, some, none, ◌==◌, if◌then◌else◌,
  leb, ltb, map, take, select, find_where, update_where, order_by, count_where, String,
}
use insightxadsflow.Models.{
  ControlTask, ControlTaskKind, ControlTaskStatus, TelegramConnection, AdminNotification, Database,
  Exception, is_task_pending, is_task_leased, is_task_failed, same_kind, put_task, is_retryable,
  second,
}
use insightxadsflow.Text.{Unicode}
use insightxadsflow.Errors.{ClassifiedError, classify_error}
use insightxadsflow.Events.{notify}
use insightxadsflow.Leases.{mem_id}

-- `id` is what `uuid4` draws; `not_before` is the database's `now()`.
abbrev pub new_task :
    ℕ → ℕ → ℕ → ControlTaskKind → Option ℕ → Option ℕ → Option ℕ → Bool → ControlTask
new_task now id user_id kind connection_id rule_id chat_id revoke = record {
  id = id;
  user_id = user_id;
  kind = kind;
  connection_id = connection_id;
  rule_id = rule_id;
  payload_chat_id = chat_id;
  payload_revoke = revoke;
  status = ControlTaskStatus.pending;
  attempt_count = 0;
  not_before = now;
  lease_owner = none;
  lease_expires_at = none;
  last_error_code = none;
}

unfoldable pub enqueue_control :
    ℕ
    → ℕ
    → ℕ
    → ControlTaskKind
    → Option ℕ
    → Option ℕ
    → Option ℕ
    → Bool
    → Database
    → ControlTask × Database
enqueue_control now id user_id kind connection_id rule_id chat_id revoke db =
    let task = new_task now id user_id kind connection_id rule_id chat_id revoke in
    (task, record db { control_tasks = db.control_tasks ++ task ∷ [] })

abbrev pub is_task_due : (ℕ → Bool) → ℕ → ControlTask → Bool
is_task_due locked now t =
    if is_task_pending t.status
    then (if leb t.not_before now then not (locked t.id) else false)
    else false

abbrev pub leased_task : String → ℕ → ControlTask → ControlTask
leased_task owner deadline t = record t {
  status = ControlTaskStatus.leased;
  lease_owner = some owner;
  lease_expires_at = some deadline;
}

unfoldable pub claim_control_batch :
    (ℕ → Bool) → String → ℕ → ℕ → ℕ → Database → List ControlTask × Database
unfolding order_by
claim_control_batch locked owner limit lease_seconds now db =
    let ids =
      map (λ t. t.id)
        (take limit
          (order_by (λ t. t.not_before) (select (is_task_due locked now) db.control_tasks))) in
    let tasks =
      update_where (λ t. mem_id t.id ids) (leased_task owner (now + lease_seconds * second))
        db.control_tasks in
    (select (λ t. mem_id t.id ids) tasks, record db { control_tasks = tasks })

abbrev expired_at : ℕ → Option ℕ → Bool
expired_at now none = false
expired_at now (some t) = ltb t now

abbrev pub is_task_expired : ℕ → ControlTask → Bool
is_task_expired now t = if is_task_leased t.status then expired_at now t.lease_expires_at else false

abbrev pub reclaimed_task : ControlTask → ControlTask
reclaimed_task t = record t {
  status = ControlTaskStatus.pending;
  lease_owner = none;
  lease_expires_at = none;
}

unfoldable pub reclaim_expired_control : ℕ → Database → ℕ × Database
reclaim_expired_control now db = (
  count_where (is_task_expired now) db.control_tasks,
  record db { control_tasks = update_where (is_task_expired now) reclaimed_task db.control_tasks },
)

abbrev live_at : ℕ → Option ℕ → Bool
live_at now none = false
live_at now (some t) = ltb now t

abbrev same_connection : ℕ → Option ℕ → Bool
same_connection connection_id none = false
same_connection connection_id (some c) = c == connection_id

-- A task is waiting, or is being worked on under a lease that has not run out.
abbrev pub is_live : ℕ → ControlTask → Bool
is_live now t =
    if is_task_pending t.status
    then true
    else if is_task_leased t.status
    then live_at now t.lease_expires_at
    else false

unfoldable pub pending_control_for : ℕ → Database → ℕ → ControlTaskKind → ℕ → Option ControlTask
pending_control_for now db user_id kind connection_id =
    find_where
      (λ t.
        if t.user_id == user_id
        then (if same_kind t.kind kind
            then (if same_connection connection_id t.connection_id then is_live now t else false)
            else false)
        else false)
      db.control_tasks

abbrev pub failure_alert : ControlTask → AdminNotification
failure_alert task = record {
  user_id = task.user_id;
  kind = "control_task_failed";
  dedupe_key = ("control_task_failed" ∷ [], task.id ∷ []);
  rule_id = none;
  connection_id = task.connection_id;
}

abbrev pub failed_status : ClassifiedError → ℕ → ControlTaskStatus
failed_status classified attempts =
    if leb 3 attempts
    then ControlTaskStatus.failed
    else if not (is_retryable classified.error_class)
    then ControlTaskStatus.failed
    else ControlTaskStatus.pending

-- The row after an exception.
abbrev pub failed_task : ClassifiedError → ControlTask → ControlTask
failed_task classified task = record task {
  attempt_count = task.attempt_count + 1;
  last_error_code = some classified.code;
  status = failed_status classified (task.attempt_count + 1);
}

-- The `except` block.
unfoldable pub after_exception : ClassifiedError → ControlTask → Database → Database
unfolding put_task notify
after_exception classified task db =
    let row = failed_task classified task in
    let alerted = notify (failure_alert row) (put_task row db) in
    if is_task_failed row.status then alerted else put_task row db

abbrev pub connection_row : Database → Option ℕ → Option TelegramConnection
connection_row db none = none
connection_row db (some connection_id) = find_where (λ c. c.id == connection_id) db.connections

-- `work` stands for what the services do for the task's kind: the database they leave, and the exception
-- that they raise, if they do. Nothing is rolled back then: the row is written in the same session.
module _ (u : Unicode)
    (work : ControlTask → TelegramConnection → Database → Option Exception × Database) where
  abbrev finish_task : ControlTask → Option Exception → Database → Database
  finish_task task none db = put_task (record task { status = ControlTaskStatus.succeeded }) db
  finish_task task (some exc) db = after_exception (classify_error u exc) task db

  abbrev run_task : ControlTask → Option TelegramConnection → Database → Database
  run_task task none db =
      put_task
        (record task {
          status = ControlTaskStatus.failed;
          last_error_code = some "connection_missing";
        })
        db
  run_task task (some connection) db =
      let (failure, after) = work task connection db in finish_task task failure after

  abbrev with_task : Option ControlTask → Database → Database
  with_task none db = db
  with_task (some task) db = run_task task (connection_row db task.connection_id) db

  unfoldable pub process_control_task : ℕ → Database → Database
  unfolding put_task after_exception
  process_control_task task_id db =
      with_task (find_where (λ t. t.id == task_id) db.control_tasks) db
