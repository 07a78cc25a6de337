-- ===== src/Safety/Stopped.antt =====
-- What `pause_connection` of services/safety.py leaves behind.
use insightxadsflow.Prelude.{
  ℕ, ◌≡◌, Bool, false, arith, count_where, if◌then◌else◌, count_where-update_where_zero, String,
}
use insightxadsflow.Models.{
  is_paused_safety, TelegramConnection, BroadcastTarget, AdminNotification, Database, is_unfinished,
}
use insightxadsflow.Leases.Cancels.{cancel_rows_lem}
use insightxadsflow.Jobs.Cancellation.{queued_on, cancel_for_connection_lem}
use insightxadsflow.Jobs
use insightxadsflow.Broadcasts.{target_table, runs_on}
use insightxadsflow.Events.{notify}
use insightxadsflow.Safety.{
  depends_on, sends_on, paused_rule, paused_broadcast, connection_alert, pause_dependents,
  pause_connection, stop_connection,
}

abbrev pub queued_target_on : Database → ℕ → BroadcastTarget → Bool
queued_target_on db connection_id t =
    if runs_on db connection_id t then is_unfinished t.work.status else false

-- Nothing of a connection runs, and nothing is left for a worker to pick up.
pub record IsStopped (connection_id : ℕ) (db : Database) : Type 0 where
  pub no_rule : count_where (depends_on connection_id) db.rules ≡ 0
  pub no_broadcast : count_where (sends_on connection_id) db.broadcasts ≡ 0
  pub no_job : count_where (queued_on connection_id) db.jobs ≡ 0
  pub no_target : count_where (queued_target_on db connection_id) db.targets ≡ 0

-- An alert touches none of the tables.
notify-IsStopped :
    (a : AdminNotification) (i : ℕ) (db : Database) → IsStopped i db → IsStopped i (notify a db)
unfolding notify runs_on
notify-IsStopped a i db h = ground (arith, h.no_rule, h.no_broadcast, h.no_job, h.no_target)

stop_connection-IsStopped :
    (now : ℕ) (c : TelegramConnection) (reason : String) (db : Database)
    → IsStopped c.id (stop_connection now c reason db)
unfolding stop_connection runs_on
stop_connection-IsStopped now c reason db =
    let db1 = pause_dependents now c reason db in
    let db2 = (Jobs.cancel_pending_for_connection now c.id db1).1 in
    record {
      no_rule =
          count_where-update_where_zero (depends_on c.id) (depends_on c.id) (paused_rule reason)
            (λ r h. ground arith) (λ r h. h) db.rules;
      no_broadcast =
          count_where-update_where_zero (sends_on c.id) (sends_on c.id) (paused_broadcast reason)
            (λ b h. ground arith) (λ b h. h) db.broadcasts;
      no_job = (cancel_for_connection_lem now c.id db1).1;
      no_target = (cancel_rows_lem target_table now (runs_on db2 c.id) db.targets).1;
    }

-- Pausing a connection that was not paused stops everything that runs on it: afterwards no rule of
-- it is active, no broadcast of it is sending, and none of its forwarding jobs and broadcast targets
-- is pending or leased.
pub pause_connection-IsStopped :
    (now : ℕ) (c : TelegramConnection) (reason : String) (db : Database)
    → is_paused_safety c.status ≡ false
    → IsStopped c.id (pause_connection now c reason db)
unfolding pause_connection
pause_connection-IsStopped now c reason db h = rw h (
    notify-IsStopped (connection_alert c reason) c.id (stop_connection now c reason db)
      (stop_connection-IsStopped now c reason db))
