-- ===== src/Jobs/Cancellation.antt =====
-- Cancelling of repositories/jobs.py leaves nothing for a worker to pick up.
use insightxadsflow.Prelude.{ℕ, ◌≡◌, Bool, false, ◌==◌, count_where, if◌then◌else◌}
use insightxadsflow.Models.{ForwardingJob, Database, is_unfinished}
use insightxadsflow.Leases.Cancels.{cancel_rows_lem, cancel_rows_zero}
use insightxadsflow.Jobs.{job_table, cancel_pending_for_rule, cancel_pending_for_connection}

-- A connection's jobs that are pending or leased.
abbrev pub queued_on : ℕ → ForwardingJob → Bool
queued_on connection_id j =
    if j.connection_id == connection_id then is_unfinished j.work.status else false

abbrev pub queued_for_rule : ℕ → ForwardingJob → Bool
queued_for_rule rule_id j = if j.rule_id == rule_id then is_unfinished j.work.status else false

-- Cancelling for a connection returns the number of its jobs that were pending or leased, and leaves
-- none of them pending or leased.
pub cancel_for_connection_lem :
    (now connection_id : ℕ) (db : Database)
    → ((cancel_pending_for_connection now connection_id db).0
        ≡ count_where (queued_on connection_id) db.jobs)
      × (count_where
            (queued_on connection_id)
            (cancel_pending_for_connection now connection_id db).1.jobs
          ≡ 0)
unfolding cancel_pending_for_connection
cancel_for_connection_lem now connection_id db =
    cancel_rows_lem job_table now (λ j. j.connection_id == connection_id) db.jobs

pub cancel_for_rule_lem :
    (now rule_id : ℕ) (db : Database)
    → ((cancel_pending_for_rule now rule_id db).0 ≡ count_where (queued_for_rule rule_id) db.jobs)
      × (count_where (queued_for_rule rule_id) (cancel_pending_for_rule now rule_id db).1.jobs ≡ 0)
unfolding cancel_pending_for_rule
cancel_for_rule_lem now rule_id db =
    cancel_rows_lem job_table now (λ j. j.rule_id == rule_id) db.jobs

-- Cancelling one connection's jobs leaves another's as empty as they were.
pub cancel_for_connection_zero :
    (now connection_id other : ℕ) (db : Database)
    → count_where (queued_on other) db.jobs ≡ 0
    → count_where (queued_on other) (cancel_pending_for_connection now connection_id db).1.jobs ≡ 0
unfolding cancel_pending_for_connection
cancel_for_connection_zero now connection_id other db =
    cancel_rows_zero job_table now (λ j. j.connection_id == connection_id)
      (λ j. j.connection_id == other) db.jobs
