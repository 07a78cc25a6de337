-- ===== src/Jobs/Histories.antt =====
-- Any interleaving of the repository's operations on the job table, as a list of operations.
use insightxadsflow.Prelude.{ℕ, ◌≡◌, Bool, true, List, [], ◌∷◌, some, String}
use insightxadsflow.Models.{ForwardingJob, Database, is_succeeded, get_job}
use insightxadsflow.Leases.Tables.{
  TableStep, IsSound, TableStep-IsSound, TableStep-succeeded, claim_rows-TableStep,
  renew_row-TableStep, reclaim_rows-TableStep, cancel_rows-TableStep, requeue_rows-TableStep,
}
use insightxadsflow.Jobs.{
  job_table, claim_batch, heartbeat, reclaim_expired, cancel_pending_for_rule,
  cancel_pending_for_connection, requeue_failed,
}

-- One call, with its arguments and the time at which it runs.
pub data Operation : Type 0 where
  claim : (ℕ → Bool) → String → ℕ → ℕ → ℕ → Operation
  beat : ℕ → String → ℕ → ℕ → Operation
  reclaim : ℕ → ℕ → Operation
  cancel_rule cancel_connection requeue : ℕ → ℕ → Operation

unfoldable pub perform : Operation → Database → Database
unfolding claim_batch heartbeat reclaim_expired cancel_pending_for_rule
    cancel_pending_for_connection requeue_failed
perform (claim locked owner limit lease_seconds now) db =
    (claim_batch locked owner limit lease_seconds now db).1
perform (beat job_id owner lease_seconds now) db = heartbeat job_id owner lease_seconds now db
perform (reclaim limit now) db = (reclaim_expired limit now db).1
perform (cancel_rule now rule_id) db = (cancel_pending_for_rule now rule_id db).1
perform (cancel_connection now connection_id) db =
    (cancel_pending_for_connection now connection_id db).1
perform (requeue now rule_id) db = (requeue_failed now rule_id db).1

unfoldable pub perform_all : List Operation → Database → Database
unfolding perform
perform_all [] db = db
perform_all (o ∷ os) db = perform_all os (perform o db)

perform-TableStep :
    (o : Operation) (db : Database)
    → IsSound job_table db.jobs
    → TableStep job_table db.jobs (perform o db).jobs
unfolding perform
perform-TableStep (claim locked owner limit s now) db h =
    claim_rows-TableStep job_table locked owner limit s now (λ _. true) db.jobs h.unique
perform-TableStep (beat i owner s now) db h = renew_row-TableStep job_table i owner s now db.jobs
perform-TableStep (reclaim limit now) db h = reclaim_rows-TableStep job_table limit now db.jobs
perform-TableStep (cancel_rule now i) db h = cancel_rows-TableStep job_table now _ db.jobs
perform-TableStep (cancel_connection now i) db h = cancel_rows-TableStep job_table now _ db.jobs
perform-TableStep (requeue now i) db h = requeue_rows-TableStep job_table now _ db.jobs

-- From a job table with distinct ids, in which a job has an owner and a deadline exactly while it
-- is leased, every sequence of claims, heartbeats, reclaims, cancellations and requeues leads to
-- such a table.
pub history-IsSound :
    (os : List Operation) (db : Database)
    → IsSound job_table db.jobs
    → IsSound job_table (perform_all os db).jobs
unfolding perform_all
history-IsSound [] db h = h
history-IsSound (o ∷ os) db h =
    history-IsSound os (perform o db)
      (TableStep-IsSound job_table db.jobs (perform o db).jobs (perform-TableStep o db h) h)

-- In a job table with distinct ids, in which a job has an owner and a deadline exactly while it is
-- leased, a job that has succeeded is left exactly as it is, every column of it, by every sequence of
-- claims, heartbeats, reclaims, cancellations and requeues.
pub history-succeeded :
    (os : List Operation) (db : Database) (i : ℕ) {j : ForwardingJob}
    → IsSound job_table db.jobs
    → get_job db i ≡ some j
    → is_succeeded j.work.status ≡ true
    → get_job (perform_all os db) i ≡ some j
unfolding perform_all get_job
history-succeeded [] db i h f d = f
history-succeeded (o ∷ os) db i h f d =
    let s = perform-TableStep o db h in
    history-succeeded os (perform o db) i
      (TableStep-IsSound job_table db.jobs (perform o db).jobs s h)
      (TableStep-succeeded job_table i db.jobs (perform o db).jobs s h.exact f d) d
