-- ===== src/Jobs.antt =====
-- repositories/jobs.py: the durable store of forwarding jobs. Each function takes the time that
-- `now()` reads, and returns what the source returns beside the new database.
pub mod Histories
pub mod Creation
pub mod Cancellation
use insightxadsflow.Prelude.{
  ℕ, ◌-◌, ◌*◌, ◌≡◌, refl, Bool, true, false, not, List, [], ◌∷◌, ◌++◌, Option, some, none, ◌==◌,
  if◌then◌else◌, any, count_where, delete_where, leb, ltb, String,
}
use insightxadsflow.Models.{
  Text, Work, ForwardingJob, JobStatus, Database, is_leased, is_terminal, is_serious_failure,
  second,
}
use insightxadsflow.Text.{same_text}
use insightxadsflow.Leases
use insightxadsflow.Leases.{
  Leased, mem_id, claim_rows, renew_row, reclaim_rows, cancel_rows, requeue_rows, finished,
  rescheduled,
}

abbrev pub job_table : Leased ForwardingJob
job_table = record {
  id = λ j. j.id;
  work = λ j. j.work;
  set_work = λ j w. record j { work = w };
  work-set_work = λ j w. refl;
  id-set_work = λ j w. refl;
  set_work-set_work = λ j v w. refl;
  set_work-work = λ j. refl;
}

-- What the caller of `create_if_absent` gives, with the id that `uuid4` draws.
pub record NewJob : Type 0 where
  pub id : ℕ
  pub rule_id : ℕ
  pub rule_version : ℕ
  pub connection_id : ℕ
  pub source_chat_id : ℕ
  pub source_message_ids : List ℕ
  pub destination_chat_id : ℕ
  pub idempotency_key : Text
  pub mtproto_random_id : Option ℕ
  pub not_before : ℕ

unfoldable pub pending_job : ℕ → NewJob → ForwardingJob
pending_job now n = record {
  id = n.id;
  rule_id = n.rule_id;
  rule_version = n.rule_version;
  connection_id = n.connection_id;
  source_chat_id = n.source_chat_id;
  source_message_ids = n.source_message_ids;
  destination_chat_id = n.destination_chat_id;
  idempotency_key = n.idempotency_key;
  mtproto_random_id = n.mtproto_random_id;
  work = record {
    status = JobStatus.pending;
    attempt_count = 0;
    not_before = n.not_before;
    lease_owner = none;
    lease_expires_at = none;
    destination_message_id = none;
    last_error_class = none;
    last_error_code = none;
    updated_at = now;
  };
}

unfoldable pub has_key : Text → List ForwardingJob → Bool
has_key key jobs = any (λ j. same_text j.idempotency_key key) jobs

-- `ON CONFLICT (idempotency_key) DO NOTHING RETURNING id`
unfoldable pub create_if_absent : ℕ → NewJob → Database → Option ForwardingJob × Database
unfolding has_key pending_job
create_if_absent now n db =
    if has_key n.idempotency_key db.jobs
    then (none, db)
    else (some (pending_job now n), record db { jobs = db.jobs ++ pending_job now n ∷ [] })

unfoldable pub claim_batch :
    (ℕ → Bool) → String → ℕ → ℕ → ℕ → Database → List ForwardingJob × Database
claim_batch locked owner limit lease_seconds now db =
    let (claimed, jobs) =
      claim_rows job_table locked owner limit lease_seconds now (λ _. true) db.jobs in
    (claimed, record db { jobs = jobs })

unfoldable pub heartbeat : ℕ → String → ℕ → ℕ → Database → Database
heartbeat job_id owner lease_seconds now db = record db {
  jobs = renew_row job_table job_id owner lease_seconds now db.jobs;
}

-- `limit` is 200 unless it is given.
unfoldable pub reclaim_expired : ℕ → ℕ → Database → ℕ × Database
reclaim_expired limit now db =
    let (n, jobs) = reclaim_rows job_table limit now db.jobs in (n, record db { jobs = jobs })

unfoldable pub finish :
    ℕ → JobStatus → Option ℕ → Option String → Option String → ForwardingJob → ForwardingJob
finish now status destination_message_id error_class error_code job = record job {
  work = finished now status destination_message_id error_class error_code job.work;
}

-- `delay` in microseconds
unfoldable pub reschedule : ℕ → ℕ → String → String → ForwardingJob → ForwardingJob
reschedule now delay error_class error_code job = record job {
  work = rescheduled now delay error_class error_code job.work;
}

unfoldable pub cancel_pending_for_rule : ℕ → ℕ → Database → ℕ × Database
cancel_pending_for_rule now rule_id db =
    let (n, jobs) = cancel_rows job_table now (λ j. j.rule_id == rule_id) db.jobs in
    (n, record db { jobs = jobs })

unfoldable pub cancel_pending_for_connection : ℕ → ℕ → Database → ℕ × Database
cancel_pending_for_connection now connection_id db =
    let (n, jobs) = cancel_rows job_table now (λ j. j.connection_id == connection_id) db.jobs in
    (n, record db { jobs = jobs })

unfoldable pub requeue_failed : ℕ → ℕ → Database → ℕ × Database
requeue_failed now rule_id db =
    let (n, jobs) = requeue_rows job_table now (λ j. j.rule_id == rule_id) db.jobs in
    (n, record db { jobs = jobs })

unfoldable pub in_flight_count : Database → ℕ → List ℕ → ℕ
in_flight_count db connection_id exclude_ids =
    count_where
      (λ j.
        if j.connection_id == connection_id
        then (if is_leased j.work.status then not (mem_id j.id exclude_ids) else false)
        else false)
      db.jobs

-- `window_minutes` is 60 unless it is given.
unfoldable pub count_recent_failures : Database → ℕ → ℕ → ℕ → ℕ
count_recent_failures db now rule_id window_minutes =
    count_where
      (λ j.
        if j.rule_id == rule_id
        then (if leb (now - window_minutes * 60 * second) j.work.updated_at
            then is_serious_failure j.work.status
            else false)
        else false)
      db.jobs

unfoldable pub purge_terminal : ℕ → ℕ → Database → ℕ × Database
purge_terminal now older_than_days db =
    let hit = λ (j : ForwardingJob).
      if ltb j.work.updated_at (now - older_than_days * 86400 * second)
      then is_terminal j.work.status
      else false in
    (count_where hit db.jobs, record db { jobs = delete_where hit db.jobs })
