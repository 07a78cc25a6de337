-- ===== src/Delivery/Outcomes.antt =====
-- The row of the job after `execute_job` of services/delivery.py.
use insightxadsflow.Prelude.{
  min, min, ◌&&◌, Option-cases, ◌+◌, if◌then◌else◌, ◌*◌, leb, ℕ, ◌≡◌, refl, sym, ap, ◌∙◌, true,
  false, Option, some, none, arith, is_some, Bool-cases, inl, inr, ==-refl, ◌==◌,
  find_where-replace, find_where-update_where_some, String,
}
use insightxadsflow.Models.{
  DeliveryReceipt, Reply, put_connection, is_copy, log_send, put_chat, get_chat, is_rule_active,
  is_connected, TelegramChat, JobStatus, is_retryable, is_rule_paused, ForwardingRule,
  is_unfinished, second, is_paused_safety, put_rule, get_rule, AdminNotification, Settings,
  TelegramAdapter, TelegramConnection, ForwardingJob, Database, get_job, put_job,
}
use insightxadsflow.Text.{Unicode}
use insightxadsflow.Events.{to_ref, set_access, record_event, notify}
use insightxadsflow.Events.Frames.{notify_frame}
use insightxadsflow.Jobs
use insightxadsflow.Leases.{cancelled as row_cancelled, cancel_rows, finished, rescheduled}
use insightxadsflow.Reasons
use insightxadsflow.Delivery.{
  is_ambiguous, raised, returned, ambiguous, refusal, handle_stale_job, refuse, deliver,
  terminal_without_rule, unless_stale, guarded, execute_job, conclude, with_chats, revalidate,
  terminal, record_event, DeliveryOutcome,
}
use insightxadsflow.Delivery.Failure.{
  record_failure, handle_classified, wait_out, retry_or_give_up, wait_or_default, is_auth,
}
use insightxadsflow.Errors.{classify_error, ClassifiedError, is_rate_limit}
use insightxadsflow.Safety.{
  pause_dependents, connection_alert, stop_connection, pause_rule, pause_found_rule,
  pause_connection, note_failure, note_connection_failure,
}
use insightxadsflow.Users.{is_active}
use insightxadsflow.Delivery.{record_success}
use insightxadsflow.Events.{to_ref}

-- The job's row has the status that the outcome reports, and holds no lease.
pub record IsSettled (job_id : ℕ) (result : DeliveryOutcome × Database) : Type 0 where
  pub row : ForwardingJob
  pub found : get_job result.1 job_id ≡ some row
  pub status : row.work.status ≡ result.0.status
  pub no_owner : row.work.lease_owner ≡ none
  pub no_deadline : row.work.lease_expires_at ≡ none

pub get_job-put_job :
    (j : ForwardingJob) (db : Database)
    → is_some (get_job db j.id) ≡ true
    → get_job (put_job j db) j.id ≡ some j
unfolding get_job put_job
get_job-put_job j db h = find_where-replace (λ r. r.id == j.id) j (==-refl j.id) db.jobs h

pub get_job_of_jobs :
    (db db' : Database) (i : ℕ) → db'.jobs ≡ db.jobs → get_job db' i ≡ get_job db i
unfolding get_job
get_job_of_jobs db db' i e = rw e

-- A write of a settled row, and then nothing more of the table of jobs.
settle :
    {o : DeliveryOutcome} {after : Database} (i : ℕ) (j : ForwardingJob) (before : Database)
    → j.id ≡ i
    → is_some (get_job before i) ≡ true
    → after.jobs ≡ (put_job j before).jobs
    → j.work.status ≡ o.status
    → j.work.lease_owner ≡ none
    → j.work.lease_expires_at ≡ none
    → IsSettled i (o, after)
settle {o} {after} i j before same there jobs status owner deadline = record {
  row = j;
  found =
      get_job_of_jobs (put_job j before) after i jobs
      ∙ ap (get_job (put_job j before)) (sym same)
      ∙ get_job-put_job j before (rw same there);
  status = status;
  no_owner = owner;
  no_deadline = deadline;
}

jobs-notify : (a : AdminNotification) (db : Database) → (notify a db).jobs ≡ db.jobs
jobs-notify a db = let (n, e) = notify_frame a db in ap (λ (d : Database). d.jobs) e

jobs-pause_found_rule :
    (now : ℕ) (reason : String) (rule : Option ForwardingRule) (db : Database)
    → (pause_found_rule now reason rule db).jobs ≡ db.jobs
unfolding pause_found_rule record_event put_rule
jobs-pause_found_rule now reason none db = refl
jobs-pause_found_rule now reason (some rule) db = elim (Bool-cases (is_rule_paused rule.status)) [
  | inl e ↦ rw e
  | inr e ↦ rw e (jobs-notify _ _)
]

pub jobs-pause_rule :
    (now rule_id : ℕ) (reason : String) (db : Database)
    → (pause_rule now rule_id reason db).jobs ≡ db.jobs
unfolding pause_rule
jobs-pause_rule now rule_id reason db = jobs-pause_found_rule now reason (get_rule db rule_id) db

pub jobs-note_failure :
    (settings : Settings) (now rule_id : ℕ) (c : TelegramConnection) (db : Database)
    → (note_failure settings now rule_id c db).jobs ≡ db.jobs
unfolding note_failure note_connection_failure
jobs-note_failure settings now rule_id c db =
    ground (arith, jobs-pause_rule now rule_id Reasons.safety_pause (note_connection_failure c db))

-- A paused connection's jobs are cancelled, and none is deleted.
job_there-pause_connection :
    (now : ℕ) (c : TelegramConnection) (reason : String) (i : ℕ) (db : Database)
    → is_some (get_job (pause_connection now c reason db) i) ≡ is_some (get_job db i)
unfolding pause_connection stop_connection get_job pause_dependents cancel_rows
job_there-pause_connection now c reason i db = elim (Bool-cases (is_paused_safety c.status)) [
  | inl e ↦ rw e
  | inr e ↦
      rw (e, jobs-notify (connection_alert c reason) (stop_connection now c reason db))
        (find_where-update_where_some (λ j. j.id == i)
          (λ j. if j.connection_id == c.id then is_unfinished j.work.status else false)
          (λ j. record j { work = row_cancelled now j.work }) (λ j. refl) db.jobs)
]

module _ (settings : Settings) (uniform : ℕ → ℕ) (now : ℕ) (job : ForwardingJob)
    (connection : TelegramConnection) where
  module _ (rule_id destination_id max_attempts : ℕ) (db : Database)
      (there : is_some (get_job db job.id) ≡ true) (c : ClassifiedError) where
    wait_out-IsSettled :
        IsSettled job.id (wait_out settings uniform now job rule_id destination_id c db)
    unfolding wait_out record_failure record_event Jobs.reschedule rescheduled
    wait_out-IsSettled =
        elim (Bool-cases (
          leb (settings.flood_wait_pause_threshold_s * second) (wait_or_default c.retry_after_s))) [
            | inl e ↦ rw e (
                settle job.id _ (pause_rule now rule_id Reasons.flood_wait_pause db) refl
                  (ap is_some (get_job_of_jobs db _ job.id (jobs-pause_rule now rule_id _ db))
                    ∙ there)
                  refl refl refl refl)
            | inr e ↦ rw e (settle job.id _ db refl there refl refl refl refl)
          ]

    retry_or_give_up-IsSettled : IsSettled job.id (
        retry_or_give_up settings uniform now job rule_id destination_id c connection max_attempts
          db)
    unfolding retry_or_give_up record_failure record_event Jobs.reschedule rescheduled Jobs.finish
        finished
    retry_or_give_up-IsSettled = elim (Bool-cases (leb max_attempts (job.work.attempt_count + 1))) [
      | inl e ↦ rw e (
          settle job.id _ db refl there (jobs-note_failure settings now rule_id connection _) refl
            refl refl)
      | inr e ↦ rw e (settle job.id _ db refl there refl refl refl refl)
    ]

    pub handle_classified-IsSettled : IsSettled job.id (
        handle_classified settings uniform now job rule_id destination_id c connection max_attempts
          db)
    unfolding handle_classified record_failure record_event Jobs.finish finished
    handle_classified-IsSettled = elim (Bool-cases (is_auth c.error_class)) [
      | inl e ↦ rw e (
          settle job.id _ (pause_connection now connection Reasons.auth_pause db) refl
            (job_there-pause_connection now connection Reasons.auth_pause job.id db ∙ there) refl
            refl refl refl)
      | inr e ↦ rw e (elim (Bool-cases (is_retryable c.error_class)) [
        | inr f ↦ rw f (settle job.id _ db refl there refl refl refl refl)
        | inl f ↦ rw f (elim (Bool-cases (is_rate_limit c.error_class)) [
          | inl g ↦ rw g wait_out-IsSettled
          | inr g ↦ rw g retry_or_give_up-IsSettled
        ])
      ])
    ]

module _ (u : Unicode) (settings : Settings) (adapter : TelegramAdapter) (uniform : ℕ → ℕ) (now : ℕ)
    (job : ForwardingJob) (connection : TelegramConnection) where
  -- Each step of `execute_job`, on a database that has the job's row.
  module _ (db : Database) (there : is_some (get_job db job.id) ≡ true) where
    terminal-IsSettled :
        (after : Database) (status : JobStatus) (reason : String) (rule_id : ℕ)
        (destination : Option ℕ)
        → after.jobs ≡ db.jobs
        → IsSettled job.id (terminal now job status reason rule_id destination after)
    unfolding terminal record_event Jobs.finish finished
    terminal-IsSettled after status reason rule_id destination same =
        settle job.id _ after refl (ap is_some (get_job_of_jobs db after job.id same) ∙ there) refl
          refl refl refl

    conclude-IsSettled :
        (after : Database) (rule : ForwardingRule) (destination : TelegramChat)
        (reply : Reply DeliveryReceipt)
        → after.jobs ≡ db.jobs
        → IsSettled job.id
            (conclude u settings adapter uniform now job connection rule destination reply after)
    unfolding conclude record_success ambiguous record_event put_rule put_connection Jobs.finish
        finished
    conclude-IsSettled after rule destination (returned receipt) same =
        settle job.id _ after refl (ap is_some (get_job_of_jobs db after job.id same) ∙ there) refl
          refl refl refl
    conclude-IsSettled after rule destination (raised exc) same =
        let here = ap is_some (get_job_of_jobs db after job.id same) ∙ there in
        elim (Bool-cases (is_ambiguous exc.kind)) [
          | inl e ↦ rw e (settle job.id _ after refl here refl refl refl refl)
          | inr e ↦ rw e (
              handle_classified-IsSettled settings uniform now job connection rule.id destination.id
                (min rule.max_attempts settings.max_attempts) after here (classify_error u exc))
        ]

    revalidate-IsSettled :
        (rule : ForwardingRule) (source destination : TelegramChat)
        → IsSettled job.id
            (revalidate u settings adapter uniform now job connection rule source destination db)
    unfolding revalidate deliver refuse set_access put_chat log_send
    revalidate-IsSettled rule source destination =
        elim (Option-cases (refusal (adapter.check_destination_access (to_ref destination)))) [
          | inr (reason, e) ↦
              rw (e, revalidate)
                (terminal-IsSettled _ JobStatus.skipped reason rule.id (some destination.id) refl)
          | inl e ↦
              rw (e, revalidate)
                (elim (Bool-cases (is_copy rule.forward_mode && source.has_protected_content)) [
                  | inl f ↦ rw f (
                      terminal-IsSettled db JobStatus.skipped Reasons.protected_content rule.id
                        (some destination.id) refl)
                  | inr f ↦ rw f (conclude-IsSettled _ rule destination _ refl)
                ])
        ]

    unless_stale-IsSettled :
        (rule : ForwardingRule) (source destination : TelegramChat)
        → IsSettled job.id
            (unless_stale u settings adapter uniform now job connection rule source destination db)
    unfolding unless_stale
    unless_stale-IsSettled rule source destination =
        elim (Bool-cases (job.rule_version == rule.version)) [
          | inl e ↦ rw e (revalidate-IsSettled rule source destination)
          | inr e ↦ elim (Option-cases (handle_stale_job u job rule source destination.id)) [
            | inr (reason, o) ↦
                rw (e, o, unless_stale)
                  (terminal-IsSettled db JobStatus.skipped reason rule.id none refl)
            | inl o ↦ rw (e, o, unless_stale) (revalidate-IsSettled rule source destination)
          ]
        ]

    with_chats-IsSettled :
        (rule : ForwardingRule) (source destination : Option TelegramChat)
        → IsSettled job.id
            (with_chats u settings adapter uniform now job connection rule source destination db)
    unfolding with_chats
    with_chats-IsSettled rule (some source) (some destination) =
        unless_stale-IsSettled rule source destination
    with_chats-IsSettled rule (some source) none =
        terminal-IsSettled db JobStatus.skipped Reasons.destination_removed rule.id none refl
    with_chats-IsSettled rule none destination =
        terminal-IsSettled db JobStatus.skipped Reasons.destination_removed rule.id none refl

    guarded-IsSettled :
        (rule : ForwardingRule)
        → IsSettled job.id (guarded u settings adapter uniform now job connection rule db)
    unfolding guarded
    guarded-IsSettled rule = elim (Bool-cases (is_active db rule.user_id)) [
      | inr a ↦
          rw a (terminal-IsSettled db JobStatus.skipped Reasons.account_suspended rule.id none refl)
      | inl a ↦ rw a (elim (Bool-cases (is_connected connection.status)) [
        | inr b ↦ rw b (
            terminal-IsSettled db JobStatus.skipped Reasons.connection_disconnected rule.id none
              refl)
        | inl b ↦ rw b (elim (Bool-cases (is_rule_active rule.status)) [
          | inr c ↦
              rw c (terminal-IsSettled db JobStatus.skipped Reasons.rule_inactive rule.id none refl)
          | inl c ↦ rw c (
              with_chats-IsSettled rule (get_chat db job.source_chat_id)
                (get_chat db job.destination_chat_id))
        ])
      ])
    ]

    -- Executing a job whose row is in the table leaves that row with the status that the outcome
    -- reports, with no lease owner and no lease deadline, on every path of the function, whatever
    -- the checks and the adapter answer.
    pub execute_job-IsSettled :
        IsSettled job.id (execute_job u settings adapter uniform now job connection db)
    unfolding execute_job terminal_without_rule Jobs.finish finished
    execute_job-IsSettled = elim (Option-cases (get_rule db job.rule_id)) [
      | inl e ↦ rw (e, execute_job) (settle job.id _ db refl there refl refl refl refl)
      | inr (rule, e) ↦ rw (e, execute_job) (guarded-IsSettled rule)
    ]
