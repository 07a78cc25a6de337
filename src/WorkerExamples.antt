-- ===== src/WorkerExamples.antt =====
-- The theorems on the worker and the scheduler at work on the small database.
use insightxadsflow.Prelude.{
  ℕ, ◌+◌, ◌*◌, ◌≤◌, ◌≡◌, ◌⊎◌, refl, Bool, true, false, [], ◌∷◌, Option, some, none, map, arith,
  count_where, ◌==◌, length,
}
use insightxadsflow.Models.{
  default_settings, Database, TelegramConnection, ControlTask, ControlTaskKind, Exception,
  Broadcast, BroadcastStatus, get_broadcast, JobStatus,
}
use insightxadsflow.Text.{ascii}
use insightxadsflow.Errors.{classify_error}
use insightxadsflow.Jobs
use insightxadsflow.Jobs.{job_table}
use insightxadsflow.Broadcasts
use insightxadsflow.Broadcasts.{target_table}
use insightxadsflow.Posting.{validate}
use insightxadsflow.Worker.{claim_within_limits, claim_broadcasts_within_limits}
use insightxadsflow.Worker.Limits.{claim_within_limits_bounded}
use insightxadsflow.Worker.SharedLimits.{
  connection_of_target, claim_broadcasts_within_limits_bounded,
}
use insightxadsflow.Worker.Control.{new_task, process_control_task, is_task_expired}
use insightxadsflow.Worker.Failures.{IsReported, process_control_task-IsReported}
use insightxadsflow.Scheduler.{reclaim_passes, start_scheduled}
use insightxadsflow.Scheduler.Reclaiming.{expired, reclaim_passes_finish}
use insightxadsflow.Scheduler.Starting.{IsHandled, start_scheduled_lem}
use insightxadsflow.Samples.{account, ad, db, failure, target_of_ad, work_of}

abbrev free : ℕ → Bool
free i = false

claim_within_limits_example :
    (count_where
        (λ j. j.connection_id == 5)
        (claim_within_limits default_settings free "worker" 4 60 db).0
      ≡ 0)
    ⊎ (Jobs.in_flight_count
            (Jobs.claim_batch free "worker" 4 120 60 db).1
            5
            (map (λ j. j.id) (Jobs.claim_batch free "worker" 4 120 60 db).0)
          + count_where
              (λ j. j.connection_id == 5)
              (claim_within_limits default_settings free "worker" 4 60 db).0
        ≤ 2)
claim_within_limits_example = claim_within_limits_bounded default_settings free "worker" 4 60 db 5

abbrev ready_db : Database
ready_db = record db { targets = target_of_ad 200 (work_of JobStatus.pending) ∷ [] }

claim_broadcasts_example :
    (count_where
        (λ t.
          connection_of_target (Broadcasts.claim_batch free "worker" 4 120 60 ready_db).1 t == 5)
        (claim_broadcasts_within_limits default_settings free "worker" 4 60 ready_db).0
      ≡ 0)
    ⊎ (Jobs.in_flight_count (Broadcasts.claim_batch free "worker" 4 120 60 ready_db).1 5 []
          + Broadcasts.in_flight_count
              (Broadcasts.claim_batch free "worker" 4 120 60 ready_db).1
              5
              (map (λ t. t.id) (Broadcasts.claim_batch free "worker" 4 120 60 ready_db).0)
          + count_where
              (λ t.
                connection_of_target (Broadcasts.claim_batch free "worker" 4 120 60 ready_db).1 t
                == 5)
              (claim_broadcasts_within_limits default_settings free "worker" 4 60 ready_db).0
        ≤ 8)
claim_broadcasts_example =
    claim_broadcasts_within_limits_bounded default_settings free "worker" 4 60 ready_db 5

abbrev sync : ControlTask
sync = new_task 0 300 1 ControlTaskKind.sync_chats (some 5) none none false

abbrev sync_db : Database
sync_db = record db { control_tasks = sync ∷ [] }

abbrev breaks : ControlTask → TelegramConnection → Database → Option Exception × Database
breaks task connection db = (some (failure "ConnectionError"), db)

process_control_task_example :
    IsReported
      (classify_error ascii (failure "ConnectionError"))
      sync
      (process_control_task ascii breaks 300 sync_db)
process_control_task_example =
    process_control_task-IsReported ascii breaks sync_db sync_db sync account
      (failure "ConnectionError") refl refl refl refl

abbrev after_passes : Database
after_passes = reclaim_passes 1 60 db

reclaim_passes_example :
    (count_where (expired job_table 60) after_passes.jobs ≡ 0)
    × (count_where (expired target_table 60) after_passes.targets ≡ 0)
    × (count_where (is_task_expired 60) after_passes.control_tasks ≡ 0)
reclaim_passes_example = reclaim_passes_finish 0 60 db few_jobs few_targets
  where
    few_jobs : count_where (expired job_table 60) db.jobs ≤ 1 * 200
    few_jobs = ground arith

    few_targets : count_where (expired target_table 60) db.targets ≤ 1 * 200
    few_targets = ground arith

-- An ad with nothing in it whose time has come.
abbrev blank_ad : Broadcast
blank_ad = record ad { status = BroadcastStatus.scheduled; body_text = []; scheduled_for = some 5 }

abbrev blank_db : Database
blank_db = record db { broadcasts = blank_ad ∷ [] }

blank_found : get_broadcast blank_db 8 ≡ some blank_ad
unfolding get_broadcast
blank_found = refl

start_scheduled_example :
    IsHandled true
      (validate ascii default_settings blank_ad (length (Broadcasts.target_chat_ids blank_db 8)))
      9
      blank_ad
      blank_db
      (start_scheduled ascii default_settings 9 8 blank_db)
start_scheduled_example = start_scheduled_lem ascii default_settings 9 blank_db blank_ad blank_found
