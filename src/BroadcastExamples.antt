-- ===== src/BroadcastExamples.antt =====
-- The theorems on broadcasts at work on the small database.
use insightxadsflow.Prelude.{
  none, order_by, ◌+◌, count_where, ◌≡◌, ◌≤◌, ◌+◌, ◌⊎◌, refl, true, false, [], ◌∷◌, some, All,
  length,
}
use insightxadsflow.Models.{
  Broadcast, BroadcastStatus, Database, get_broadcast, default_settings, default_settings,
  JobStatus, get_target,
}
use insightxadsflow.Text.{strip, ascii}
use insightxadsflow.Leases.{finished, claim_rows, is_due}
use insightxadsflow.Leases.Tables.{IsSound}
use insightxadsflow.Broadcasts
use insightxadsflow.Broadcasts.{feeds, target_table, stagger, set_not_before, wait_is_over}
use insightxadsflow.Broadcasts.Staggering.{target_of, timed, stagger_lem}
use insightxadsflow.Broadcasts.Resuming.{is_resumable, resume_flood_paused_lem}
use insightxadsflow.Reasons
use insightxadsflow.Posting.{execute_target, retry_unfinished}
use insightxadsflow.Posting.Guards
use insightxadsflow.Posting.Retrying.{retry_unfinished_succeeded}
use insightxadsflow.Broadcasts.Claiming.{IsHandedOut, claim_batch_lem}
use insightxadsflow.Broadcasts.Targets.{is_target}
use insightxadsflow.Broadcasts.Dropping.{unless_droppable, drop_chats_lem}
use insightxadsflow.Broadcasts.Editing.{history_of, row_for, replace_targets_keeps}
use insightxadsflow.Samples.{
  unsure, account, work_of, leased_work, ad, target_of_ad, db, willing, half,
}

target_posts_guarded_example :
    Guards.PostsAtMostOnce ascii default_settings willing half 9
      (target_of_ad 202 leased_work)
      account
      db
      (execute_target ascii default_settings willing half 9
        (target_of_ad 202 leased_work)
        account
        db).1.sends
target_posts_guarded_example =
    Guards.execute_target_posts_guarded ascii default_settings willing half 9
      (target_of_ad 202 leased_work) account db

targets-IsSound : IsSound target_table db.targets
targets-IsSound = record {
  unique = ((refl, tt), (tt, tt));
  exact =
      (record { owner = refl; deadline = refl }, (record { owner = refl; deadline = refl }, tt));
}

retry_unfinished_example :
    get_target (retry_unfinished 9 ad db).1 200
    ≡ some (target_of_ad 200 (work_of JobStatus.succeeded))
unfolding get_target
retry_unfinished_example = retry_unfinished_succeeded 9 ad db 200 targets-IsSound refl refl

stagger_example :
    target_of 201 (stagger (set_not_before 9) 9 2000 0 (200 ∷ 201 ∷ []) db.targets)
    ≡ timed (set_not_before 9) 9 2000 0 (some 1) (target_of 201 db.targets)
stagger_example =
    stagger_lem (set_not_before 9) 9 2000 0 (200 ∷ 201 ∷ []) db.targets 201 (refl, (refl, tt))

-- An ad that waits out a flood, and a target of it that is due.
abbrev waiting_ad : Broadcast
waiting_ad = record ad {
  status = BroadcastStatus.paused;
  paused_reason_code = some Reasons.broadcast_flood_wait;
}

abbrev waiting_db : Database
waiting_db = record db {
  broadcasts = waiting_ad ∷ [];
  targets = target_of_ad 201 (work_of JobStatus.pending) ∷ [];
}

resume_flood_paused_example :
    let (n, after) = Broadcasts.resume_flood_paused 9 waiting_db in
    (n ≡ count_where (is_resumable 9 waiting_db) waiting_db.broadcasts)
    × (after.targets ≡ waiting_db.targets)
    × (((is_resumable 9 waiting_db waiting_ad ≡ true)
          × (get_broadcast after 8
              ≡ some (record waiting_ad {
                status = BroadcastStatus.sending;
                paused_reason_code = none;
              })))
        ⊎ ((is_resumable 9 waiting_db waiting_ad ≡ false)
            × (get_broadcast after 8 ≡ some waiting_ad)))
unfolding get_broadcast
resume_flood_paused_example = resume_flood_paused_lem 9 waiting_db 8 waiting_ad refl

abbrev ready_db : Database
ready_db = record db { targets = target_of_ad 201 (work_of JobStatus.pending) ∷ [] }

claim_batch_example :
    (length (Broadcasts.claim_batch (λ _. false) "w" 10 120 9 ready_db).0 ≤ 10)
    × All
        (IsHandedOut (λ _. false) "w" 10 120 9 ready_db)
        (Broadcasts.claim_batch (λ _. false) "w" 10 120 9 ready_db).0
claim_batch_example = claim_batch_lem (λ _. false) "w" 10 120 9 ready_db (tt, tt)

-- The batch of the example is not empty.
claims_one : length (Broadcasts.claim_batch (λ _. false) "w" 10 120 9 ready_db).0 ≡ 1
unfolding Broadcasts.claim_batch claim_rows order_by is_due
claims_one = refl

drop_chats_example :
    let (n, after) = Broadcasts.drop_chats 1 (20 ∷ []) db in
    (n + length after.targets ≡ length db.targets)
    × (get_target after 201 ≡ unless_droppable db 1 (20 ∷ []) (get_target db 201))
drop_chats_example = drop_chats_lem 1 (20 ∷ []) db 201 targets-IsSound.unique

replace_targets_example :
    history_of
      (row_for 8 20 (Broadcasts.replace_targets (λ n. 300 + n) 9 ad (30 ∷ 20 ∷ []) db).1.targets)
    ≡ some (200, work_of JobStatus.succeeded)
unfolding is_target
replace_targets_example = replace_targets_keeps (λ n. 300 + n) 9 ad (30 ∷ 20 ∷ []) db 20 refl refl

-- The last target of a round ends without an answer: nothing is left to do, and the broadcast is
-- still sending.
unsettled :
    let after =
      (execute_target ascii default_settings unsure half 9
        (target_of_ad 201 leased_work)
        account
        db).1 in
    (Broadcasts.remaining_count after 8 ≡ 0) × (get_broadcast after 8 ≡ some ad)
unfolding execute_target Broadcasts.remaining_count get_broadcast strip finished
unsettled = (refl, refl)
