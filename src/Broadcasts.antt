-- ===== src/Broadcasts.antt =====
-- repositories/broadcasts.py: the durable store of broadcasts and of their per-group targets.
pub mod Targets
pub mod Staggering
pub mod Resuming
pub mod Dropping
pub mod Editing
pub mod Claiming
unfoldable pub use Targets.{replace_targets}
use text.Mathlib.Text.{◌==◌ as str_eq}
use insightxadsflow.Prelude.{
  ℕ, zero, suc, ◌+◌, ◌*◌, ◌≡◌, refl, Bool, true, false, not, List, [], ◌∷◌, ◌++◌, Option, some,
  none, ◌==◌, map, if◌then◌else◌, any, select, take, length, count_where, update_where,
  delete_where, order_by, leb, ltb, String, min, is_some,
}
use insightxadsflow.Models.{
  Text, Work, Broadcast, BroadcastStatus, BroadcastMedia, BroadcastTarget, JobStatus, Database,
  is_leased, is_pending, is_succeeded, is_sending, is_broadcast_paused, is_scheduled, is_unfinished,
  second, millisecond, put_broadcast,
}
use insightxadsflow.Reasons
use insightxadsflow.Leases
use insightxadsflow.Leases.{
  Leased, mem_id, claim_rows, renew_row, reclaim_rows, cancel_rows, requeue_rows, finished,
  rescheduled, reopened,
}

abbrev pub target_table : Leased BroadcastTarget
target_table = record {
  id = λ t. t.id;
  work = λ t. t.work;
  set_work = λ t w. record t { work = w };
  work-set_work = λ t w. refl;
  id-set_work = λ t w. refl;
  set_work-set_work = λ t v w. refl;
  set_work-work = λ t. refl;
}

-- `target_chat_ids`
unfoldable pub target_chat_ids : Database → ℕ → List ℕ
target_chat_ids db broadcast_id =
    map (λ t. t.chat_id)
      (order_by (λ t. t.position) (select (λ t. t.broadcast_id == broadcast_id) db.targets))

-- The loop over `enumerate(targets)` that gives each target its time, `delay_ms` apart.
unfoldable pub stagger :
    (ℕ → Work → Work) → ℕ → ℕ → ℕ → List ℕ → List BroadcastTarget → List BroadcastTarget
stagger write base delay_ms offset [] targets = targets
stagger write base delay_ms offset (i ∷ ids) targets =
    stagger write base delay_ms (offset + 1) ids (
      update_where (λ t. t.id == i)
        (λ t. record t { work = write (base + delay_ms * offset * millisecond) t.work }) targets)

unfoldable pub set_not_before : ℕ → ℕ → Work → Work
set_not_before now not_before w = record w { not_before = not_before; updated_at = now }

-- The ids of a broadcast's pending targets, by position.
unfoldable pub pending_ids : Database → ℕ → List ℕ
pending_ids db broadcast_id =
    map (λ t. t.id)
      (order_by (λ t. t.position)
        (select (λ t. if t.broadcast_id == broadcast_id then is_pending t.work.status else false)
          db.targets))

abbrev or_now : Option ℕ → ℕ → ℕ
or_now none now = now
or_now (some start_at) now = start_at

unfoldable pub schedule_targets : ℕ → Broadcast → Option ℕ → Database → ℕ × Database
unfolding stagger set_not_before pending_ids
schedule_targets now broadcast start_at db =
    let ids = pending_ids db broadcast.id in
    (
      length ids,
      record db {
        targets =
            stagger (set_not_before now) (or_now start_at now) broadcast.delay_ms 0 ids db.targets;
      },
    )

-- A broadcast of this id that is sending.
unfoldable pub feeds : Database → ℕ → Bool
feeds db broadcast_id =
    any (λ b. if b.id == broadcast_id then is_sending b.status else false) db.broadcasts

unfoldable pub claim_batch :
    (ℕ → Bool) → String → ℕ → ℕ → ℕ → Database → List BroadcastTarget × Database
unfolding feeds
claim_batch locked owner limit lease_seconds now db =
    let (claimed, targets) =
      claim_rows target_table locked owner limit lease_seconds now (λ t. feeds db t.broadcast_id)
        db.targets in
    (claimed, record db { targets = targets })

unfoldable pub heartbeat : ℕ → String → ℕ → ℕ → Database → Database
heartbeat target_id owner lease_seconds now db = record db {
  targets = renew_row target_table target_id owner lease_seconds now db.targets;
}

abbrev pub due : ℕ → Option ℕ → Bool
due now none = false
due now (some t) = leb t now

abbrev scheduled_at : Option ℕ → ℕ
scheduled_at none = 0
scheduled_at (some t) = t

-- `limit` is 20 unless it is given.
unfoldable pub due_scheduled : Database → ℕ → ℕ → List Broadcast
due_scheduled db limit now = take limit (
    order_by (λ b. scheduled_at b.scheduled_for)
      (select (λ b. if is_scheduled b.status then due now b.scheduled_for else false)
        db.broadcasts))

abbrev pub is_flood_code : Option String → Bool
is_flood_code none = false
is_flood_code (some code) =
    if str_eq code Reasons.broadcast_flood_wait then true else str_eq code Reasons.flood_wait_pause

-- `min(not_before)` over the pending targets of a broadcast
unfoldable pub earliest : ℕ → List BroadcastTarget → Option ℕ
earliest broadcast_id [] = none
earliest broadcast_id (t ∷ ts) =
    let rest = earliest broadcast_id ts in
    if t.broadcast_id == broadcast_id
    then (if is_pending t.work.status
        then some (elim rest [ none ↦ t.work.not_before | some m ↦ min t.work.not_before m ])
        else rest)
    else rest

unfoldable pub wait_is_over : ℕ → Database → Broadcast → Bool
unfolding earliest
wait_is_over now db b =
    if is_broadcast_paused b.status
    then (if is_flood_code b.paused_reason_code then due now (earliest b.id db.targets) else false)
    else false

unfoldable pub resume_flood_paused : ℕ → Database → ℕ × Database
unfolding wait_is_over
resume_flood_paused now db = (
  count_where (wait_is_over now db) db.broadcasts,
  record db {
    broadcasts =
        update_where (wait_is_over now db)
          (λ b. record b { status = BroadcastStatus.sending; paused_reason_code = none })
          db.broadcasts;
  },
)

unfoldable pub reclaim_expired : ℕ → ℕ → Database → ℕ × Database
reclaim_expired limit now db =
    let (n, targets) = reclaim_rows target_table limit now db.targets in
    (n, record db { targets = targets })

unfoldable pub finish :
    ℕ → JobStatus → Option ℕ → Option String → Option String → BroadcastTarget → BroadcastTarget
finish now status destination_message_id error_class error_code target = record target {
  work = finished now status destination_message_id error_class error_code target.work;
}

unfoldable pub reschedule : ℕ → ℕ → String → String → BroadcastTarget → BroadcastTarget
reschedule now delay error_class error_code target = record target {
  work = rescheduled now delay error_class error_code target.work;
}

-- The ids of all of a broadcast's targets, by position.
unfoldable pub target_ids : Database → ℕ → List ℕ
target_ids db broadcast_id =
    map (λ t. t.id)
      (order_by (λ t. t.position) (select (λ t. t.broadcast_id == broadcast_id) db.targets))

unfoldable pub reopen_for_repeat : ℕ → Broadcast → ℕ → Database → ℕ × Database
unfolding stagger target_ids
reopen_for_repeat now broadcast start_at db =
    let ids = target_ids db broadcast.id in
    (
      length ids,
      record db { targets = stagger (reopened now) start_at broadcast.delay_ms 0 ids db.targets },
    )

-- The count of one status; a status that the query does not return reads as 0.
unfoldable pub status_count : Database → ℕ → (JobStatus → Bool) → ℕ
status_count db broadcast_id is_status =
    count_where (λ t. if t.broadcast_id == broadcast_id then is_status t.work.status else false)
      db.targets

unfoldable pub remaining_count : Database → ℕ → ℕ
remaining_count db broadcast_id =
    count_where (λ t. if t.broadcast_id == broadcast_id then is_unfinished t.work.status else false)
      db.targets

unfoldable pub cancel_pending : ℕ → ℕ → Database → ℕ × Database
cancel_pending now broadcast_id db =
    let (n, targets) =
      cancel_rows target_table now (λ t. t.broadcast_id == broadcast_id) db.targets in
    (n, record db { targets = targets })

-- `broadcast_id IN (SELECT id WHERE connection_id = ...)`
unfoldable pub runs_on : Database → ℕ → BroadcastTarget → Bool
runs_on db connection_id t =
    any (λ b. if b.id == t.broadcast_id then b.connection_id == connection_id else false)
      db.broadcasts

unfoldable pub cancel_pending_for_connection : ℕ → ℕ → Database → ℕ × Database
unfolding runs_on
cancel_pending_for_connection now connection_id db =
    let (n, targets) = cancel_rows target_table now (runs_on db connection_id) db.targets in
    (n, record db { targets = targets })

unfoldable pub requeue_failed : ℕ → ℕ → Database → ℕ × Database
requeue_failed now broadcast_id db =
    let (n, targets) =
      requeue_rows target_table now (λ t. t.broadcast_id == broadcast_id) db.targets in
    (n, record db { targets = targets })

unfoldable pub in_flight_count : Database → ℕ → List ℕ → ℕ
unfolding runs_on
in_flight_count db connection_id exclude_ids =
    count_where
      (λ t.
        if runs_on db connection_id t
        then (if is_leased t.work.status then not (mem_id t.id exclude_ids) else false)
        else false)
      db.targets

unfoldable pub is_owned_by : Database → ℕ → BroadcastTarget → Bool
is_owned_by db user_id t =
    any (λ b. if b.id == t.broadcast_id then b.user_id == user_id else false) db.broadcasts

unfoldable pub drop_chats : ℕ → List ℕ → Database → ℕ × Database
unfolding is_owned_by
drop_chats user_id chat_ids db =
    let hit = λ (t : BroadcastTarget).
      if mem_id t.chat_id chat_ids
      then (if is_succeeded t.work.status then false else is_owned_by db user_id t)
      else false in
    (count_where hit db.targets, record db { targets = delete_where hit db.targets })
