-- ===== src/Scheduler.antt =====
-- scheduler.py: one pass of each of its loops over the database.
pub mod Reclaiming
pub mod Starting
use insightxadsflow.Prelude.{
  ℕ, zero, suc, ◌+◌, ◌*◌, Bool, true, false, List, [], ◌∷◌, Option, some, none, ◌==◌, if◌then◌else◌,
  ltb, delete_where, String,
}
use insightxadsflow.Models.{
  Settings, Broadcast, BroadcastStatus, AdminNotification, ForwardingEvent, Database, get_broadcast,
  put_broadcast, is_scheduled, second,
}
use insightxadsflow.Text.{Unicode}
use insightxadsflow.Events.{notify}
use insightxadsflow.Jobs
use insightxadsflow.Broadcasts
use insightxadsflow.Worker.Control.{reclaim_expired_control}
use insightxadsflow.Replies.{purge_log}
use insightxadsflow.Posting.{Queued, queued, rejected, queue}

-- The body of `reclaim_loop`.
unfoldable pub reclaim_pass : ℕ → Database → Database
unfolding Jobs.reclaim_expired reclaim_expired_control Broadcasts.reclaim_expired
    Broadcasts.resume_flood_paused
reclaim_pass now db =
    let (jobs, db₁) = Jobs.reclaim_expired 200 now db in
    let (tasks, db₂) = reclaim_expired_control now db₁ in
    let (targets, db₃) = Broadcasts.reclaim_expired 200 now db₂ in
    (Broadcasts.resume_flood_paused now db₃).1

unfoldable pub reclaim_passes : ℕ → ℕ → Database → Database
unfolding reclaim_pass
reclaim_passes zero now db = db
reclaim_passes (suc n) now db = reclaim_passes n now (reclaim_pass now db)

abbrev pub time_of : Option ℕ → List ℕ
time_of none = []
time_of (some t) = t ∷ []

abbrev pub rejected_alert : Broadcast → AdminNotification
rejected_alert broadcast = record {
  user_id = broadcast.user_id;
  kind = "broadcast_schedule_failed";
  dedupe_key = ("schedule_failed" ∷ [], broadcast.id ∷ time_of broadcast.scheduled_for);
  rule_id = none;
  connection_id = none;
}

module _ (u : Unicode) (settings : Settings) (now : ℕ) where
  -- What `queue` came back with.
  abbrev after_queue : Broadcast → Queued × Database → Database
  after_queue fresh (queued n, db) = db
  after_queue fresh (rejected e, db) =
      notify (rejected_alert fresh)
        (put_broadcast (record fresh { status = BroadcastStatus.draft }) db)

  abbrev start_fresh : Option Broadcast → Database → Database
  start_fresh none db = db
  start_fresh (some fresh) db =
      if is_scheduled fresh.status
      then after_queue fresh (queue u settings now fresh none db)
      else db

  -- One round of the inner loop of `scheduled_broadcast_loop`, on the broadcast's current row.
  unfoldable pub start_scheduled : ℕ → Database → Database
  unfolding get_broadcast put_broadcast notify queue
  start_scheduled broadcast_id db = start_fresh (get_broadcast db broadcast_id) db

  unfoldable pub start_each : List Broadcast → Database → Database
  unfolding start_scheduled
  start_each [] db = db
  start_each (broadcast ∷ rest) db = start_each rest (start_scheduled broadcast.id db)

  -- The body of `scheduled_broadcast_loop`; `limit` is that of `due_scheduled`.
  unfoldable pub scheduled_pass : ℕ → Database → Database
  unfolding start_each
  scheduled_pass limit db = start_each (Broadcasts.due_scheduled db limit now) db

abbrev is_old_event : ℕ → ℕ → ForwardingEvent → Bool
is_old_event now days e = ltb (e.occurred_at + days * 86400 * second) now

-- The body of `retention_loop`, without the tables of sessions and of the interface's request keys.
unfoldable pub retention_pass : ℕ → ℕ → Database → Database
unfolding Jobs.purge_terminal purge_log
retention_pass event_retention_days now db =
    let kept = record db {
      events = delete_where (is_old_event now event_retention_days) db.events;
    } in
    (purge_log now 30 (Jobs.purge_terminal now 30 kept).1).1
