-- ===== src/Posting/Rounds.antt =====
-- `settle` and `_report_round` of services/broadcast.py: a round of a broadcast ends.
use insightxadsflow.Prelude.{
  ℕ, ◌+◌, ◌*◌, Bool, true, false, not, List, [], ◌∷◌, ◌++◌, Option, some, none, if◌then◌else◌, ◌==◌,
}
use insightxadsflow.Models.{
  Broadcast, BroadcastStatus, BroadcastMedia, JobStatus, AdminNotification, Database, is_sending,
  is_succeeded, put_broadcast, second,
}
use insightxadsflow.Events.{notify}
use insightxadsflow.Broadcasts

abbrev is_media : BroadcastMedia → Bool
is_media BroadcastMedia.no_media = false
is_media BroadcastMedia.photo = true

abbrev has_bytes : Option (List ℕ) → Bool
has_bytes (some (_ ∷ _)) = true
has_bytes _ = false

-- `broadcast.media_kind is not BroadcastMedia.none and broadcast.media_bytes`
unfoldable pub has_media : Broadcast → Bool
has_media broadcast =
    if is_media broadcast.media_kind then has_bytes broadcast.media_bytes else false

-- `skipped`, `failed`, `dead_letter` and `needs_attention`
abbrev pub is_missed : JobStatus → Bool
is_missed JobStatus.skipped = true
is_missed JobStatus.failed = true
is_missed JobStatus.dead_letter = true
is_missed JobStatus.needs_attention = true
is_missed _ = false

-- The call of `archive.store_round`, of which only that it was made is kept.
unfoldable pub store_round : Broadcast → Database → Database
store_round broadcast db = record db { archived = db.archived ++ broadcast.id ∷ [] }

abbrev pub round_alert : Broadcast → AdminNotification
round_alert broadcast = record {
  user_id = broadcast.user_id;
  kind = "broadcast_round_finished";
  dedupe_key = ("broadcast_round" ∷ [], broadcast.id ∷ broadcast.repeat_count ∷ []);
  rule_id = none;
  connection_id = some broadcast.connection_id;
}

-- The counts are those that `status_counts` returned to `settle`.
unfoldable pub report_round : Broadcast → ℕ → ℕ → Database → Database
unfolding notify
report_round broadcast delivered missed db =
    if (delivered + missed) == 0 then db else notify (round_alert broadcast) db

-- `if broadcast.repeat_every_s`: neither `None` nor 0.
abbrev pub repeat_of : Option ℕ → Option ℕ
repeat_of none = none
repeat_of (some seconds) = if seconds == 0 then none else some seconds

abbrev pub completed : ℕ → Broadcast → Broadcast
completed now broadcast = record broadcast {
  status = BroadcastStatus.completed;
  completed_at = some now;
  next_run_at = none;
}

-- The end of `settle`: the next round is scheduled, or the broadcast is done.
unfoldable pub after_round : ℕ → Broadcast → Option ℕ → Database → Bool × Database
unfolding put_broadcast Broadcasts.reopen_for_repeat
after_round now broadcast none db = (true, put_broadcast (completed now broadcast) db)
after_round now broadcast (some repeat_every_s) db =
    let start_at = now + repeat_every_s * second in
    let broadcast' = record broadcast { next_run_at = some start_at } in
    (false, (Broadcasts.reopen_for_repeat now broadcast' start_at (put_broadcast broadcast' db)).1)

abbrev pub next_round : Broadcast → Broadcast
next_round broadcast = record broadcast { repeat_count = broadcast.repeat_count + 1 }

-- The round is counted, reported and archived.
unfoldable pub close_round : Broadcast → Database → Database
unfolding put_broadcast report_round store_round Broadcasts.status_count
close_round broadcast db = store_round broadcast (
    report_round broadcast (Broadcasts.status_count db broadcast.id is_succeeded)
      (Broadcasts.status_count db broadcast.id is_missed) (put_broadcast broadcast db))

unfoldable pub settle : ℕ → Broadcast → Database → Bool × Database
unfolding Broadcasts.remaining_count close_round after_round
settle now broadcast db =
    if not (is_sending broadcast.status)
    then (false, db)
    else if not (Broadcasts.remaining_count db broadcast.id == 0)
    then (false, db)
    else after_round now (next_round broadcast) (repeat_of broadcast.repeat_every_s)
        (close_round (next_round broadcast) db)
