-- ===== src/Scheduler/Starting.antt =====
-- scheduler.py: what becomes of a scheduled broadcast whose time has come.
use insightxadsflow.Prelude.{
  ℕ, ◌≡◌, refl, ap, subst, ◌∙◌, ◌⊎◌, inl, inr, Bool, true, false, List, [], ◌∷◌, Option, none, some,
  ◌==◌, length, is_some, Bool-cases, Option-cases, find_where-replace, ==-refl,
}
use insightxadsflow.Models.{
  Settings, Broadcast, BroadcastStatus, Database, User, get_broadcast, put_broadcast, get_user,
  is_scheduled,
}
use insightxadsflow.Users.{put_user}
use insightxadsflow.Text.{Unicode}
use insightxadsflow.Events.{has_alert, notify}
use insightxadsflow.Events.Frames.{notify_frame, has_alert-notify}
use insightxadsflow.Broadcasts
use insightxadsflow.Posting.{
  validate, queue, start, count_broadcast, sending_again, BroadcastValidationError,
}
use insightxadsflow.Scheduler.{start_scheduled, rejected_alert, time_of}

abbrev pub times : Option ℕ → List ℕ
times none = []
times (some t) = t ∷ []

-- The broadcast runs: its row is sending since now, without a reason or an end.
pub record IsRunning (now : ℕ) (broadcast : Broadcast) (after : Database) : Type 0 where
  pub row : Broadcast
  pub found : get_broadcast after broadcast.id ≡ some row
  pub status : row.status ≡ BroadcastStatus.sending
  pub started_at : row.started_at ≡ some now
  pub completed_at : row.completed_at ≡ none
  pub paused_reason_code : row.paused_reason_code ≡ none

-- The broadcast is a draft again and nothing else of its row has changed, nothing of it is queued, and an
-- alert names it and the time at which it did not start.
pub record IsRefused (broadcast : Broadcast) (db after : Database) : Type 0 where
  pub row :
      get_broadcast after broadcast.id ≡ some (record broadcast { status = BroadcastStatus.draft })
  pub same_targets : after.targets ≡ db.targets
  pub alerted :
      has_alert
        ("schedule_failed" ∷ [], broadcast.id ∷ times broadcast.scheduled_for)
        after.notifications
      ≡ true

-- The three ends of a turn of the loop, by whether the broadcast is still scheduled and what `validate`
-- says.
abbrev pub IsHandled :
    Bool → Option BroadcastValidationError → ℕ → Broadcast → Database → Database → Type 0
IsHandled scheduled refusal now broadcast db after =
    ((scheduled ≡ false) × (after ≡ db))
    ⊎ ((scheduled ≡ true) × (refusal ≡ none) × IsRunning now broadcast after)
    ⊎ ((scheduled ≡ true) × (is_some refusal ≡ true) × IsRefused broadcast db after)

times_lem : (scheduled_for : Option ℕ) → time_of scheduled_for ≡ times scheduled_for
times_lem none = refl
times_lem (some t) = refl

broadcasts-count_broadcast :
    (owner : Option User) (db : Database) → (count_broadcast owner db).broadcasts ≡ db.broadcasts
unfolding put_user
broadcasts-count_broadcast none db = refl
broadcasts-count_broadcast (some owner) db = refl

get_broadcast_of :
    (db db' : Database) (i : ℕ)
    → db'.broadcasts ≡ db.broadcasts
    → get_broadcast db' i ≡ get_broadcast db i
unfolding get_broadcast
get_broadcast_of db db' i e = rw e

module _ (u : Unicode) (settings : Settings) (now : ℕ) (db : Database) (broadcast : Broadcast)
    (found : get_broadcast db broadcast.id ≡ some broadcast) where
  start-IsRunning : IsRunning now broadcast (start now broadcast none db).1
  unfolding start put_broadcast get_broadcast
  start-IsRunning =
      let row = record (sending_again broadcast) { started_at = some now } in
      let (n, queued) = Broadcasts.schedule_targets now row none (put_broadcast row db) in
      record {
        row = row;
        found =
            get_broadcast_of queued (start now broadcast none db).1 broadcast.id
              (broadcasts-count_broadcast (get_user queued broadcast.user_id) queued)
            ∙ find_where-replace (λ b. b.id == broadcast.id) row (==-refl broadcast.id)
                db.broadcasts (ap is_some found);
        status = refl;
        started_at = refl;
        completed_at = refl;
        paused_reason_code = refl;
      }

  draft-IsRefused :
      let draft = record broadcast { status = BroadcastStatus.draft } in
      IsRefused broadcast db (notify (rejected_alert broadcast) (put_broadcast draft db))
  unfolding put_broadcast get_broadcast
  draft-IsRefused =
      let draft = record broadcast { status = BroadcastStatus.draft } in
      let stored = put_broadcast draft db in
      let (n, frame) = notify_frame (rejected_alert broadcast) stored in
      record {
        row =
            ap (λ (d : Database). get_broadcast d broadcast.id) frame
            ∙ find_where-replace (λ b. b.id == broadcast.id) draft (==-refl broadcast.id)
                db.broadcasts (ap is_some found);
        same_targets = ap (λ (d : Database). d.targets) frame;
        alerted =
            subst
              (λ key.
                has_alert ("schedule_failed" ∷ [], broadcast.id ∷ key)
                  (notify (rejected_alert broadcast) stored).notifications
                ≡ true)
              (times_lem broadcast.scheduled_for)
              (has_alert-notify (rejected_alert broadcast) stored);
      }

  -- For a broadcast whose row is in the table: where it is not scheduled any more, nothing changes; where
  -- it is scheduled and `validate` accepts it, it runs; and where `validate` refuses it, it is a draft
  -- again, none of its targets is touched, and an alert names it and its time.
  pub start_scheduled_lem :
      IsHandled
        (is_scheduled broadcast.status)
        (validate u settings broadcast (length (Broadcasts.target_chat_ids db broadcast.id)))
        now
        broadcast
        db
        (start_scheduled u settings now broadcast.id db)
  unfolding start_scheduled queue
  start_scheduled_lem = elim (Bool-cases (is_scheduled broadcast.status)) [
    | inr e ↦ rw (found, e) (inl (refl, refl))
    | inl e ↦
        elim (Option-cases
          (validate u settings broadcast (length (Broadcasts.target_chat_ids db broadcast.id)))) [
            | inl accepted ↦
                rw (found, e, queue, accepted) (inr (inl (refl, refl, start-IsRunning)))
            | inr (x, refusal) ↦
                rw (found, e, queue, refusal) (inr (inr (refl, refl, draft-IsRefused)))
          ]
  ]
