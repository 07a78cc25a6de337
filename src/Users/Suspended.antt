-- ===== src/Users/Suspended.antt =====
-- What `suspend` of services/users.py leaves behind.
use insightxadsflow.Prelude.{
  count_where-update_where_zero, some, arith, ◌==◌, select, true, Option, false, All, find_where,
  update_where, ==-refl, ℕ, ◌≡◌, refl, List, [], ◌∷◌, count_where,
}
use insightxadsflow.Models.{BroadcastTarget, Text, get_user, User, TelegramConnection, Database}
use insightxadsflow.Jobs.Cancellation.{
  cancel_for_connection_lem, queued_on, cancel_for_connection_zero,
}
use insightxadsflow.Jobs
use insightxadsflow.Broadcasts.{target_table, runs_on}
use insightxadsflow.Broadcasts
use insightxadsflow.Reasons
use insightxadsflow.Safety.Stopped.{queued_target_on}
use insightxadsflow.Users.{
  sending_broadcast_of, active_rule_of, stop_user, suspend, is_active, active_user, stored_reason,
  put_user, cancel_connections,
}
use insightxadsflow.Leases.Cancels.{cancel_rows_lem, cancel_rows_zero}
use insightxadsflow.Safety.{
  paused_broadcast, paused_rule, pause_broadcasts_where, pause_rules_where,
}

-- The loop over connections leaves the other tables alone.
cancel_connections_frame :
    (now : ℕ) (cs : List TelegramConnection) (j t : ℕ) (db : Database)
    → ((cancel_connections now cs j t db).1.rules ≡ db.rules)
      × ((cancel_connections now cs j t db).1.broadcasts ≡ db.broadcasts)
      × ((cancel_connections now cs j t db).1.users ≡ db.users)
unfolding cancel_connections Jobs.cancel_pending_for_connection
    Broadcasts.cancel_pending_for_connection
cancel_connections_frame now [] j t db = (refl, refl, refl)
cancel_connections_frame now (c ∷ cs) j t db = cancel_connections_frame now cs _ _ _

-- An empty queue stays empty.
cancel_connections_keeps :
    (now i : ℕ) (cs : List TelegramConnection) (j t : ℕ) (db : Database)
    → count_where (queued_on i) db.jobs ≡ 0
    → count_where (queued_on i) (cancel_connections now cs j t db).1.jobs ≡ 0
unfolding cancel_connections Jobs.cancel_pending_for_connection
    Broadcasts.cancel_pending_for_connection
cancel_connections_keeps now i [] j t db h = h
cancel_connections_keeps now i (c ∷ cs) j t db h =
    cancel_connections_keeps now i cs _ _ _ (cancel_for_connection_zero now c.id i db h)

cancel_connections_keeps_targets :
    (now i : ℕ) (cs : List TelegramConnection) (j t : ℕ) (db : Database)
    → count_where (queued_target_on db i) db.targets ≡ 0
    → count_where (queued_target_on db i) (cancel_connections now cs j t db).1.targets ≡ 0
unfolding cancel_connections Jobs.cancel_pending_for_connection
    Broadcasts.cancel_pending_for_connection runs_on
cancel_connections_keeps_targets now i [] j t db h = h
cancel_connections_keeps_targets now i (c ∷ cs) j t db h =
    let db1 = (Jobs.cancel_pending_for_connection now c.id db).1 in
    let db2 = (Broadcasts.cancel_pending_for_connection now c.id db1).1 in
    cancel_connections_keeps_targets now i cs _ _ db2
      (cancel_rows_zero target_table now (runs_on db1 c.id) (runs_on db1 i) db1.targets h)

queued_target_on_frame :
    (db db' : Database) (i : ℕ) (xs : List BroadcastTarget)
    → db'.broadcasts ≡ db.broadcasts
    → count_where (queued_target_on db i) xs ≡ 0
    → count_where (queued_target_on db' i) xs ≡ 0
unfolding runs_on
queued_target_on_frame db db' i xs e h = rw e h

-- Each connection that the loop went over has nothing queued.
abbrev pub AllEmpty : List TelegramConnection → Database → Type 0
AllEmpty cs db =
    All
      (λ c.
        (count_where (queued_on c.id) db.jobs ≡ 0)
        × (count_where (queued_target_on db c.id) db.targets ≡ 0))
      cs

cancel_connections-AllEmpty :
    (now : ℕ) (cs : List TelegramConnection) (j t : ℕ) (db : Database)
    → AllEmpty cs (cancel_connections now cs j t db).1
unfolding cancel_connections Broadcasts.cancel_pending_for_connection
    Jobs.cancel_pending_for_connection runs_on
cancel_connections-AllEmpty now [] j t db = tt
cancel_connections-AllEmpty now (c ∷ cs) j t db =
    let db1 = (Jobs.cancel_pending_for_connection now c.id db).1 in
    let db2 = (Broadcasts.cancel_pending_for_connection now c.id db1).1 in
    (
      (
        cancel_connections_keeps now c.id cs _ _ db2 (cancel_for_connection_lem now c.id db).1,
        queued_target_on_frame db2 (cancel_connections now (c ∷ cs) j t db).1 c.id _
            (cancel_connections_frame now cs _ _ db2).1
            (cancel_connections_keeps_targets now c.id cs _ _ db2
              (cancel_rows_lem target_table now (runs_on db1 c.id) db1.targets).1),
      ),
      cancel_connections-AllEmpty now cs _ _ db2,
    )

-- Nothing of a user runs, and nothing of the user's connections `cs` is queued.
pub record IsSuspended (user_id : ℕ) (cs : List TelegramConnection) (db : Database) : Type 0 where
  pub not_active : is_active db user_id ≡ false
  pub no_rule : count_where (active_rule_of user_id) db.rules ≡ 0
  pub no_broadcast : count_where (sending_broadcast_of user_id) db.broadcasts ≡ 0
  pub queues_empty : AllEmpty cs db

inactive_row :
    (user : User) (xs : List User)
    → user.is_active ≡ false
    → active_user
        (find_where (λ r. r.id == user.id) (update_where (λ r. r.id == user.id) (λ _. user) xs))
      ≡ false
inactive_row user [] h = refl
inactive_row user (x ∷ xs) h = ground (arith, inactive_row user xs h, ==-refl user.id)

-- Suspending an active user stops everything the user runs: afterwards the account counts as not
-- active, no rule of the user is active and no broadcast of the user is sending, and none of the
-- user's connections has a forwarding job or a broadcast target that is pending or leased.
pub suspend-IsSuspended :
    (now : ℕ) (user : User) (reason : Option Text) (db : Database)
    → user.is_active ≡ true
    → IsSuspended user.id
        (select (λ c. c.user_id == user.id) db.connections)
        (suspend now user reason db).1
unfolding suspend stop_user put_user pause_rules_where pause_broadcasts_where is_active get_user
suspend-IsSuspended now user reason db h =
    let cs = select (λ c. c.user_id == user.id) db.connections in
    let stopped = stop_user now user (stored_reason reason) db in
    let frame = cancel_connections_frame now cs 0 0 stopped in
    rw h (record {
      not_active = rw frame.2 (
          inactive_row
            (record user {
              is_active = false;
              suspended_at = some now;
              suspended_reason = some (stored_reason reason);
            })
            db.users refl);
      no_rule = rw frame.0 (
          count_where-update_where_zero (active_rule_of user.id) (active_rule_of user.id)
            (paused_rule Reasons.account_suspended) (λ r h. ground arith) (λ r h. h) db.rules);
      no_broadcast = rw frame.1 (
          count_where-update_where_zero (sending_broadcast_of user.id)
            (sending_broadcast_of user.id) (paused_broadcast Reasons.account_suspended)
            (λ r h. ground arith) (λ r h. h) db.broadcasts);
      queues_empty = cancel_connections-AllEmpty now cs 0 0 stopped;
    })
