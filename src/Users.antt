-- ===== src/Users.antt =====
-- services/users.py: suspension and reinstatement.
pub mod Suspended
use Prim.Native.String.{slice}
use insightxadsflow.Prelude.{
  take, ℕ, ◌+◌, Bool, true, false, not, List, [], ◌∷◌, Option, some, none, ◌==◌, if◌then◌else◌,
  select, length, update_where, find_where, String,
}
use insightxadsflow.Models.{
  Text, User, TelegramConnection, ForwardingRule, Broadcast, Database, is_rule_active, is_sending,
  get_user,
}
use insightxadsflow.Text.{codes}
use insightxadsflow.Reasons
use insightxadsflow.Safety.{pause_rules_where, pause_broadcasts_where}
use insightxadsflow.Jobs
use insightxadsflow.Broadcasts

abbrev active_user : Option User → Bool
active_user none = false
active_user (some user) = user.is_active

unfoldable pub is_active : Database → ℕ → Bool
unfolding get_user
is_active db user_id = active_user (get_user db user_id)

unfoldable pub put_user : User → Database → Database
put_user user db = record db { users = update_where (λ r. r.id == user.id) (λ _. user) db.users }

-- The counts that `suspend` returns.
pub record Stopped : Type 0 where
  pub rules : ℕ
  pub broadcasts : ℕ
  pub jobs : ℕ
  pub targets : ℕ

abbrev pub active_rule_of : ℕ → ForwardingRule → Bool
active_rule_of user_id r = if r.user_id == user_id then is_rule_active r.status else false

abbrev pub sending_broadcast_of : ℕ → Broadcast → Bool
sending_broadcast_of user_id b = if b.user_id == user_id then is_sending b.status else false

-- The loop over the user's connections, with the counts so far.
unfoldable pub cancel_connections :
    ℕ → List TelegramConnection → ℕ → ℕ → Database → (ℕ × ℕ) × Database
unfolding Jobs.cancel_pending_for_connection Broadcasts.cancel_pending_for_connection
cancel_connections now [] jobs targets db = ((jobs, targets), db)
cancel_connections now (c ∷ cs) jobs targets db =
    let (j, db1) = Jobs.cancel_pending_for_connection now c.id db in
    let (t, db2) = Broadcasts.cancel_pending_for_connection now c.id db1 in
    cancel_connections now cs (jobs + j) (targets + t) db2

abbrev default_reason : Text
default_reason = codes "Suspended by the operator."

-- `(reason or DEFAULT_REASON)[:200]`
unfoldable pub stored_reason : Option Text → Text
stored_reason none = default_reason
stored_reason (some []) = default_reason
stored_reason (some (c ∷ t)) = take 200 (c ∷ t)

-- The rows that stop before the queues are emptied.
unfoldable pub stop_user : ℕ → User → Text → Database → Database
unfolding put_user pause_rules_where pause_broadcasts_where
stop_user now user reason db =
    pause_broadcasts_where (sending_broadcast_of user.id) Reasons.account_suspended (
      pause_rules_where now (active_rule_of user.id) Reasons.account_suspended (
        put_user
          (record user {
            is_active = false;
            suspended_at = some now;
            suspended_reason = some reason;
          })
          db))

-- The audit row is not kept.
unfoldable pub suspend : ℕ → User → Option Text → Database → Stopped × Database
unfolding stop_user stored_reason cancel_connections
suspend now user reason db =
    if user.is_active
    then (let (counts, db') =
          cancel_connections now (select (λ c. c.user_id == user.id) db.connections) 0 0
            (stop_user now user (stored_reason reason) db) in
        (
          record {
            rules = length (select (active_rule_of user.id) db.rules);
            broadcasts = length (select (sending_broadcast_of user.id) db.broadcasts);
            jobs = counts.0;
            targets = counts.1;
          },
          db',
        ))
    else (record { rules = 0; broadcasts = 0; jobs = 0; targets = 0 }, db)

unfoldable pub reinstate : User → Database → Database
unfolding put_user
reinstate user db =
    if user.is_active
    then db
    else put_user (record user { is_active = true; suspended_at = none; suspended_reason = none })
        db
