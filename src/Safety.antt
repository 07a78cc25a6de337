-- ===== src/Safety.antt =====
-- services/safety.py: rules and connections stop themselves.
pub mod Stopped
use insightxadsflow.Prelude.{
  ℕ, ◌+◌, Bool, true, false, List, [], ◌∷◌, ◌++◌, Option, some, none, ◌==◌, if◌then◌else◌, map,
  select, update_where, leb, String,
}
use insightxadsflow.Models.{
  Settings, TelegramConnection, ConnectionStatus, ForwardingRule, RuleStatus, Broadcast,
  BroadcastStatus, AdminNotification, Origin, of_rule, of_broadcast, EventOutcome, Database,
  is_paused_safety, is_rule_active, is_rule_paused, is_sending, get_rule, put_rule, put_connection,
}
use insightxadsflow.Reasons
use insightxadsflow.Reasons.{describe}
use insightxadsflow.Events.{event, record_event, notify}
use insightxadsflow.Jobs
use insightxadsflow.Broadcasts

unfoldable pub pause_found_rule : ℕ → String → Option ForwardingRule → Database → Database
pause_found_rule now reason_code none db = db
pause_found_rule now reason_code (some rule) db =
    if is_rule_paused rule.status
    then db
    else notify
        (record {
          user_id = rule.user_id;
          kind = "rule_paused";
          dedupe_key = ("rule_paused" ∷ reason_code ∷ [], rule.id ∷ rule.version ∷ []);
          rule_id = some rule.id;
          connection_id = none;
        })
        (record_event
          (event now (of_rule rule.id) none rule.connection_id none [] none EventOutcome.paused
            reason_code 0)
          (put_rule
            (record rule { status = RuleStatus.paused; paused_reason_code = some reason_code }) db))

unfoldable pub pause_rule : ℕ → ℕ → String → Database → Database
unfolding pause_found_rule
pause_rule now rule_id reason_code db = pause_found_rule now reason_code (get_rule db rule_id) db

-- The active rules of a connection.
abbrev pub depends_on : ℕ → ForwardingRule → Bool
depends_on connection_id r =
    if r.connection_id == connection_id then is_rule_active r.status else false

-- The sending broadcasts of a connection.
abbrev pub sends_on : ℕ → Broadcast → Bool
sends_on connection_id b = if b.connection_id == connection_id then is_sending b.status else false

abbrev pub paused_rule : String → ForwardingRule → ForwardingRule
paused_rule reason_code r = record r {
  status = RuleStatus.paused;
  paused_reason_code = some reason_code;
}

abbrev pub paused_broadcast : String → Broadcast → Broadcast
paused_broadcast reason_code b = record b {
  status = BroadcastStatus.paused;
  paused_reason_code = some reason_code;
}

unfoldable pub pause_rules_where : ℕ → (ForwardingRule → Bool) → String → Database → Database
pause_rules_where now hit reason_code db = record db {
  rules = update_where hit (paused_rule reason_code) db.rules;
  events =
      db.events
      ++ map
          (λ r.
            event now (of_rule r.id) none r.connection_id none [] none EventOutcome.paused
              reason_code 0)
          (select hit db.rules);
}

unfoldable pub pause_broadcasts_where : (Broadcast → Bool) → String → Database → Database
pause_broadcasts_where hit reason_code db = record db {
  broadcasts = update_where hit (paused_broadcast reason_code) db.broadcasts;
}

-- The events that `pause_connection` records beside each broadcast that it pauses.
unfoldable pub record_paused_broadcasts : ℕ → (Broadcast → Bool) → String → Database → Database
record_paused_broadcasts now hit reason_code db = record db {
  events =
      db.events
      ++ map
          (λ b.
            event now (of_broadcast b.id) none b.connection_id none [] none EventOutcome.paused
              reason_code 0)
          (select hit db.broadcasts);
}

abbrev pub stopped_connection : TelegramConnection → String → TelegramConnection
stopped_connection connection reason_code = record connection {
  status = ConnectionStatus.paused_safety;
  last_error_code = some reason_code;
  last_error_message_safe = some (describe reason_code);
}

-- The connection's row, its rules and its broadcasts are written.
unfoldable pub pause_dependents : ℕ → TelegramConnection → String → Database → Database
unfolding pause_rules_where pause_broadcasts_where record_paused_broadcasts put_connection
pause_dependents now connection reason_code db =
    pause_broadcasts_where (sends_on connection.id) reason_code (
      record_paused_broadcasts now (sends_on connection.id) reason_code (
        pause_rules_where now (depends_on connection.id) reason_code
          (put_connection (stopped_connection connection reason_code) db)))

-- `pause_connection` past its early return, up to the alert.
unfoldable pub stop_connection : ℕ → TelegramConnection → String → Database → Database
unfolding pause_dependents Jobs.cancel_pending_for_connection
    Broadcasts.cancel_pending_for_connection
stop_connection now connection reason_code db =
    let db1 = pause_dependents now connection reason_code db in
    let db2 = (Jobs.cancel_pending_for_connection now connection.id db1).1 in
    (Broadcasts.cancel_pending_for_connection now connection.id db2).1

abbrev pub connection_alert : TelegramConnection → String → AdminNotification
connection_alert connection reason_code = record {
  user_id = connection.user_id;
  kind = "connection_paused";
  dedupe_key = ("connection_paused" ∷ reason_code ∷ [], connection.id ∷ []);
  rule_id = none;
  connection_id = some connection.id;
}

unfoldable pub pause_connection : ℕ → TelegramConnection → String → Database → Database
unfolding stop_connection
pause_connection now connection reason_code db =
    if is_paused_safety connection.status
    then db
    else notify (connection_alert connection reason_code)
        (stop_connection now connection reason_code db)

unfoldable pub note_connection_failure : TelegramConnection → Database → Database
unfolding put_connection
note_connection_failure connection =
    put_connection
      (record connection { consecutive_failure_count = connection.consecutive_failure_count + 1 })

unfoldable pub note_failure : Settings → ℕ → ℕ → TelegramConnection → Database → Database
unfolding note_connection_failure pause_rule
note_failure settings now rule_id connection db =
    let db1 = note_connection_failure connection db in
    if leb settings.safety_pause_threshold (Jobs.count_recent_failures db1 now rule_id 60)
    then pause_rule now rule_id Reasons.safety_pause db1
    else db1

unfoldable pub clear_failures : TelegramConnection → TelegramConnection
clear_failures connection = record connection {
  consecutive_failure_count = 0;
  last_error_code = none;
  last_error_message_safe = none;
}
