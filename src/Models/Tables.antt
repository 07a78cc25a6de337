-- ===== src/Models/Tables.antt =====
-- The database as the tables that the modelled code uses, with the record of what was posted.
use insightxadsflow.Prelude.{ℕ, List, [], ◌∷◌, ◌++◌, Option, ◌==◌, find_where, update_where}
use insightxadsflow.Models.Values.{Send}
use insightxadsflow.Models.Rows.{
  User, TelegramConnection, TelegramChat, ForwardingRule, ForwardingJob, Broadcast, BroadcastTarget,
  ForwardingEvent, AdminNotification, AutoReply, AutoReplyLog, SourceCursor, ControlTask,
}

pub record Database : Type 0 where
  pub users : List User
  pub connections : List TelegramConnection
  pub chats : List TelegramChat
  pub rules : List ForwardingRule
  pub jobs : List ForwardingJob
  pub broadcasts : List Broadcast
  pub targets : List BroadcastTarget
  pub events : List ForwardingEvent
  pub notifications : List AdminNotification
  pub auto_replies : List AutoReply
  pub auto_reply_log : List AutoReplyLog
  pub cursors : List SourceCursor
  pub control_tasks : List ControlTask
  -- no table: the posting calls made so far, and the rounds handed to the archive
  pub sends : List Send
  pub archived : List ℕ

-- `session.get` by primary key
unfoldable pub get_user : Database → ℕ → Option User
get_user db user_id = find_where (λ u. u.id == user_id) db.users

unfoldable pub get_chat : Database → ℕ → Option TelegramChat
get_chat db chat_id = find_where (λ c. c.id == chat_id) db.chats

unfoldable pub get_rule : Database → ℕ → Option ForwardingRule
get_rule db rule_id = find_where (λ r. r.id == rule_id) db.rules

unfoldable pub get_job : Database → ℕ → Option ForwardingJob
get_job db job_id = find_where (λ j. j.id == job_id) db.jobs

unfoldable pub get_broadcast : Database → ℕ → Option Broadcast
get_broadcast db broadcast_id = find_where (λ b. b.id == broadcast_id) db.broadcasts

unfoldable pub get_target : Database → ℕ → Option BroadcastTarget
get_target db target_id = find_where (λ t. t.id == target_id) db.targets

-- A flush of a changed row: it takes the place of the row with its primary key.
unfoldable pub put_connection : TelegramConnection → Database → Database
put_connection c db = record db {
  connections = update_where (λ r. r.id == c.id) (λ _. c) db.connections;
}

unfoldable pub put_chat : TelegramChat → Database → Database
put_chat c db = record db { chats = update_where (λ r. r.id == c.id) (λ _. c) db.chats }

unfoldable pub put_rule : ForwardingRule → Database → Database
put_rule r db = record db { rules = update_where (λ q. q.id == r.id) (λ _. r) db.rules }

unfoldable pub put_job : ForwardingJob → Database → Database
put_job j db = record db { jobs = update_where (λ r. r.id == j.id) (λ _. j) db.jobs }

unfoldable pub put_broadcast : Broadcast → Database → Database
put_broadcast b db = record db {
  broadcasts = update_where (λ r. r.id == b.id) (λ _. b) db.broadcasts;
}

unfoldable pub put_target : BroadcastTarget → Database → Database
put_target t db = record db { targets = update_where (λ r. r.id == t.id) (λ _. t) db.targets }

unfoldable pub put_auto_reply : AutoReply → Database → Database
put_auto_reply a db = record db {
  auto_replies = update_where (λ r. r.id == a.id) (λ _. a) db.auto_replies;
}

unfoldable pub put_task : ControlTask → Database → Database
put_task t db = record db {
  control_tasks = update_where (λ r. r.id == t.id) (λ _. t) db.control_tasks;
}

-- The record of a posting call.
unfoldable pub log_send : Send → Database → Database
log_send s db = record db { sends = db.sends ++ s ∷ [] }
