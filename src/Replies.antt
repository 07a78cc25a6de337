-- ===== src/Replies.antt =====
-- services/autoreply.py: the one automatic answer to a private message.
pub mod Slots
pub mod Views
pub mod Refinement
pub mod Guards
pub mod Released
mod Specs
pub mod Answered
pub mod Cooldown
unfoldable pub use Slots.{
  get_for_connection, claim_reply_slot, release_reply_slot, purge_log, upsert,
}
use insightxadsflow.Prelude.{
  ℕ, ◌+◌, ◌*◌, Bool, true, false, not, [], Option, some, none, ◌==◌, if◌then◌else◌, any, leb,
  String,
}
use insightxadsflow.Models.{
  Text, Settings, TelegramAdapter, TelegramConnection, ChatRef, AutoReply, Broadcast, PeerType,
  Reply, returned, raised, send_text, Database, is_connected, is_person, is_sending, put_auto_reply,
  log_send, DeliveryReceipt, second,
}
use insightxadsflow.Text.{Unicode, is_empty, strip}
use insightxadsflow.Reasons
use insightxadsflow.Errors.{classify_error}

pub record ReplyDecision : Type 0 where
  pub sent : Bool
  pub reason_code : String

abbrev pub decided : Bool → String → ReplyDecision
decided sent reason_code = record { sent = sent; reason_code = reason_code }

-- `completed_at.isnot(None) & (completed_at >= since)`
abbrev pub completed_since : ℕ → ℕ → Option ℕ → Bool
completed_since now window none = false
completed_since now window (some t) = leb now (t + window)

abbrev pub is_advertisement : ℕ → ℕ → ℕ → Broadcast → Bool
is_advertisement window now user_id b =
    if b.user_id == user_id
    then (if is_sending b.status then true else completed_since now window b.completed_at)
    else false

-- `_is_advertising`
unfoldable pub is_advertising : Settings → ℕ → ℕ → Database → Bool
is_advertising settings now user_id db =
    any (is_advertisement (settings.auto_reply_after_ad_hours * 3600 * second) now user_id)
      db.broadcasts

abbrev pub cooldown_of : Option ℕ → AutoReply → ℕ
cooldown_of none reply = reply.cooldown_s
cooldown_of (some cooldown_s) reply = cooldown_s

module _ (u : Unicode) (settings : Settings) (adapter : TelegramAdapter) (now : ℕ)
    (connection : TelegramConnection) (sender : ChatRef) where
  -- What follows the answer of the adapter.
  unfoldable pub after_send :
      AutoReply → Reply DeliveryReceipt → Database → ReplyDecision × Database
  unfolding put_auto_reply release_reply_slot
  after_send reply (returned receipt) db =
      let counted = record reply { sent_count = reply.sent_count + 1 } in
      (decided true Reasons.auto_reply_sent, put_auto_reply counted db)
  after_send reply (raised exc) db = (
    decided false (classify_error u exc).code,
    release_reply_slot connection.id PeerType.user sender.peer_id db,
  )

  -- From `claim_reply_slot` on.
  unfoldable pub answer : ℕ → AutoReply → Text → Database → ReplyDecision × Database
  unfolding after_send claim_reply_slot log_send
  answer cooldown_s reply body db =
      let (claimed, db₁) =
        claim_reply_slot now connection.id PeerType.user sender.peer_id cooldown_s db in
      let call = send_text sender body [] none in
      if claimed
      then after_send reply (adapter.send call) (log_send call db₁)
      else (decided false Reasons.auto_reply_cooldown, db₁)

  -- From the text of the reply on.
  unfoldable pub with_reply : Option ℕ → AutoReply → Database → ReplyDecision × Database
  unfolding answer strip is_advertising
  with_reply settings_cooldown_s reply db =
      let body = strip u reply.body_text in
      if not reply.enabled
      then (decided false Reasons.auto_reply_disabled, db)
      else if is_empty body
      then (decided false Reasons.auto_reply_disabled, db)
      else if not (is_advertising settings now connection.user_id db)
      then (decided false Reasons.auto_reply_not_advertising, db)
      else answer (cooldown_of settings_cooldown_s reply) reply body db

  unfoldable pub with_settings : Option ℕ → Option AutoReply → Database → ReplyDecision × Database
  unfolding with_reply
  with_settings settings_cooldown_s none db = (decided false Reasons.auto_reply_disabled, db)
  with_settings settings_cooldown_s (some reply) db = with_reply settings_cooldown_s reply db

  unfoldable pub handle_incoming : Option ℕ → Database → ReplyDecision × Database
  unfolding with_settings get_for_connection
  handle_incoming settings_cooldown_s db =
      if not (is_connected connection.status)
      then (decided false Reasons.connection_disconnected, db)
      else if not (is_person sender.peer_type)
      then (decided false Reasons.auto_reply_not_private, db)
      else with_settings settings_cooldown_s (get_for_connection db connection.id) db
