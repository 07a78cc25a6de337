-- ===== src/Events.antt =====
-- `record` of repositories/events.py, `notify` of repositories/admins.py, and `set_access` and `to_ref`
-- of repositories/chats.py.
pub mod Frames
use text.Mathlib.Text.{◌==◌ as str_eq}
use insightxadsflow.Prelude.{
  ℕ, Bool, true, false, List, [], ◌∷◌, ◌++◌, Option, some, ◌==◌, if◌then◌else◌, any, String,
}
use insightxadsflow.Models.{
  ForwardingEvent, AdminNotification, Origin, EventOutcome, Database, TelegramChat, ChatRef,
  put_chat,
}
use insightxadsflow.Reasons.{describe}

-- An event row. No modelled caller gives a `detail`, so `detail_safe` is the code's sentence.
unfoldable pub event :
    ℕ
    → Origin
    → Option ℕ
    → ℕ
    → Option ℕ
    → List ℕ
    → Option ℕ
    → EventOutcome
    → String
    → ℕ
    → ForwardingEvent
event now origin job_id connection_id source_chat_id source_message_ids destination_chat_id outcome
      reason_code attempt =
    record {
      origin = origin;
      job_id = job_id;
      connection_id = connection_id;
      source_chat_id = source_chat_id;
      source_message_ids = source_message_ids;
      destination_chat_id = destination_chat_id;
      outcome = outcome;
      reason_code = reason_code;
      detail_safe = describe reason_code;
      attempt = attempt;
      occurred_at = now;
    }

unfoldable pub record_event : ForwardingEvent → Database → Database
record_event e db = record db { events = db.events ++ e ∷ [] }

same_strings : List String → List String → Bool
same_strings [] [] = true
same_strings (a ∷ s) (b ∷ t) = if str_eq a b then same_strings s t else false
same_strings _ _ = false

same_numbers : List ℕ → List ℕ → Bool
same_numbers [] [] = true
same_numbers (a ∷ s) (b ∷ t) = if a == b then same_numbers s t else false
same_numbers _ _ = false

unfoldable pub has_alert : List String × List ℕ → List AdminNotification → Bool
unfolding same_strings same_numbers
has_alert (s, n) alerts =
    any (λ a. if same_strings a.dedupe_key.0 s then same_numbers a.dedupe_key.1 n else false) alerts

-- `ON CONFLICT (dedupe_key) DO NOTHING`
unfoldable pub notify : AdminNotification → Database → Database
unfolding has_alert
notify a db =
    if has_alert a.dedupe_key db.notifications
    then db
    else record db { notifications = db.notifications ++ a ∷ [] }

unfoldable pub set_access :
    ℕ → TelegramChat → Bool → String → Bool → String → String → Database → Database
unfolding put_chat
set_access now chat can_read_source source_reason_code can_post_destination destination_reason_code
      check_source =
    put_chat (record chat {
      access = some (record {
        can_read_source = can_read_source;
        source_reason_code = source_reason_code;
        can_post_destination = can_post_destination;
        destination_reason_code = destination_reason_code;
        checked_at = now;
        check_source = check_source;
      });
    })

unfoldable pub to_ref : TelegramChat → ChatRef
to_ref chat = record {
  peer_type = chat.peer_type;
  peer_id = chat.peer_id;
  access_hash = chat.access_hash;
}
