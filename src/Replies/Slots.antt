-- ===== src/Replies/Slots.antt =====
-- repositories/autoreply.py: the settings of a reply, and the log of who was answered and when.
use insightxadsflow.Prelude.{
  ℕ, ◌+◌, ◌*◌, ◌-◌, Bool, true, false, ◌&&◌, List, [], ◌∷◌, ◌++◌, Option, some, none, ◌==◌,
  if◌then◌else◌, leb, ltb, ◌⊎◌, inl, inr, String, find_where, update_where, delete_where,
  count_where,
}
use insightxadsflow.Prelude.Int.{ℤ, eqb}
use insightxadsflow.Models.{
  Text, AutoReply, AutoReplyLog, PeerType, Database, same_peer, put_auto_reply, second,
}
use insightxadsflow.Text.{Unicode, is_empty, strip}

unfoldable pub get_for_connection : Database → ℕ → Option AutoReply
get_for_connection db connection_id =
    find_where (λ r. r.connection_id == connection_id) db.auto_replies

-- The primary key of the log.
pub record SlotKey : Type 0 where
  pub connection_id : ℕ
  pub peer_type : PeerType
  pub peer_id : ℤ

abbrev pub slot_key : ℕ → PeerType → ℤ → SlotKey
slot_key connection_id peer_type peer_id = record {
  connection_id = connection_id;
  peer_type = peer_type;
  peer_id = peer_id;
}

abbrev pub same_key : SlotKey → SlotKey → Bool
same_key k l =
    if k.connection_id == l.connection_id
    then (if same_peer k.peer_type l.peer_type then eqb k.peer_id l.peer_id else false)
    else false

abbrev pub key_of : AutoReplyLog → SlotKey
key_of row = slot_key row.connection_id row.peer_type row.peer_id

abbrev pub is_slot : SlotKey → AutoReplyLog → Bool
is_slot k row = same_key k (key_of row)

abbrev pub first_answer : ℕ → SlotKey → AutoReplyLog
first_answer now k = record {
  connection_id = k.connection_id;
  peer_type = k.peer_type;
  peer_id = k.peer_id;
  replied_at = now;
  reply_count = 1;
}

abbrev pub answered_again : ℕ → AutoReplyLog → AutoReplyLog
answered_again now row = record row { replied_at = now; reply_count = row.reply_count + 1 }

-- `INSERT ... ON CONFLICT DO UPDATE ... WHERE replied_at < now() - cooldown RETURNING peer_id`
unfoldable pub claim_slot : ℕ → SlotKey → ℕ → List AutoReplyLog → Bool × List AutoReplyLog
claim_slot now k cooldown_s rows = elim (find_where (is_slot k) rows) [
  | none ↦ (true, rows ++ first_answer now k ∷ [])
  | some row ↦
      if ltb (row.replied_at + cooldown_s * second) now
      then (true, update_where (is_slot k) (answered_again now) rows)
      else (false, rows)
]

unfoldable pub claim_reply_slot : ℕ → ℕ → PeerType → ℤ → ℕ → Database → Bool × Database
unfolding claim_slot
claim_reply_slot now connection_id peer_type peer_id cooldown_s db =
    let (claimed, rows) =
      claim_slot now (slot_key connection_id peer_type peer_id) cooldown_s db.auto_reply_log in
    (claimed, record db { auto_reply_log = rows })

-- `_RELEASED` is the time 0.
abbrev pub parked : AutoReplyLog → AutoReplyLog
parked row = record row { replied_at = 0; reply_count = row.reply_count - 1 }

abbrev pub is_only_answer : SlotKey → AutoReplyLog → Bool
is_only_answer k row = if is_slot k row then leb row.reply_count 1 else false

-- `DELETE ... RETURNING`, and where that deletes nothing, the UPDATE
unfoldable pub release_slot : SlotKey → List AutoReplyLog → List AutoReplyLog
release_slot k rows =
    if count_where (is_only_answer k) rows == 0
    then update_where (is_slot k) parked rows
    else delete_where (is_only_answer k) rows

unfoldable pub release_reply_slot : ℕ → PeerType → ℤ → Database → Database
unfolding release_slot
release_reply_slot connection_id peer_type peer_id db = record db {
  auto_reply_log = release_slot (slot_key connection_id peer_type peer_id) db.auto_reply_log;
}

abbrev pub is_old : ℕ → ℕ → AutoReplyLog → Bool
is_old now older_than_days row = ltb (row.replied_at + older_than_days * 86400 * second) now

unfoldable pub purge_log : ℕ → ℕ → Database → ℕ × Database
purge_log now older_than_days db = (
  count_where (is_old now older_than_days) db.auto_reply_log,
  record db { auto_reply_log = delete_where (is_old now older_than_days) db.auto_reply_log },
)

abbrev given {ℓ} : {A : Type ℓ} → Option A → A → A
given none old = old
given (some new) old = new

abbrev fresh_reply : ℕ → ℕ → ℕ → AutoReply
fresh_reply id user_id connection_id = record {
  id = id;
  user_id = user_id;
  connection_id = connection_id;
  enabled = false;
  body_text = [];
  cooldown_s = 86400;
  sent_count = 0;
}

-- The row that the changes go to, and the table with it added where it is new.
abbrev ensured : ℕ → ℕ → ℕ → Option AutoReply → Database → AutoReply × Database
ensured id user_id connection_id (some reply) db = (reply, db)
ensured id user_id connection_id none db =
    let reply = fresh_reply id user_id connection_id in
    (reply, record db { auto_replies = db.auto_replies ++ reply ∷ [] })

abbrev asks_to_enable : Option Bool → Bool
asks_to_enable none = false
asks_to_enable (some enabled) = enabled

-- `id` is what `uuid4` draws. The left side is the `ValueError`, which rolls the session back.
unfoldable pub upsert :
    Unicode
    → ℕ
    → ℕ
    → ℕ
    → Option Text
    → Option Bool
    → Option ℕ
    → Database
    → String ⊎ (AutoReply × Database)
unfolding get_for_connection put_auto_reply strip
upsert u id user_id connection_id body_text enabled cooldown_s db =
    let (old, db₁) = ensured id user_id connection_id (get_for_connection db connection_id) db in
    let body = given body_text old.body_text in
    let new = record old {
      body_text = body;
      cooldown_s = given cooldown_s old.cooldown_s;
      enabled = given enabled old.enabled;
    } in
    if asks_to_enable enabled && is_empty (strip u body)
    then inl "Write the reply text before turning auto-reply on."
    else inr (new, put_auto_reply new db₁)
