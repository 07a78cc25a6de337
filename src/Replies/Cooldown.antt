-- ===== src/Replies/Cooldown.antt =====
-- services/autoreply.py: nobody is answered twice within a cooldown.
use insightxadsflow.Prelude.{
  ℕ, ◌+◌, ◌*◌, ◌≤◌, ◌≡◌, refl, sym, ap, ◌∙◌, inl, inr, true, List, [], ◌∷◌, some, none, arith, All,
  some_injective,
}
use insightxadsflow.Prelude.Int.{ℤ}
use insightxadsflow.Models.{
  Settings, TelegramAdapter, TelegramConnection, ChatRef, AutoReply, PeerType, Database, Reply,
  returned, raised, DeliveryReceipt, log_send, put_auto_reply, second,
}
use insightxadsflow.Text.{Unicode}
use insightxadsflow.Replies.Slots.{slot_key, purge_log, get_for_connection, claim_reply_slot}
use insightxadsflow.Replies.Views.{view, IsKeyed}
use insightxadsflow.Replies.Refinement.{claim_slot-claim_spec}
use insightxadsflow.Replies.{ReplyDecision, after_send, handle_incoming}
use insightxadsflow.Replies.Guards.{MayAnswer, handle_incoming_cases, claim, answer_text}
use insightxadsflow.Replies.Specs.{claim_spec_hit}
use insightxadsflow.Replies.Answered.{
  Answered, Answered-message, Answered-purge, Answered-put, sends_to,
}

-- What happens to one connection: messages that arrive, each at its time and with what the adapter
-- answers then, and purges of the log.
pub data Arrival : Type 0 where
  message : ℕ → ChatRef → TelegramAdapter → Arrival
  purge : ℕ → ℕ → Arrival

-- Up to `cooldown_s` after `t`; a purge of nothing newer than the cooldown.
abbrev pub IsWithin : ℕ → ℕ → Arrival → Type 0
IsWithin t cooldown_s (message now sender adapter) = now ≤ t + cooldown_s * second
IsWithin t cooldown_s (purge now older_than_days) =
    (now ≤ t + cooldown_s * second) × (cooldown_s ≤ older_than_days * 86400)

module _ (u : Unicode) (settings : Settings) (connection : TelegramConnection) where
  unfoldable pub perform : Arrival → Database → Database
  perform (message now sender adapter) db =
      (handle_incoming u settings adapter now connection sender none db).1
  perform (purge now older_than_days) db = (purge_log now older_than_days db).1

  unfoldable pub perform_all : List Arrival → Database → Database
  unfolding perform
  perform_all [] db = db
  perform_all (a ∷ rest) db = perform_all rest (perform a db)

module _ (connection : TelegramConnection) (peer_id : ℤ) (t cooldown_s : ℕ) where
  module _ (u : Unicode) (settings : Settings) where
    Answered-perform :
        (arrival : Arrival) (db : Database)
        → IsWithin t cooldown_s arrival
        → Answered connection peer_id t cooldown_s db
        → Answered connection peer_id t cooldown_s (perform u settings connection arrival db)
          × (sends_to peer_id (perform u settings connection arrival db) ≡ sends_to peer_id db)
    unfolding perform purge_log sends_to
    Answered-perform (message now sender adapter) db within a =
        Answered-message connection peer_id t cooldown_s u settings adapter now sender db within a
    Answered-perform (purge now days) db within a =
        (Answered-purge connection peer_id t cooldown_s now days db within.0 within.1 a, refl)

    sends_to-perform_all :
        (arrivals : List Arrival) (db : Database)
        → All (IsWithin t cooldown_s) arrivals
        → Answered connection peer_id t cooldown_s db
        → sends_to peer_id (perform_all u settings connection arrivals db) ≡ sends_to peer_id db
    unfolding perform_all
    sends_to-perform_all [] db within a = refl
    sends_to-perform_all (arrival ∷ rest) db within a =
        let (a', same) = Answered-perform arrival db within.0 a in
        sends_to-perform_all rest _ within.1 a' ∙ same

module _ (u : Unicode) (settings : Settings) (adapter : TelegramAdapter) (t : ℕ)
    (connection : TelegramConnection) (sender : ChatRef) (db : Database) (reply : AutoReply) where
  Answered-sent :
      (result : Reply DeliveryReceipt)
      → (m : MayAnswer u settings adapter t connection sender none db) → IsKeyed db.auto_reply_log
      → get_for_connection db connection.id ≡ some reply
      → (after_send u settings adapter t connection sender m.reply result (
          log_send
            (answer_text u settings adapter t connection sender none db m.reply)
            (claim u settings adapter t connection sender none db m.reply).1)).0.sent
        ≡ true
      → Answered connection sender.peer_id t reply.cooldown_s
          (after_send u settings adapter t connection sender m.reply result (
            log_send
              (answer_text u settings adapter t connection sender none db m.reply)
              (claim u settings adapter t connection sender none db m.reply).1)).1
  unfolding after_send claim_reply_slot log_send put_auto_reply get_for_connection
  Answered-sent (raised exc) m keyed found sent = ground arith
  Answered-sent (returned receipt) m keyed found sent =
      let k = slot_key connection.id PeerType.user sender.peer_id in
      let rows = db.auto_reply_log in
      let (claimed, same, keyed') = claim_slot-claim_spec t k m.reply.cooldown_s rows keyed in
      let (times, noted) =
        claim_spec_hit t k m.reply.cooldown_s (view rows) (sym claimed ∙ m.slot_free) in
      Answered-put connection sender.peer_id t reply.cooldown_s u settings adapter t sender _
        m.reply m.reply_found
        (record {
          times = times;
          reply = m.reply;
          keyed = keyed';
          noted = same k ∙ noted;
          found = m.reply_found;
          has_cooldown =
              ap (λ (r : AutoReply). r.cooldown_s) (some_injective (sym m.reply_found ∙ found));
        })

  -- If handling a message at `t` reports an answer to its sender, where the log had one row for each
  -- person at most and `reply` was the reply of the connection, then no sequence of further messages
  -- to that connection and of purges, all no later than the cooldown of `reply` after `t` and the
  -- purges of rows older than it only, posts anything to that person again.
  pub answered_once :
      (keyed : IsKeyed db.auto_reply_log) (found : get_for_connection db connection.id ≡ some reply)
      (sent : (handle_incoming u settings adapter t connection sender none db).0.sent ≡ true)
      (arrivals : List Arrival) (within : All (IsWithin t reply.cooldown_s) arrivals)
      → sends_to sender.peer_id (
          perform_all u settings connection arrivals
            (handle_incoming u settings adapter t connection sender none db).1)
        ≡ sends_to sender.peer_id (handle_incoming u settings adapter t connection sender none db).1
  answered_once keyed found sent arrivals within =
      sends_to-perform_all connection sender.peer_id t reply.cooldown_s u settings arrivals _ within
        (elim (handle_incoming_cases u settings adapter t connection sender none db) [
          | inl (reason, e) ↦
              ground (arith, sent, ap (λ (r : ReplyDecision × Database). r.0.sent) e)
          | inr (m, e) ↦ rw e (
              Answered-sent _ m keyed found
                (ap (λ (r : ReplyDecision × Database). r.0.sent) (sym e) ∙ sent))
        ])
