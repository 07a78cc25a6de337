-- ===== src/Replies/Answered.antt =====
-- services/autoreply.py: what is kept while somebody who was answered waits for the cooldown.
use insightxadsflow.Prelude.{
  ℕ, ◌+◌, ◌*◌, ◌≤◌, ◌≡◌, refl, sym, ap, ◌∙◌, inl, inr, Bool, true, false, some, none, if◌then◌else◌,
  ◌==◌, arith, Bool-cases, count_where, count_where-add, find_where-put, find_where_passes, ==-refl,
  count_where-delete_where_le, some_injective,
}
use insightxadsflow.Prelude.Int.{ℤ, eqb}
use insightxadsflow.Models.{
  Settings, TelegramAdapter, TelegramConnection, ChatRef, AutoReply, PeerType, Database, Send,
  forward_message, send_supported_content, send_text, send_photo, Reply, returned, raised,
  DeliveryReceipt, is_person, log_send, put_auto_reply, second,
}
use insightxadsflow.Text.{Unicode}
use insightxadsflow.Replies.Slots.{
  SlotKey, slot_key, same_key, purge_log, get_for_connection, claim_reply_slot, release_reply_slot,
  is_slot, is_old,
}
use insightxadsflow.Replies.Views.{view, IsKeyed, same_key_lem}
use insightxadsflow.Replies.Refinement.{claim_slot-claim_spec, release_slot-release_spec}
use insightxadsflow.Replies.{after_send, handle_incoming}
use insightxadsflow.Replies.Guards.{sends-after_send, handle_incoming_cases, claim, answer_text}
use insightxadsflow.Replies.Specs.{
  claim_spec_other, release_spec_other, claim_spec_early, view-purge,
}

abbrev recipient : Send → ChatRef
recipient (forward_message source ids destination random_id) = destination
recipient (send_supported_content source ids destination spoiler) = destination
recipient (send_text destination text entities random_id) = destination
recipient (send_photo destination bytes caption entities filename random_id) = destination

-- A call that posts to the person `peer_id`.
abbrev is_to : ℤ → Send → Bool
is_to peer_id call =
    if is_person (recipient call).peer_type then eqb peer_id (recipient call).peer_id else false

unfoldable pub sends_to : ℤ → Database → ℕ
sends_to peer_id db = count_where (is_to peer_id) db.sends

sends_to-log_send :
    (peer_id : ℤ) (call : Send) (db : Database)
    → is_to peer_id call ≡ false
    → sends_to peer_id (log_send call db) ≡ sends_to peer_id db
unfolding sends_to log_send
sends_to-log_send peer_id call db other =
    rw (count_where-add (is_to peer_id) call db.sends, other) refl

module _ (connection : TelegramConnection) (peer_id : ℤ) (t cooldown_s : ℕ) where
  -- The person was answered at `t`, and the reply's cooldown is `cooldown_s`.
  pub record Answered (db : Database) : Type 0 where
    pub times : ℕ
    pub reply : AutoReply
    pub keyed : IsKeyed db.auto_reply_log
    pub noted :
        view db.auto_reply_log (slot_key connection.id PeerType.user peer_id) ≡ some (t, times)
    pub found : get_for_connection db connection.id ≡ some reply
    pub has_cooldown : reply.cooldown_s ≡ cooldown_s

  module _ (u : Unicode) (settings : Settings) (adapter : TelegramAdapter) (now : ℕ)
      (sender : ChatRef) where
    abbrev me : SlotKey
    me = slot_key connection.id PeerType.user peer_id

    abbrev them : SlotKey
    them = slot_key connection.id PeerType.user sender.peer_id

    Answered-claim :
        (db : Database) (s : ℕ)
        → same_key me them ≡ false
        → Answered db
        → Answered (claim_reply_slot now connection.id PeerType.user sender.peer_id s db).1
    unfolding claim_reply_slot get_for_connection
    Answered-claim db s apart a =
        let (_, same, keyed) = claim_slot-claim_spec now them s db.auto_reply_log a.keyed in
        record {
          times = a.times;
          reply = a.reply;
          keyed = keyed;
          noted = same me ∙ claim_spec_other now them me s (view db.auto_reply_log) apart ∙ a.noted;
          found = a.found;
          has_cooldown = a.has_cooldown;
        }

    Answered-release :
        (db : Database)
        → same_key me them ≡ false
        → Answered db
        → Answered (release_reply_slot connection.id PeerType.user sender.peer_id db)
    unfolding release_reply_slot get_for_connection
    Answered-release db apart a =
        let (same, keyed) = release_slot-release_spec them db.auto_reply_log a.keyed in
        record {
          times = a.times;
          reply = a.reply;
          keyed = keyed;
          noted = same me ∙ release_spec_other them me (view db.auto_reply_log) apart ∙ a.noted;
          found = a.found;
          has_cooldown = a.has_cooldown;
        }

    abbrev counted : AutoReply → AutoReply
    counted reply = record reply { sent_count = reply.sent_count + 1 }

    pub Answered-put :
        (db : Database) (reply : AutoReply)
        → get_for_connection db connection.id ≡ some reply
        → Answered db
        → Answered (put_auto_reply (counted reply) db)
    unfolding put_auto_reply get_for_connection
    Answered-put db reply found a =
        let mine = λ (r : AutoReply). r.connection_id == connection.id in
        record {
          times = a.times;
          reply = counted reply;
          keyed = a.keyed;
          noted = a.noted;
          found =
              find_where-put mine (λ r. r.id == reply.id) (counted reply)
                (find_where_passes mine db.auto_replies reply found) db.auto_replies reply found
                (==-refl reply.id);
          has_cooldown =
              ap (λ (r : AutoReply). r.cooldown_s) (some_injective (sym found ∙ a.found))
              ∙ a.has_cooldown;
        }

    Answered-after_send :
        (db : Database) (reply : AutoReply) (result : Reply DeliveryReceipt)
        → get_for_connection db connection.id ≡ some reply
        → same_key me them ≡ false
        → Answered db
        → Answered (after_send u settings adapter now connection sender reply result db).1
    unfolding after_send
    Answered-after_send db reply (returned receipt) found apart a = Answered-put db reply found a
    Answered-after_send db reply (raised exc) found apart a = Answered-release db apart a

    Answered-log_send : (db : Database) (call : Send) → Answered db → Answered (log_send call db)
    unfolding log_send get_for_connection
    Answered-log_send db call a = record {
      times = a.times;
      reply = a.reply;
      keyed = a.keyed;
      noted = a.noted;
      found = a.found;
      has_cooldown = a.has_cooldown;
    }

    other_person : same_key me them ≡ false → eqb peer_id sender.peer_id ≡ false
    other_person apart =
        ground (arith, ==-refl connection.id, Bool-cases (eqb peer_id sender.peer_id))

    not_free :
        (db : Database) (reply : AutoReply)
        → get_for_connection db connection.id ≡ some reply
        → same_key me them ≡ true
        → now ≤ t + cooldown_s * second
        → Answered db
        → (claim u settings adapter now connection sender none db reply).0 ≡ false
    unfolding claim_reply_slot
    not_free db reply found same early a =
        rw
          (
            sym (same_key_lem me them same),
            ap (λ (r : AutoReply). r.cooldown_s) (some_injective (sym found ∙ a.found))
                ∙ a.has_cooldown,
          )
          ((claim_slot-claim_spec now me cooldown_s db.auto_reply_log a.keyed).0
            ∙ claim_spec_early now t a.times me cooldown_s (view db.auto_reply_log) a.noted early)

    Answered-other :
        (db : Database) (reply : AutoReply) (result : Reply DeliveryReceipt)
        → get_for_connection db connection.id ≡ some reply
        → is_person sender.peer_type ≡ true
        → same_key me them ≡ false
        → Answered db
        → let later =
            (after_send u settings adapter now connection sender reply result (
              log_send
                (answer_text u settings adapter now connection sender none db reply)
                (claim u settings adapter now connection sender none db reply).1)).1 in
          Answered later × (sends_to peer_id later ≡ sends_to peer_id db)
    unfolding log_send get_for_connection claim_reply_slot sends_to
    Answered-other db reply result found private apart a = (
      Answered-after_send _ reply result found apart (
          Answered-log_send _ (answer_text u settings adapter now connection sender none db reply)
            (Answered-claim db reply.cooldown_s apart a)),
      ap (count_where (is_to peer_id))
            (sends-after_send u settings adapter now connection sender none db reply result _)
          ∙ sends_to-log_send peer_id
              (answer_text u settings adapter now connection sender none db reply) db
              (rw private (other_person apart)),
    )

    -- A message to the person who was answered is not answered again, one to another person leaves
    -- the answer noted.
    pub Answered-message :
        (db : Database)
        → now ≤ t + cooldown_s * second
        → Answered db
        → Answered (handle_incoming u settings adapter now connection sender none db).1
          × (sends_to peer_id (handle_incoming u settings adapter now connection sender none db).1
              ≡ sends_to peer_id db)
    unfolding log_send get_for_connection claim_reply_slot sends_to
    Answered-message db early a =
        elim (handle_incoming_cases u settings adapter now connection sender none db) [
          | inl (reason, e) ↦ rw e (a, refl)
          | inr (m, e) ↦ elim (Bool-cases (same_key me them)) [
            | inl same ↦ ground (arith, m.slot_free, not_free db m.reply m.reply_found same early a)
            | inr apart ↦ rw e (Answered-other db m.reply _ m.reply_found m.private apart a)
          ]
        ]

  pub Answered-purge :
      (now days : ℕ) (db : Database)
      → now ≤ t + cooldown_s * second
      → cooldown_s ≤ days * 86400
      → Answered db
      → Answered (purge_log now days db).1
  unfolding purge_log get_for_connection IsKeyed
  Answered-purge now days db early long a = record {
    times = a.times;
    reply = a.reply;
    keyed = λ l. omega (
      arith,
      a.keyed l,
      count_where-delete_where_le (is_slot l) (is_old now days) db.auto_reply_log,
    );
    noted =
        view-purge now days t a.times (slot_key connection.id PeerType.user peer_id)
          db.auto_reply_log (omega arith) a.noted;
    found = a.found;
    has_cooldown = a.has_cooldown;
  }
