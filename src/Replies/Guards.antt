-- ===== src/Replies/Guards.antt =====
-- When `handle_incoming` of services/autoreply.py answers.
use insightxadsflow.Prelude.{
  ℕ, ◌≡◌, refl, ap, ◌∙◌, ◌⊎◌, inl, inr, Bool, true, false, [], ◌∷◌, ◌++◌, Option, some, none,
  Bool-cases, Option-cases, String,
}
use insightxadsflow.Models.{
  Settings, TelegramAdapter, TelegramConnection, ChatRef, AutoReply, PeerType, Database, Send,
  Reply, returned, raised, DeliveryReceipt, send_text, is_connected, is_person, log_send,
}
use insightxadsflow.Text.{Unicode, is_empty, strip}
use insightxadsflow.Reasons
use insightxadsflow.Replies.Slots.{slot_key, get_for_connection, claim_reply_slot}
use insightxadsflow.Replies.Views.{claim_refused}
use insightxadsflow.Replies.{
  ReplyDecision, decided, is_advertising, cooldown_of, after_send, answer, with_reply,
  with_settings, handle_incoming,
}

module _ (u : Unicode) (settings : Settings) (adapter : TelegramAdapter) (now : ℕ)
    (connection : TelegramConnection) (sender : ChatRef) (settings_cooldown_s : Option ℕ)
    (db : Database) where
  abbrev pub claim : AutoReply → Bool × Database
  claim reply =
      claim_reply_slot now connection.id PeerType.user sender.peer_id
        (cooldown_of settings_cooldown_s reply) db

  abbrev pub answer_text : AutoReply → Send
  answer_text reply = send_text sender (strip u reply.body_text) [] none

  -- What holds whenever an answer is sent.
  pub record MayAnswer : Type 0 where
    pub reply : AutoReply
    pub reply_found : get_for_connection db connection.id ≡ some reply
    pub connected : is_connected connection.status ≡ true
    pub private : is_person sender.peer_type ≡ true
    pub enabled : reply.enabled ≡ true
    pub has_text : is_empty (strip u reply.body_text) ≡ false
    pub advertising : is_advertising settings now connection.user_id db ≡ true
    pub slot_free : (claim reply).0 ≡ true

  -- The database is left as it is, or the answer is sent and what follows is `after_send`.
  abbrev pub LeavesOrAnswers : ReplyDecision × Database → Type 0
  LeavesOrAnswers result =
      ((reason : String) × (result ≡ (decided false reason, db)))
      ⊎ ((m : MayAnswer) × (result
            ≡ after_send u settings adapter now connection sender m.reply
                (adapter.send (answer_text m.reply))
                (log_send (answer_text m.reply) (claim m.reply).1)))

  answer_cases :
      (reply : AutoReply)
      → get_for_connection db connection.id ≡ some reply
      → is_connected connection.status ≡ true
      → is_person sender.peer_type ≡ true
      → reply.enabled ≡ true
      → is_empty (strip u reply.body_text) ≡ false
      → is_advertising settings now connection.user_id db ≡ true
      → LeavesOrAnswers (
          answer u settings adapter now connection sender
            (cooldown_of settings_cooldown_s reply)
            reply
            (strip u reply.body_text)
            db)
  unfolding answer
  answer_cases reply found co pr en te ad = elim (Bool-cases (claim reply).0) [
    | inl e ↦
        rw (e, answer)
          (inr (
            record {
              reply = reply;
              reply_found = found;
              connected = co;
              private = pr;
              enabled = en;
              has_text = te;
              advertising = ad;
              slot_free = e;
            },
            refl,
          ))
    | inr e ↦
        rw (e, answer)
          (inl (
            Reasons.auto_reply_cooldown,
            ap
                (λ rows.
                  (decided false Reasons.auto_reply_cooldown, record db { auto_reply_log = rows }))
                (claim_refused now (slot_key connection.id PeerType.user sender.peer_id)
                  (cooldown_of settings_cooldown_s reply) db.auto_reply_log e),
          ))
  ]

  with_reply_cases :
      (reply : AutoReply)
      → get_for_connection db connection.id ≡ some reply
      → is_connected connection.status ≡ true
      → is_person sender.peer_type ≡ true
      → LeavesOrAnswers
          (with_reply u settings adapter now connection sender settings_cooldown_s reply db)
  unfolding with_reply
  with_reply_cases reply found co pr = elim (Bool-cases reply.enabled) [
    | inr en ↦ rw (en, with_reply) (inl (_, refl))
    | inl en ↦
        simp (en, with_reply)
          (elim (Bool-cases (is_empty (strip u reply.body_text))) [
            | inl te ↦ rw te (inl (_, refl))
            | inr te ↦
                rw te (elim (Bool-cases (is_advertising settings now connection.user_id db)) [
                  | inr ad ↦ rw ad (inl (_, refl))
                  | inl ad ↦ rw ad (answer_cases reply found co pr en te ad)
                ])
          ])
  ]

  pub handle_incoming_cases :
      LeavesOrAnswers
        (handle_incoming u settings adapter now connection sender settings_cooldown_s db)
  unfolding handle_incoming
  handle_incoming_cases = elim (Bool-cases (is_connected connection.status)) [
    | inr co ↦ rw co (inl (_, refl))
    | inl co ↦ rw co (elim (Bool-cases (is_person sender.peer_type)) [
      | inr pr ↦ rw pr (inl (_, refl))
      | inl pr ↦ rw pr (elim (Option-cases (get_for_connection db connection.id)) [
        | inl e ↦ rw (e, with_settings) (inl (_, refl))
        | inr (reply, e) ↦ rw (e, with_settings) (with_reply_cases reply e co pr)
      ])
    ])
  ]

  pub sends-after_send :
      (reply : AutoReply) (answered : Reply DeliveryReceipt) (later : Database)
      → (after_send u settings adapter now connection sender reply answered later).1.sends
        ≡ later.sends
  unfolding after_send
  sends-after_send reply (returned receipt) later = refl
  sends-after_send reply (raised exc) later = refl

  -- Handling an incoming message leaves the database as it is, or makes exactly one posting call;
  -- and it makes one only if the connection is active, the sender is a person, the connection has an
  -- enabled reply with a text that is not blank, its user is advertising or was within the window,
  -- and the slot of the sender was free. The call sends the stripped text to the sender.
  pub handle_incoming_answers_guarded :
      ((handle_incoming u settings adapter now connection sender settings_cooldown_s db).1 ≡ db)
      ⊎ ((m : MayAnswer) × ((handle_incoming u settings adapter now connection sender
              settings_cooldown_s db).1.sends
            ≡ db.sends ++ answer_text m.reply ∷ []))
  unfolding log_send claim_reply_slot
  handle_incoming_answers_guarded = elim handle_incoming_cases [
    | inl (reason, e) ↦ inl (ap (λ (r : ReplyDecision × Database). r.1) e)
    | inr (m, e) ↦ inr (
      m,
      ap (λ (r : ReplyDecision × Database). r.1.sends) e
          ∙ sends-after_send m.reply (adapter.send (answer_text m.reply)) _,
    )
  ]
