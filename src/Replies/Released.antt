-- ===== src/Replies/Released.antt =====
-- services/autoreply.py: an answer that could not be sent.
use insightxadsflow.Prelude.{
  ℕ, ◌+◌, ◌*◌, ◌<◌, ◌≡◌, refl, ◌∙◌, ◌⊎◌, inl, inr, true, false, List, Option, Bool-cases,
  Option-cases, ltb, leb, arith,
}
use insightxadsflow.Models.{
  log_send, Settings, TelegramAdapter, TelegramConnection, ChatRef, AutoReplyLog, PeerType,
  Database, Send, raised, Exception, second,
}
use insightxadsflow.Text.{Unicode}
use insightxadsflow.Errors.{classify_error}
use insightxadsflow.Replies.Slots.{
  claim_reply_slot, release_reply_slot, SlotKey, slot_key, claim_slot, release_slot,
}
use insightxadsflow.Replies.Views.{IsKeyed, view, Slots, claim_spec, release_spec, same_key_refl}
use insightxadsflow.Replies.Refinement.{claim_slot-claim_spec, release_slot-release_spec}
use insightxadsflow.Replies.{cooldown_of, after_send, handle_incoming}
use insightxadsflow.Replies.Guards.{handle_incoming_cases, answer_text}

past_cooldown :
    (later cooldown_s : ℕ)
    → cooldown_s * second < later
    → ltb (0 + cooldown_s * second) later ≡ true
past_cooldown later cooldown_s past = ground arith

free_spec :
    (later : ℕ) (k : SlotKey) (cooldown_s : ℕ) (slots old : Slots)
    → cooldown_s * second < later
    → slots k ≡ release_spec k old k
    → (claim_spec later k cooldown_s slots).0 ≡ true
free_spec later k cooldown_s slots old past e = elim (Option-cases (old k)) [
  | inl n ↦ rw (claim_spec, e, release_spec, n) (rw n refl)
  | inr ((t, n), s) ↦ elim (Bool-cases (leb n 1)) [
    | inl h ↦ rw (claim_spec, e, release_spec, s, h) (rw (same_key_refl k) refl)
    | inr h ↦
        rw (claim_spec, e, release_spec, s, h)
          (rw (same_key_refl k, past_cooldown later cooldown_s past) refl)
  ]
]

-- After a release the next claim succeeds, whatever the cooldown.
release_frees :
    (later : ℕ) (k : SlotKey) (cooldown_s : ℕ) (rows : List AutoReplyLog)
    → cooldown_s * second < later
    → IsKeyed rows
    → (claim_slot later k cooldown_s (release_slot k rows)).0 ≡ true
release_frees later k cooldown_s rows past keyed =
    let (same, keyed') = release_slot-release_spec k rows keyed in
    (claim_slot-claim_spec later k cooldown_s (release_slot k rows) keyed').0
    ∙ free_spec later k cooldown_s (view (release_slot k rows)) (view rows) past (same k)

claim_keeps_IsKeyed :
    (now : ℕ) (k : SlotKey) (cooldown_s : ℕ) (rows : List AutoReplyLog)
    → IsKeyed rows
    → IsKeyed (claim_slot now k cooldown_s rows).1
claim_keeps_IsKeyed now k cooldown_s rows keyed =
    (claim_slot-claim_spec now k cooldown_s rows keyed).2

module _ (u : Unicode) (settings : Settings) (adapter : TelegramAdapter) (now : ℕ)
    (connection : TelegramConnection) (sender : ChatRef) (settings_cooldown_s : Option ℕ)
    (db : Database) where
  -- Where the log has one row for each person at most and the adapter raises on every call, no answer
  -- is reported as sent, and either the database is as it was, or the reason is the code of the
  -- classified exception and any later claim of the sender's slot succeeds, as soon as its cooldown
  -- has passed since 1970.
  pub failed_send_frees :
      (exc : Exception) (raises : (call : Send) → adapter.send call ≡ raised exc)
      (keyed : IsKeyed db.auto_reply_log) (later cooldown_s : ℕ)
      (past : cooldown_s * second < later)
      → ((handle_incoming u settings adapter now connection sender settings_cooldown_s db).0.sent
          ≡ false)
        × (((handle_incoming u settings adapter now connection sender settings_cooldown_s db).1
              ≡ db)
            ⊎ (((handle_incoming u settings adapter now connection sender settings_cooldown_s
                    db).0.reason_code
                  ≡ (classify_error u exc).code)
                × ((claim_slot later
                      (slot_key connection.id PeerType.user sender.peer_id)
                      cooldown_s
                      (handle_incoming u settings adapter now connection sender settings_cooldown_s
                        db).1.auto_reply_log).0
                    ≡ true)))
  unfolding after_send claim_reply_slot release_reply_slot log_send
  failed_send_frees exc raises keyed later cooldown_s past =
      elim (handle_incoming_cases u settings adapter now connection sender settings_cooldown_s db) [
        | inl (reason, e) ↦ rw e (refl, inl refl)
        | inr (m, e) ↦
            rw
              (
                e,
                raises (
                    answer_text u settings adapter now connection sender settings_cooldown_s db
                      m.reply),
              )
              (let k = slot_key connection.id PeerType.user sender.peer_id in
                let s = cooldown_of settings_cooldown_s m.reply in
                (
                  refl,
                  inr (
                    refl,
                    release_frees later k cooldown_s (claim_slot now k s db.auto_reply_log).1 past
                        (claim_keeps_IsKeyed now k s db.auto_reply_log keyed),
                  ),
                ))
      ]
