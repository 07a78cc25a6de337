-- ===== src/ReplyExamples.antt =====
-- The theorems on automatic replies at work on the small database.
use insightxadsflow.Prelude.{
  ◌*◌, ◌≡◌, ◌⊎◌, refl, true, false, List, [], ◌∷◌, some, none, arith, ◌++◌,
}
use insightxadsflow.Prelude.Int.{pos}
use insightxadsflow.Models.{
  default_settings, PeerType, AutoReplyLog, raised, second, TelegramAdapter,
}
use insightxadsflow.Text.{ascii}
use insightxadsflow.Errors.{classify_error}
use insightxadsflow.Replies.{handle_incoming, get_for_connection}
use insightxadsflow.Replies.Slots.{slot_key, SlotKey, claim_slot, release_slot}
use insightxadsflow.Replies.Views.{view, claim_spec, release_spec, IsKeyed}
use insightxadsflow.Replies.Refinement.{claim_slot-claim_spec, release_slot-release_spec}
use insightxadsflow.Replies.Guards.{MayAnswer, answer_text, handle_incoming_answers_guarded}
use insightxadsflow.Replies.Released.{failed_send_frees}
use insightxadsflow.Replies.Answered.{sends_to}
use insightxadsflow.Replies.Cooldown.{Arrival, message, purge, perform_all, answered_once}
use insightxadsflow.Samples.{account, willing, failure, person, greeting, greeting_db}

none-IsKeyed : IsKeyed []
unfolding IsKeyed
none-IsKeyed k = omega arith

handle_incoming_answers_guarded_example :
    ((handle_incoming ascii default_settings willing 9 account (person 77) none greeting_db).1
      ≡ greeting_db)
    ⊎ ((m : MayAnswer ascii default_settings willing 9 account (person 77) none greeting_db)
        × ((handle_incoming ascii default_settings willing 9 account
              (person 77)
              none
              greeting_db).1.sends
            ≡ []
              ++ answer_text ascii default_settings willing 9 account
                  (person 77)
                  none
                  greeting_db
                  m.reply
                ∷ []))
handle_incoming_answers_guarded_example =
    handle_incoming_answers_guarded ascii default_settings willing 9 account (person 77) none
      greeting_db

abbrev slot : SlotKey
slot = slot_key 5 PeerType.user (pos 77)

claim_slot_example :
    ((claim_slot 9 slot 60 []).0 ≡ (claim_spec 9 slot 60 (view [])).0)
    × ((l : SlotKey) → view (claim_slot 9 slot 60 []).1 l ≡ (claim_spec 9 slot 60 (view [])).1 l)
    × IsKeyed (claim_slot 9 slot 60 []).1
claim_slot_example = claim_slot-claim_spec 9 slot 60 [] none-IsKeyed

abbrev claimed : List AutoReplyLog
claimed =
    record {
      connection_id = 5;
      peer_type = PeerType.user;
      peer_id = pos 77;
      replied_at = 9;
      reply_count = 1;
    }
    ∷ []

claimed-IsKeyed : IsKeyed claimed
unfolding IsKeyed
claimed-IsKeyed k = ground arith

release_slot_example :
    ((l : SlotKey) → view (release_slot slot claimed) l ≡ release_spec slot (view claimed) l)
    × IsKeyed (release_slot slot claimed)
release_slot_example = release_slot-release_spec slot claimed claimed-IsKeyed

abbrev failing : TelegramAdapter
failing = record willing { send = λ _. raised (failure "ConnectionError") }

failed_send_example :
    ((handle_incoming ascii default_settings failing 9 account (person 77) none greeting_db).0.sent
      ≡ false)
    × (((handle_incoming ascii default_settings failing 9 account (person 77) none greeting_db).1
          ≡ greeting_db)
        ⊎ (((handle_incoming ascii default_settings failing 9 account
                (person 77)
                none
                greeting_db).0.reason_code
              ≡ (classify_error ascii (failure "ConnectionError")).code)
            × ((claim_slot
                  (61 * second)
                  slot
                  60
                  (handle_incoming ascii default_settings failing 9 account
                    (person 77)
                    none
                    greeting_db).1.auto_reply_log).0
                ≡ true)))
failed_send_example =
    failed_send_frees ascii default_settings failing 9 account (person 77) none greeting_db
      (failure "ConnectionError") (λ call. refl) none-IsKeyed (61 * second) 60 (omega arith)

abbrev later : List Arrival
later =
    message (30 * second) (person 77) willing
    ∷ message (40 * second) (person 78) willing
    ∷ purge (50 * second) 30
    ∷ []

was_sent :
    (handle_incoming ascii default_settings willing 9 account (person 77) none greeting_db).0.sent
    ≡ true
unfolding handle_incoming
was_sent = refl

greeting_found : get_for_connection greeting_db 5 ≡ some greeting
unfolding get_for_connection
greeting_found = refl

answered_once_example :
    sends_to (pos 77) (
      perform_all ascii default_settings account later
        (handle_incoming ascii default_settings willing 9 account (person 77) none greeting_db).1)
    ≡ sends_to
        (pos 77)
        (handle_incoming ascii default_settings willing 9 account (person 77) none greeting_db).1
answered_once_example =
    answered_once ascii default_settings willing 9 account (person 77) greeting_db greeting
      none-IsKeyed greeting_found was_sent later
      (omega arith, (omega arith, ((omega arith, omega arith), tt)))
