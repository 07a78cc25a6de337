-- ===== src/Posting/Guards.antt =====
-- When `execute_target` of services/broadcast.py posts anything.
use insightxadsflow.Prelude.{
  ℕ, ◌+◌, ◌*◌, ◌≡◌, refl, ◌∙◌, ◌⊎◌, inl, inr, true, false, not, ◌&&◌, List, [], ◌∷◌, ◌++◌, Option,
  some, none, String, leb, Bool-cases, Option-cases, ◌==◌,
}
use insightxadsflow.Models.{
  JobStatus, put_chat, log_send, Settings, TelegramAdapter, TelegramConnection, TelegramChat,
  Broadcast, BroadcastTarget, Database, AccessReport, DeliveryReceipt, Reply, returned, raised,
  Send, is_connected, is_sending, is_retryable, second, get_broadcast, get_chat, put_broadcast,
  put_target, put_connection, is_succeeded,
}
use insightxadsflow.Text.{Unicode, is_empty, strip}
use insightxadsflow.Reasons
use insightxadsflow.Errors.{ClassifiedError, classify_error, is_rate_limit}
use insightxadsflow.Events.{set_access, to_ref, record_event}
use insightxadsflow.Safety.{note_connection_failure}
use insightxadsflow.Broadcasts
use insightxadsflow.Users.{is_active}
use insightxadsflow.Delivery.{is_ambiguous}
use insightxadsflow.Delivery.Failure.{is_auth, wait_or_default}
use insightxadsflow.Delivery.Sends.{sends-notify, sends-pause_connection}
use insightxadsflow.Posting.Rounds.{
  has_media, settle, close_round, after_round, report_round, next_round, repeat_of, round_alert,
  is_missed, store_round,
}
use insightxadsflow.Posting.Failure.{
  pause, pause, record_outcome, wait_out, retry_or_give_up, handle_classified, handle_failure,
}
use insightxadsflow.Posting.Execution.{
  posting, terminal, recorded, ambiguous, posted, conclude, after_check, with_chat, guarded,
  execute_target, terminal_without_broadcast,
}

sends-report_round :
    (b : Broadcast) (delivered missed : ℕ) (db : Database)
    → (report_round b delivered missed db).sends ≡ db.sends
unfolding report_round
sends-report_round b delivered missed db = elim (Bool-cases ((delivered + missed) == 0)) [
  | inl e ↦ rw e refl
  | inr e ↦ rw e (sends-notify (round_alert b) db)
]

sends-after_round :
    (now : ℕ) (b : Broadcast) (repeat : Option ℕ) (db : Database)
    → (after_round now b repeat db).1.sends ≡ db.sends
unfolding after_round Broadcasts.reopen_for_repeat put_broadcast
sends-after_round now b none db = refl
sends-after_round now b (some s) db = refl

-- The end of a round posts nothing.
pub sends-settle : (now : ℕ) (b : Broadcast) (db : Database) → (settle now b db).1.sends ≡ db.sends
unfolding settle close_round store_round put_broadcast
sends-settle now b db = elim (Bool-cases (is_sending b.status)) [
  | inr e ↦ rw e refl
  | inl e ↦ rw e (elim (Bool-cases (Broadcasts.remaining_count db b.id == 0)) [
    | inr f ↦ rw f refl
    | inl f ↦ rw f (
        sends-after_round now (next_round b) (repeat_of b.repeat_every_s)
          (close_round (next_round b) db)
        ∙ sends-report_round (next_round b) (Broadcasts.status_count db b.id is_succeeded)
            (Broadcasts.status_count db b.id is_missed) (put_broadcast (next_round b) db))
  ])
]

sends-recorded :
    (now : ℕ) (b : Option Broadcast) (destination : Option ℕ) (target : BroadcastTarget)
    (reason : String) (db : Database)
    → (recorded now b destination target reason db).sends ≡ db.sends
unfolding record_outcome record_event
sends-recorded now none destination target reason db = refl
sends-recorded now (some b) destination target reason db = sends-settle now b _

sends-terminal :
    (now : ℕ) (target : BroadcastTarget) (reason : String) (broadcast_id : ℕ)
    (destination : Option ℕ) (db : Database)
    → (terminal now target reason broadcast_id destination db).1.sends ≡ db.sends
unfolding terminal put_target
sends-terminal now target reason broadcast_id destination db =
    let target' = Broadcasts.finish now JobStatus.skipped none none (some reason) target in
    let db1 = put_target target' db in
    sends-recorded now (get_broadcast db1 broadcast_id) destination target' reason db1

module _ (settings : Settings) (uniform : ℕ → ℕ) (now : ℕ) (target : BroadcastTarget)
    (b : Broadcast) (destination_id : ℕ) (connection : TelegramConnection) (max_attempts : ℕ)
    (db : Database) where
  -- Handling a failure posts nothing.
  pub sends-handle_classified :
      (c : ClassifiedError)
      → (handle_classified settings uniform now target b destination_id c connection max_attempts
          db).1.sends
        ≡ db.sends
  unfolding handle_classified wait_out retry_or_give_up pause put_target put_broadcast
      record_outcome record_event note_connection_failure put_connection
  sends-handle_classified c = elim (Bool-cases (is_auth c.error_class)) [
    | inl e ↦ rw e (sends-pause_connection now connection Reasons.auth_pause db)
    | inr e ↦ rw e (elim (Bool-cases (is_retryable c.error_class)) [
      | inr f ↦ rw f (sends-settle now b _)
      | inl f ↦ rw f (elim (Bool-cases (is_rate_limit c.error_class)) [
        | inl g ↦
            elim (Bool-cases (
              leb (settings.flood_wait_pause_threshold_s * second)
                (wait_or_default c.retry_after_s))) [
                  | inl h ↦ rw (g, h) refl
                  | inr h ↦ rw (g, h) refl
                ]
        | inr g ↦ elim (Bool-cases (leb max_attempts (target.work.attempt_count + 1))) [
          | inl h ↦ rw (g, h) (sends-settle now b _)
          | inr h ↦ rw (g, h) refl
        ]
      ])
    ])
  ]

module _ (u : Unicode) (settings : Settings) (adapter : TelegramAdapter) (uniform : ℕ → ℕ) (now : ℕ)
    (target : BroadcastTarget) (connection : TelegramConnection) (db : Database) where
  -- What holds whenever the target is posted to.
  pub record MayPost (call : Send) : Type 0 where
    pub broadcast : Broadcast
    pub chat : TelegramChat
    pub report : AccessReport
    pub broadcast_found : get_broadcast db target.broadcast_id ≡ some broadcast
    pub chat_found : get_chat db target.chat_id ≡ some chat
    pub owner_active : is_active db broadcast.user_id ≡ true
    pub connected : is_connected connection.status ≡ true
    pub sending : is_sending broadcast.status ≡ true
    pub not_empty : (is_empty (strip u broadcast.body_text) && not (has_media broadcast)) ≡ false
    pub checked : adapter.check_destination_access (to_ref chat) ≡ returned report
    pub allowed : report.allowed ≡ true
    pub is_its_call : call ≡ posting broadcast target chat

  -- Nothing was posted, or one call that may be.
  abbrev pub PostsAtMostOnce : List Send → Type 0
  PostsAtMostOnce sends =
      (sends ≡ db.sends) ⊎ ((call : Send) × MayPost call × (sends ≡ db.sends ++ call ∷ []))

  sends-conclude :
      (b : Broadcast) (chat : TelegramChat) (reply : Reply DeliveryReceipt) (later : Database)
      → (conclude u settings adapter uniform now target connection b chat reply later).1.sends
        ≡ later.sends
  unfolding conclude posted ambiguous put_target put_connection record_outcome record_event
      handle_failure
  sends-conclude b chat (returned receipt) later = sends-settle now b _
  sends-conclude b chat (raised exc) later = elim (Bool-cases (is_ambiguous exc.kind)) [
    | inl e ↦ rw e refl
    | inr e ↦ rw e (
        sends-handle_classified settings uniform now target b chat.id connection
          settings.max_attempts later (classify_error u exc))
  ]

  sends-after_check :
      (b : Broadcast) (chat : TelegramChat) (reply : Reply AccessReport)
      → get_broadcast db target.broadcast_id ≡ some b
      → get_chat db target.chat_id ≡ some chat
      → is_active db b.user_id ≡ true
      → is_connected connection.status ≡ true
      → is_sending b.status ≡ true
      → (is_empty (strip u b.body_text) && not (has_media b)) ≡ false
      → adapter.check_destination_access (to_ref chat) ≡ reply
      → PostsAtMostOnce
          (after_check u settings adapter uniform now target connection b chat reply db).1.sends
  unfolding after_check handle_failure set_access put_chat log_send
  sends-after_check b chat (raised exc) fb fc ow co se ne ch = inl (
      sends-handle_classified settings uniform now target b chat.id connection settings.max_attempts
        db (classify_error u exc))
  sends-after_check b chat (returned access) fb fc ow co se ne ch =
      elim (Bool-cases access.allowed) [
        | inr e ↦ rw e (inl (sends-terminal now target access.reason_code b.id (some chat.id) _))
        | inl e ↦ rw e (
            inr (
              posting b target chat,
              record {
                broadcast = b;
                chat = chat;
                report = access;
                broadcast_found = fb;
                chat_found = fc;
                owner_active = ow;
                connected = co;
                sending = se;
                not_empty = ne;
                checked = ch;
                allowed = e;
                is_its_call = refl;
              },
              sends-conclude b chat _ _,
            ))
      ]

  sends-with_chat :
      (b : Broadcast) (chat : Option TelegramChat)
      → get_broadcast db target.broadcast_id ≡ some b
      → get_chat db target.chat_id ≡ chat
      → is_active db b.user_id ≡ true
      → is_connected connection.status ≡ true
      → is_sending b.status ≡ true
      → PostsAtMostOnce
          (with_chat u settings adapter uniform now target connection b chat db).1.sends
  unfolding with_chat
  sends-with_chat b none fb fc ow co se =
      inl (sends-terminal now target Reasons.destination_removed b.id none db)
  sends-with_chat b (some chat) fb fc ow co se =
      elim (Bool-cases (is_empty (strip u b.body_text) && not (has_media b))) [
        | inl e ↦
            rw e (inl (sends-terminal now target Reasons.broadcast_empty b.id (some chat.id) db))
        | inr e ↦ rw e (sends-after_check b chat _ fb fc ow co se e refl)
      ]

  sends-guarded :
      (b : Broadcast)
      → get_broadcast db target.broadcast_id ≡ some b
      → PostsAtMostOnce (guarded u settings adapter uniform now target connection b db).1.sends
  unfolding guarded
  sends-guarded b found = elim (Bool-cases (is_active db b.user_id)) [
    | inr ow ↦ rw ow (inl (sends-terminal now target Reasons.account_suspended b.id none db))
    | inl ow ↦ rw ow (elim (Bool-cases (is_connected connection.status)) [
      | inr co ↦
          rw co (inl (sends-terminal now target Reasons.connection_disconnected b.id none db))
      | inl co ↦ rw co (elim (Bool-cases (is_sending b.status)) [
        | inr se ↦ rw se (inl (sends-terminal now target Reasons.broadcast_inactive b.id none db))
        | inl se ↦ rw se (sends-with_chat b (get_chat db target.chat_id) found refl ow co se)
      ])
    ])
  ]

  -- Executing a target posts nothing, or makes exactly one call; and it makes one only if the
  -- broadcast exists and is sending and not empty, its owner is active, the connection is active, the
  -- chat is there, and the access check of the chat came back and allowed it. The call carries the
  -- broadcast's own text, entities and picture and the target's random id.
  pub execute_target_posts_guarded :
      PostsAtMostOnce (execute_target u settings adapter uniform now target connection db).1.sends
  unfolding execute_target terminal_without_broadcast put_target
  execute_target_posts_guarded = elim (Option-cases (get_broadcast db target.broadcast_id)) [
    | inl e ↦ rw (e, execute_target) (inl refl)
    | inr (b, e) ↦ rw (e, execute_target) (sends-guarded b e)
  ]
