-- ===== src/Delivery/Sends.antt =====
-- Handling a failure in services/delivery.py posts nothing.
use insightxadsflow.Prelude.{
  ◌+◌, ◌*◌, leb, ap, ℕ, ◌≡◌, refl, inl, inr, Option, some, none, arith, String, Bool-cases,
}
use insightxadsflow.Models.{
  second, is_rule_paused, is_retryable, put_rule, AdminNotification, is_paused_safety, Settings,
  TelegramConnection, ForwardingRule, ForwardingJob, Database, get_rule,
}
use insightxadsflow.Errors.{is_rate_limit, ClassifiedError}
use insightxadsflow.Reasons
use insightxadsflow.Events.{notify, record_event}
use insightxadsflow.Events.Frames.{notify_frame}
use insightxadsflow.Safety.{
  pause_rule, pause_connection, pause_found_rule, note_failure, note_connection_failure,
}
use insightxadsflow.Delivery.Failure.{
  handle_classified, wait_out, retry_or_give_up, wait_or_default, is_auth,
}

pub sends-notify : (a : AdminNotification) (db : Database) → (notify a db).sends ≡ db.sends
sends-notify a db = let (n, e) = notify_frame a db in ap (λ (d : Database). d.sends) e

sends-pause_found_rule :
    (now : ℕ) (reason : String) (rule : Option ForwardingRule) (db : Database)
    → (pause_found_rule now reason rule db).sends ≡ db.sends
unfolding pause_found_rule record_event put_rule
sends-pause_found_rule now reason none db = refl
sends-pause_found_rule now reason (some rule) db = elim (Bool-cases (is_rule_paused rule.status)) [
  | inl e ↦ rw e
  | inr e ↦ rw e (sends-notify _ _)
]

pub sends-pause_rule :
    (now rule_id : ℕ) (reason : String) (db : Database)
    → (pause_rule now rule_id reason db).sends ≡ db.sends
unfolding pause_rule
sends-pause_rule now rule_id reason db = sends-pause_found_rule now reason (get_rule db rule_id) db

pub sends-pause_connection :
    (now : ℕ) (c : TelegramConnection) (reason : String) (db : Database)
    → (pause_connection now c reason db).sends ≡ db.sends
unfolding pause_connection
sends-pause_connection now c reason db = elim (Bool-cases (is_paused_safety c.status)) [
  | inl e ↦ rw e
  | inr e ↦ rw e (sends-notify _ _)
]

pub sends-note_failure :
    (settings : Settings) (now rule_id : ℕ) (c : TelegramConnection) (db : Database)
    → (note_failure settings now rule_id c db).sends ≡ db.sends
unfolding note_failure
sends-note_failure settings now rule_id c db =
    ground (arith, sends-pause_rule now rule_id Reasons.safety_pause (note_connection_failure c db))

module _ (settings : Settings) (uniform : ℕ → ℕ) (now : ℕ) (job : ForwardingJob)
    (rule_id destination_id : ℕ) (connection : TelegramConnection) (max_attempts : ℕ)
    (db : Database) where
  sends-wait_out :
      (c : ClassifiedError)
      → (wait_out settings uniform now job rule_id destination_id c db).1.sends ≡ db.sends
  unfolding wait_out
  sends-wait_out c =
      elim (Bool-cases
        (leb (settings.flood_wait_pause_threshold_s * second) (wait_or_default c.retry_after_s))) [
          | inl e ↦ rw e (sends-pause_rule now rule_id Reasons.flood_wait_pause db)
          | inr e ↦ rw e
        ]

  sends-retry_or_give_up :
      (c : ClassifiedError)
      → (retry_or_give_up settings uniform now job rule_id destination_id c connection max_attempts
          db).1.sends
        ≡ db.sends
  unfolding retry_or_give_up
  sends-retry_or_give_up c = elim (Bool-cases (leb max_attempts (job.work.attempt_count + 1))) [
    | inl e ↦ rw e (sends-note_failure settings now rule_id connection _)
    | inr e ↦ rw e
  ]

  -- Handling a failure posts nothing.
  pub sends-handle_classified :
      (c : ClassifiedError)
      → (handle_classified settings uniform now job rule_id destination_id c connection max_attempts
          db).1.sends
        ≡ db.sends
  unfolding handle_classified
  sends-handle_classified c = elim (Bool-cases (is_auth c.error_class)) [
    | inl e ↦ rw e (sends-pause_connection now connection Reasons.auth_pause db)
    | inr e ↦ rw e (elim (Bool-cases (is_retryable c.error_class)) [
      | inr f ↦ rw f
      | inl f ↦ rw f (elim (Bool-cases (is_rate_limit c.error_class)) [
        | inl g ↦ rw g (sends-wait_out c)
        | inr g ↦ rw g (sends-retry_or_give_up c)
      ])
    ])
  ]
