-- ===== src/Events/Frames.antt =====
-- What an alert leaves alone.
use insightxadsflow.Prelude.{
  ℕ, true, refl, arith, ==-refl, String, ◌≡◌, List, ◌++◌, [], ◌∷◌, Bool-cases, inl, inr,
}
use insightxadsflow.Models.{AdminNotification, Database}
use text.Mathlib.TextEquality.{eq_iff}
use insightxadsflow.Events.{notify, has_alert, same_strings, same_numbers}

-- An alert writes the table of alerts and nothing else.
pub notify_frame :
    (a : AdminNotification) (db : Database)
    → (n : List AdminNotification) × (notify a db ≡ record db { notifications = n })
unfolding notify
notify_frame a db = elim (Bool-cases (has_alert a.dedupe_key db.notifications)) [
  | inl e ↦ (db.notifications, rw e)
  | inr e ↦ (db.notifications ++ a ∷ [], rw e)
]

same_strings_refl : (s : List String) → same_strings s s ≡ true
unfolding same_strings
same_strings_refl [] = refl
same_strings_refl (a ∷ s) = rw ((eq_iff a a).1 refl, same_strings_refl s) refl

same_numbers_refl : (n : List ℕ) → same_numbers n n ≡ true
unfolding same_numbers
same_numbers_refl [] = refl
same_numbers_refl (a ∷ n) = rw (==-refl a, same_numbers_refl n) refl

has_alert_last :
    (a : AdminNotification) (alerts : List AdminNotification)
    → has_alert a.dedupe_key (alerts ++ a ∷ []) ≡ true
unfolding has_alert
has_alert_last a [] = rw (same_strings_refl a.dedupe_key.0, same_numbers_refl a.dedupe_key.1) refl
has_alert_last a (b ∷ alerts) = ground (arith, has_alert_last a alerts)

-- After an alert there is one with its key.
pub has_alert-notify :
    (a : AdminNotification) (db : Database)
    → has_alert a.dedupe_key (notify a db).notifications ≡ true
unfolding notify
has_alert-notify a db = elim (Bool-cases (has_alert a.dedupe_key db.notifications)) [
  | inl e ↦ rw e e
  | inr e ↦ rw e (has_alert_last a db.notifications)
]
