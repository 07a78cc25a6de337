-- ===== src/EdgeExamples.antt =====
-- The theorems on links and on rate limits at work.
use insightxadsflow.Prelude.{
  ℕ, suc, ◌-◌, ◌≤◌, ◌≡◌, refl, true, List, [], ◌∷◌, Option, none, some, if◌then◌else◌, arith,
  Bool-cases, inl, inr,
}
use insightxadsflow.Prelude.Int.{ℤ, pos, negsuc}
use insightxadsflow.Models.{Text}
use insightxadsflow.Text.{codes, same_text}
use insightxadsflow.Text.Laws.{same_text_refl}
use insightxadsflow.MessageLinks.{link_for}
use insightxadsflow.MessageLinks.Reading.{read_link, read_link-link_for}
use insightxadsflow.AccessRequests.{AccessRequest, AccessRequestStatus, Ask, get}
use insightxadsflow.AccessRequests.Decisions.{
  news, asked, decision_of, decisions_stand, reported_once,
}
use insightxadsflow.RateLimit.{Redis, quota_of, rate_key}
use insightxadsflow.RateLimit.Windows.{IsCounting, granted, granted_bounded}

abbrev group_id : ℤ
group_id = negsuc 1001234

read_link_example : read_link (codes "https://t.me/c/1235/12") ≡ some (group_id, 12)
unfolding link_for
read_link_example =
    read_link-link_for (codes "supergroup") group_id none 12 (codes "https://t.me/c/1235/12") refl

-- A server that keeps every counter.
abbrev count_at : Text → (Text → ℕ) → Text → ℕ
count_at key s other = if same_text other key then suc (s other) else s other

abbrev server : Redis (Text → ℕ)
server = record {
  incr_and_ttl = λ key s. (some (suc (s key), some (pos 60)), count_at key s);
  expire = λ key n s. (true, s);
  delete = λ key s other. if same_text other key then 0 else s other;
}

abbrev counter : Text → (Text → ℕ) → ℕ
counter key s = s key

abbrev a_minute : Text → (Text → ℕ) → Option ℤ
a_minute key s = some (pos 60)

counter_grows : (key other : Text) (s : Text → ℕ) → s key ≤ count_at other s key
counter_grows key other s = elim (Bool-cases (same_text key other)) [
  | inl e ↦ rw e (omega arith)
  | inr e ↦ rw e (omega arith)
]

server-IsCounting : IsCounting server counter a_minute
server-IsCounting = record {
  answered = λ key s. refl;
  counted = λ key s. rw (same_text_refl key) refl;
  kept = λ key other s. counter_grows key other s;
  expires = λ key n s. refl;
  unexpired = λ key other n s. refl;
}

abbrev unused : Text → ℕ
unused key = 0

abbrev attempts : List (Text × Text)
attempts =
    (codes "login", codes "ann") ∷ (codes "login", codes "bob") ∷ (codes "login", codes "ann") ∷ []

granted_example :
    granted server (codes "login") (codes "ann") attempts unused
    ≤ (quota_of (codes "login")).limit - unused (rate_key (codes "login") (codes "ann"))
granted_example =
    granted_bounded server counter a_minute server-IsCounting (codes "login") (codes "ann") attempts
      unused

abbrev denied_row : AccessRequest
denied_row = record {
  id = 1;
  telegram_user_id = 77;
  telegram_username = none;
  status = AccessRequestStatus.denied;
  decided_at = some 5;
  decided_by = some 2;
  created_at = 3;
}

abbrev asks : List Ask
asks =
    record { id = 2; now = 8; telegram_user_id = 77; username = some (codes "ann") }
    ∷ record { id = 3; now = 9; telegram_user_id = 78; username = none }
    ∷ []

decisions_stand_example :
    (news 77 asks (denied_row ∷ []) ≡ 0)
    × (decision_of (get (asked asks (denied_row ∷ [])) 77) ≡ decision_of (get (denied_row ∷ []) 77))
unfolding get
decisions_stand_example = decisions_stand 77 asks (denied_row ∷ []) refl

reported_once_example : news 78 asks (denied_row ∷ []) ≤ 1
reported_once_example = reported_once 78 asks (denied_row ∷ [])
