-- ===== src/RateLimit.antt =====
-- security/ratelimit.py: the fixed-window counter in front of the application.
pub mod Windows
use insightxadsflow.Prelude.{
  ℕ, suc, ◌-◌, Bool, true, false, List, [], ◌∷◌, ◌++◌, Option, none, some, if◌then◌else◌, ltb, ◌*◌,
}
use insightxadsflow.Prelude.Int.{ℤ, pos}
use insightxadsflow.Models.{Text}
use insightxadsflow.Text.{codes, same_text}

-- The named tuple of the source; its window is in seconds.
pub record Quota : Type 0 where
  pub limit : ℕ
  pub window_s : ℕ

abbrev quota : ℕ → ℕ → Quota
quota limit window_s = record { limit = limit; window_s = window_s }

abbrev default_quota : Quota
default_quota = quota 600 60

-- `LIMITS`
abbrev limits : List (Text × Quota)
limits =
    (codes "login", quota 5 (15 * 60))
    ∷ (codes "register", quota 3 (60 * 60))
    ∷ (codes "connection_create", quota 5 (60 * 60))
    ∷ (codes "chat_sync", quota 4 (60 * 60))
    ∷ (codes "rule_create", quota 30 (60 * 60))
    ∷ (codes "control", quota 60 60)
    ∷ (codes "bot_update", quota 60 60)
    ∷ (codes "default", default_quota)
    ∷ []

abbrev find_quota : Text → List (Text × Quota) → Quota
find_quota bucket [] = default_quota
find_quota bucket ((name, q) ∷ rest) =
    let later = find_quota bucket rest in if same_text bucket name then q else later

-- `LIMITS.get(bucket, LIMITS["default"])`
unfoldable pub quota_of : Text → Quota
unfolding same_text
quota_of bucket = find_quota bucket limits

pub record RateLimitResult : Type 0 where
  pub allowed : Bool
  pub remaining : ℕ
  pub retry_after_s : ℕ

-- The calls of the Redis client that the code makes, on the server's state: INCR and TTL in one
-- transaction, EXPIRE, and DEL. `none` and `false` are an exception.
pub record Redis (S : Type 0) : Type 0 where
  pub incr_and_ttl : Text → S → Option (ℕ × Option ℤ) × S
  pub expire : Text → ℕ → S → Bool × S
  pub delete : Text → S → S

unfoldable pub rate_key : Text → Text → Text
rate_key bucket identity = codes "rl:" ++ bucket ++ b':' ∷ identity

-- `ttl is None or ttl < 0` is `none`.
abbrev pub seconds_left : Option ℤ → Option ℕ
seconds_left (some (pos n)) = some n
seconds_left _ = none

-- What is answered where Redis fails.
abbrev pub unavailable : Quota → RateLimitResult
unavailable q = record { allowed = true; remaining = q.limit; retry_after_s = 0 }

unfoldable pub judged : Quota → ℕ → ℕ → RateLimitResult
judged q count ttl =
    if ltb q.limit count
    then record { allowed = false; remaining = 0; retry_after_s = ttl }
    else record { allowed = true; remaining = q.limit - count; retry_after_s = ttl }

module _ {S : Type 0} (client : Redis S) where
  -- From the answer of the pipeline on.
  unfoldable pub after_pipeline : Quota → Text → ℕ → Option ℕ → S → RateLimitResult × S
  unfolding judged
  after_pipeline q key count (some ttl) s = (judged q count ttl, s)
  after_pipeline q key count none s =
      let (done, s₁) = client.expire key q.window_s s in
      if done then (judged q count q.window_s, s₁) else (unavailable q, s₁)

  abbrev after_incr : Quota → Text → Option (ℕ × Option ℤ) × S → RateLimitResult × S
  after_incr q key (none, s) = (unavailable q, s)
  after_incr q key (some (count, ttl), s) = after_pipeline q key count (seconds_left ttl) s

  unfoldable pub check_rate_limit : Text → Text → S → RateLimitResult × S
  unfolding after_pipeline rate_key quota_of
  check_rate_limit bucket identity s =
      let key = rate_key bucket identity in
      after_incr (quota_of bucket) key (client.incr_and_ttl key s)

  unfoldable pub reset_rate_limit : Text → Text → S → S
  unfolding rate_key
  reset_rate_limit bucket identity s = client.delete (rate_key bucket identity) s
