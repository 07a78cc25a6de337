-- ===== src/RateLimit/Windows.antt =====
-- security/ratelimit.py: what passes within one window.
use insightxadsflow.Prelude.{
  ℕ, suc, ◌-◌, ◌≤◌, ◌≡◌, sym, ◌∙◌, Bool, true, false, ◌&&◌, List, [], ◌∷◌, Option, none, some,
  if◌then◌else◌, arith, refl,
}
use insightxadsflow.Prelude.Int.{ℤ}
use insightxadsflow.Models.{Text}
use insightxadsflow.Text.{same_text}
use insightxadsflow.Text.Laws.{eq_of_same_text}
use insightxadsflow.RateLimit.{
  Quota, Redis, check_rate_limit, after_pipeline, seconds_left, quota_of, rate_key, judged,
}

-- What Redis documents of a counter while its key does not expire and nobody deletes it: INCR adds one
-- and answers the new value, no command on a key lowers the counter of another, EXPIRE changes none,
-- and every command is answered.
pub record IsCounting {S : Type 0} (client : Redis S) (counter : Text → S → ℕ)
    (ttl : Text → S → Option ℤ) : Type 0 where
  pub answered :
      (key : Text) (s : S) → (client.incr_and_ttl key s).0 ≡ some (suc (counter key s), ttl key s)
  pub counted :
      (key : Text) (s : S) → counter key (client.incr_and_ttl key s).1 ≡ suc (counter key s)
  pub kept :
      (key other : Text) (s : S) → counter key s ≤ counter key (client.incr_and_ttl other s).1
  pub expires : (key : Text) (n : ℕ) (s : S) → (client.expire key n s).0 ≡ true
  pub unexpired :
      (key other : Text) (n : ℕ) (s : S) → counter key (client.expire other n s).1 ≡ counter key s

-- How many of the calls, each with its bucket and identity, are for one bucket and identity and are
-- allowed.
unfoldable pub granted : {S : Type 0} → Redis S → Text → Text → List (Text × Text) → S → ℕ
unfolding check_rate_limit same_text
granted client bucket identity [] s = 0
granted client bucket identity ((bucket', identity') ∷ rest) s =
    let (result, s₁) = check_rate_limit client bucket' identity' s in
    let later = granted client bucket identity rest s₁ in
    if same_text bucket bucket' && same_text identity identity' && result.allowed
    then suc later
    else later

count_one :
    (limit before after later : ℕ) (a b allowed : Bool)
    → later ≤ limit - after
    → before ≤ after
    → (a ≡ true → b ≡ true → allowed ≡ true → (after ≡ suc before) × (suc before ≤ limit))
    → (if a && b && allowed then suc later else later) ≤ limit - before
count_one limit before after later true true true rest grows own =
    let (counted, room) = own refl refl refl in omega (arith, counted, room, rest)
count_one limit before after later true true false rest grows own = omega arith
count_one limit before after later true false allowed rest grows own = omega arith
count_one limit before after later false b allowed rest grows own = omega arith

module _ {S : Type 0} (client : Redis S) (counter : Text → S → ℕ) (ttl : Text → S → Option ℤ)
    (counting : IsCounting client counter ttl) where
  judged_allowed : (q : Quota) (count n : ℕ) → (judged q count n).allowed ≡ true → count ≤ q.limit
  unfolding judged
  judged_allowed q count n h = ground arith

  after_pipeline_lem :
      (q : Quota) (key other : Text) (count : ℕ) (left : Option ℕ) (s : S)
      → (counter other (after_pipeline client q key count left s).1 ≡ counter other s)
        × ((after_pipeline client q key count left s).0.allowed ≡ true → count ≤ q.limit)
  unfolding after_pipeline
  after_pipeline_lem q key other count (some n) s = (refl, judged_allowed q count n)
  after_pipeline_lem q key other count none s =
      rw (counting.expires key q.window_s s)
        (counting.unexpired other key q.window_s s, judged_allowed q count q.window_s)

  check_lem :
      (bucket identity other : Text) (s : S)
      → let key = rate_key bucket identity in
        (counter other (check_rate_limit client bucket identity s).1
          ≡ counter other (client.incr_and_ttl key s).1)
        × ((check_rate_limit client bucket identity s).0.allowed ≡ true
            → suc (counter key s) ≤ (quota_of bucket).limit)
  unfolding check_rate_limit
  check_lem bucket identity other s =
      let key = rate_key bucket identity in
      rw (counting.answered key s) (
        after_pipeline_lem (quota_of bucket) key other (suc (counter key s))
          (seconds_left (ttl key s)) (client.incr_and_ttl key s).1)

  -- A call that is allowed for the key itself counts one, and there was room for it.
  own_lem :
      (bucket identity bucket' identity' : Text) (s : S)
      → bucket ≡ bucket'
      → identity ≡ identity'
      → (check_rate_limit client bucket' identity' s).0.allowed ≡ true
      → let key = rate_key bucket identity in
        (counter key (check_rate_limit client bucket' identity' s).1 ≡ suc (counter key s))
        × (suc (counter key s) ≤ (quota_of bucket).limit)
  own_lem bucket identity bucket' identity' s eb ei =
      let key = rate_key bucket identity in
      let (counts, room) = check_lem bucket identity key s in
      rw (sym eb, sym ei) (λ h. (counts ∙ counting.counted key s, room h))

  kept_lem :
      (bucket identity other : Text) (s : S)
      → counter other s ≤ counter other (check_rate_limit client bucket identity s).1
  kept_lem bucket identity other s =
      rw ((check_lem bucket identity other s).0) (counting.kept other (rate_key bucket identity) s)

  -- As long as the server answers and the key does not expire, the calls that are allowed for one bucket
  -- and identity, among whatever calls for whatever buckets and identities, are at most what the
  -- bucket's limit leaves above the key's counter.
  pub granted_bounded :
      (bucket identity : Text) (calls : List (Text × Text)) (s : S)
      → granted client bucket identity calls s
        ≤ (quota_of bucket).limit - counter (rate_key bucket identity) s
  unfolding granted
  granted_bounded bucket identity [] s = omega arith
  granted_bounded bucket identity ((bucket', identity') ∷ rest) s =
      let key = rate_key bucket identity in
      let (result, s₁) = check_rate_limit client bucket' identity' s in
      count_one (quota_of bucket).limit (counter key s) (counter key s₁)
        (granted client bucket identity rest s₁) (same_text bucket bucket')
        (same_text identity identity') result.allowed (granted_bounded bucket identity rest s₁)
        (kept_lem bucket' identity' key s)
        (λ hb hi.
          own_lem bucket identity bucket' identity' s (eq_of_same_text bucket bucket' hb)
            (eq_of_same_text identity identity' hi))
