-- ===== src/Broadcasts/Resuming.antt =====
-- When `resume_flood_paused` of repositories/broadcasts.py ends a pause.
use text.Mathlib.Text.{◌==◌ as str_eq}
use insightxadsflow.Reasons
use insightxadsflow.Prelude.{
  true, some, none, Option, String, ap, ◌∙◌, ◌⊎◌, ◌||◌, Bool-cases, count_where,
  find_where-update_where_if, inr, inl, Option-cases, ◌&&◌, ℕ, ◌≡◌, refl, Bool, false, List, [],
  ◌∷◌, arith, any, leb, ◌==◌, if◌then◌else◌,
}
use insightxadsflow.Models.{
  get_broadcast, BroadcastStatus, Broadcast, BroadcastTarget, Database, is_pending,
  is_broadcast_paused,
}
use insightxadsflow.Broadcasts.{resume_flood_paused, due, earliest, wait_is_over, is_flood_code}

-- A target of the broadcast that is pending and that a worker could take now.
abbrev pub is_ready : ℕ → ℕ → BroadcastTarget → Bool
is_ready now broadcast_id t =
    if t.broadcast_id == broadcast_id
    then (if is_pending t.work.status then leb t.work.not_before now else false)
    else false

due-earliest :
    (now broadcast_id : ℕ) (ts : List BroadcastTarget)
    → due now (earliest broadcast_id ts) ≡ any (is_ready now broadcast_id) ts
unfolding earliest
due-earliest now broadcast_id [] = refl
due-earliest now broadcast_id (t ∷ ts) = elim (Option-cases (earliest broadcast_id ts)) [
  | inl e ↦ rw (e, earliest) (ground (arith, e, due-earliest now broadcast_id ts))
  | inr (m, e) ↦ rw (e, earliest) (ground (arith, e, due-earliest now broadcast_id ts))
]

wait_is_over_lem :
    (now : ℕ) (db : Database) (b : Broadcast)
    → wait_is_over now db b ≡ (
        is_broadcast_paused b.status
        && is_flood_code b.paused_reason_code
        && any (is_ready now b.id) db.targets)
unfolding wait_is_over
wait_is_over_lem now db b = ground (arith, due-earliest now b.id db.targets)

abbrev pub names : String → Option String → Bool
names code none = false
names code (some reason) = str_eq reason code

count_where_same :
    (p q : Broadcast → Bool)
    → ((b : Broadcast) → p b ≡ q b)
    → (bs : List Broadcast) → count_where p bs ≡ count_where q bs
count_where_same p q same [] = refl
count_where_same p q same (b ∷ bs) = rw (same b, count_where_same p q same bs) refl

-- A paused broadcast is one of a flood wait, and a pending target of it is due.
abbrev pub is_resumable : ℕ → Database → Broadcast → Bool
is_resumable now db b =
    is_broadcast_paused b.status
    && (names Reasons.broadcast_flood_wait b.paused_reason_code
        || names Reasons.flood_wait_pause b.paused_reason_code)
    && any (is_ready now b.id) db.targets

flood_lem :
    (reason : Option String)
    → is_flood_code reason
      ≡ (names Reasons.broadcast_flood_wait reason || names Reasons.flood_wait_pause reason)
flood_lem none = refl
flood_lem (some code) = ground arith

is_resumable_lem :
    (now : ℕ) (db : Database) (b : Broadcast) → wait_is_over now db b ≡ is_resumable now db b
is_resumable_lem now db b =
    wait_is_over_lem now db b
    ∙ ap (λ flood. is_broadcast_paused b.status && flood && any (is_ready now b.id) db.targets)
        (flood_lem b.paused_reason_code)

-- One pass over the paused broadcasts: a broadcast whose row is in the table is sending afterwards and
-- has no reason, where it was paused for a flood wait and a pending target of it is due, no matter
-- which; every other row stays as it is. The number of the first comes back, and no target changes.
pub resume_flood_paused_lem :
    (now : ℕ) (db : Database) (i : ℕ) (b : Broadcast) (found : get_broadcast db i ≡ some b)
    → let (n, after) = resume_flood_paused now db in
      (n ≡ count_where (is_resumable now db) db.broadcasts)
      × (after.targets ≡ db.targets)
      × (((is_resumable now db b ≡ true)
            × (get_broadcast after i
                ≡ some (record b { status = BroadcastStatus.sending; paused_reason_code = none })))
          ⊎ ((is_resumable now db b ≡ false) × (get_broadcast after i ≡ some b)))
unfolding resume_flood_paused get_broadcast
resume_flood_paused_lem now db i b found =
    let after =
      find_where-update_where_if (λ r. r.id == i) (wait_is_over now db)
        (λ r. record r { status = BroadcastStatus.sending; paused_reason_code = none }) (λ r. refl)
        db.broadcasts b found in
    let same = is_resumable_lem now db b in
    (
      count_where_same (wait_is_over now db) (is_resumable now db) (is_resumable_lem now db)
          db.broadcasts,
      refl,
      elim (Bool-cases (is_resumable now db b)) [
        | inl e ↦ inl (e, after ∙ rw (same, e) refl)
        | inr e ↦ inr (e, after ∙ rw (same, e) refl)
      ],
    )
