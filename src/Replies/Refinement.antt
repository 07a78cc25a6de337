-- ===== src/Replies/Refinement.antt =====
-- repositories/autoreply.py: claiming and releasing do to the log what they promise to do to the map.
use insightxadsflow.Prelude.{
  ℕ, ◌+◌, ◌*◌, ◌≡◌, refl, ap, ◌∙◌, Bool, true, false, List, [], ◌∷◌, ◌++◌, some, none,
  if◌then◌else◌, leb, ltb, inl, inr, arith, Bool-cases, Option-cases, find_where, update_where,
  delete_where, count_where, find_where-add, find_where-add_other, count_where-add,
  find_where-update_where_other, find_where-update_where_hit, find_where-delete_where_other,
  find_where-delete_where_only, find_where-none, count_where-delete_where_le,
  count_where-update_where_same, count_where_only, find_where_passes, count_where-narrow,
}
use insightxadsflow.Models.{AutoReplyLog, second}
use insightxadsflow.Replies.Slots.{
  SlotKey, same_key, key_of, is_slot, first_answer, answered_again, claim_slot, release_slot,
  parked, is_only_answer,
}
use insightxadsflow.Replies.Views.{
  view, view_row, claim_spec, release_spec, set_slot, IsKeyed, same_key_lem, same_key_refl,
  is_slot_apart, is_slot_other,
}

view-add :
    (now : ℕ) (k l : SlotKey) (rows : List AutoReplyLog)
    → find_where (is_slot k) rows ≡ none
    → view (rows ++ first_answer now k ∷ []) l ≡ set_slot k (some (now, 1)) (view rows) l
unfolding view
view-add now k l rows e = elim (Bool-cases (same_key l k)) [
  | inl h ↦
      rw
        (
          same_key_lem l k h,
          find_where-add (is_slot k) (first_answer now k) rows e,
          same_key_refl k,
        )
        refl
  | inr h ↦ rw (h, find_where-add_other (is_slot l) (first_answer now k) h rows) refl
]

-- An update of the row of a person to a row with other values.
view-update :
    (f : AutoReplyLog → AutoReplyLog) (k l : SlotKey) (rows : List AutoReplyLog)
    → ((x : AutoReplyLog) → key_of (f x) ≡ key_of x)
    → (row : AutoReplyLog) → find_where (is_slot k) rows ≡ some row
    → view (update_where (is_slot k) f rows) l ≡ set_slot k (view_row (some (f row))) (view rows) l
unfolding view
view-update f k l rows keeps row e = elim (Bool-cases (same_key l k)) [
  | inl h ↦
      rw
        (
          h,
          same_key_lem l k h,
          find_where-update_where_hit (is_slot k) f (λ x. ap (same_key k) (keeps x)) rows row e,
        )
        refl
  | inr h ↦
      rw
        (
          h,
          find_where-update_where_other (is_slot l) (is_slot k) f (is_slot_apart k l h)
              (λ x hit. ap (same_key l) (keeps x) ∙ is_slot_apart k l h x hit) rows,
        )
        refl
]

IsKeyed-add :
    (now : ℕ) (k : SlotKey) (rows : List AutoReplyLog)
    → find_where (is_slot k) rows ≡ none
    → IsKeyed rows
    → IsKeyed (rows ++ first_answer now k ∷ [])
unfolding IsKeyed
IsKeyed-add now k rows e keyed l = elim (Bool-cases (same_key l k)) [
  | inl h ↦
      rw
        (
          count_where-add (is_slot l) (first_answer now k) rows,
          h,
          same_key_lem l k h,
          find_where-none (is_slot k) rows e,
        )
        (omega arith)
  | inr h ↦ rw (count_where-add (is_slot l) (first_answer now k) rows, h) (keyed l)
]

IsKeyed-update :
    (f : AutoReplyLog → AutoReplyLog) (p : AutoReplyLog → Bool) (rows : List AutoReplyLog)
    → ((x : AutoReplyLog) → key_of (f x) ≡ key_of x)
    → IsKeyed rows
    → IsKeyed (update_where p f rows)
unfolding IsKeyed
IsKeyed-update f p rows keeps keyed l =
    rw (count_where-update_where_same p (is_slot l) f (λ x. ap (same_key l) (keeps x)) rows)
      (keyed l)

-- Claiming a slot of a log that has one row for each person at most answers as the specification does, turns the log into
-- one that stands for the specification's map, and leaves one row for each person at most.
pub claim_slot-claim_spec :
    (now : ℕ) (k : SlotKey) (cooldown_s : ℕ) (rows : List AutoReplyLog) (keyed : IsKeyed rows)
    → ((claim_slot now k cooldown_s rows).0 ≡ (claim_spec now k cooldown_s (view rows)).0)
      × ((l : SlotKey)
          → view (claim_slot now k cooldown_s rows).1 l
            ≡ (claim_spec now k cooldown_s (view rows)).1 l)
      × IsKeyed (claim_slot now k cooldown_s rows).1
unfolding claim_slot view
claim_slot-claim_spec now k cooldown_s rows keyed =
    elim (Option-cases (find_where (is_slot k) rows)) [
      | inl e ↦
          rw (e, claim_slot, claim_spec, view)
            (refl, λ l. view-add now k l rows e, IsKeyed-add now k rows e keyed)
      | inr (row, e) ↦
          rw (e, claim_slot, claim_spec, view)
            (elim (Bool-cases (ltb (row.replied_at + cooldown_s * second) now)) [
              | inl h ↦ rw h (
                refl,
                λ l. view-update (answered_again now) k l rows (λ x. refl) row e,
                IsKeyed-update (answered_again now) (is_slot k) rows (λ x. refl) keyed,
              )
              | inr h ↦ rw h (refl, λ l. refl, keyed)
            ])
    ]

IsKeyed-delete :
    (p : AutoReplyLog → Bool) (rows : List AutoReplyLog)
    → IsKeyed rows
    → IsKeyed (delete_where p rows)
unfolding IsKeyed
IsKeyed-delete p rows keyed l =
    omega (arith, keyed l, count_where-delete_where_le (is_slot l) p rows)

only_is_slot : (k : SlotKey) (x : AutoReplyLog) → is_only_answer k x ≡ true → is_slot k x ≡ true
only_is_slot k x h = ground arith

-- The only answer to a person is deleted.
view-delete :
    (k l : SlotKey) (rows : List AutoReplyLog)
    → IsKeyed rows
    → (row : AutoReplyLog) → find_where (is_slot k) rows ≡ some row
    → is_only_answer k row ≡ true
    → view (delete_where (is_only_answer k) rows) l ≡ set_slot k none (view rows) l
unfolding view IsKeyed
view-delete k l rows keyed row e only = elim (Bool-cases (same_key l k)) [
  | inl h ↦
      rw
        (
          h,
          same_key_lem l k h,
          find_where-delete_where_only (is_slot k) (is_only_answer k) rows row (keyed k) e only,
        )
        refl
  | inr h ↦
      rw
        (
          h,
          find_where-delete_where_other (is_slot l) (is_only_answer k)
              (λ x hit. rw (is_slot_other k l h x hit) refl) rows,
        )
        refl
]

update_none :
    (f : AutoReplyLog → AutoReplyLog) (k : SlotKey) (rows : List AutoReplyLog)
    → count_where (is_slot k) rows ≡ 0
    → update_where (is_slot k) f rows ≡ rows
update_none f k [] e = refl
update_none f k (x ∷ rows) e = ground (arith, update_none f k rows)

only_counted :
    (k : SlotKey) (rows : List AutoReplyLog)
    → IsKeyed rows
    → (row : AutoReplyLog) → find_where (is_slot k) rows ≡ some row
    → count_where (is_only_answer k) rows ≡ (if leb row.reply_count 1 then 1 else 0)
unfolding IsKeyed
only_counted k rows keyed row e =
    count_where_only (is_slot k) (is_only_answer k) rows row (only_is_slot k) (keyed k) e
    ∙ ap (λ b. if (if b then leb row.reply_count 1 else false) then 1 else 0)
        (find_where_passes (is_slot k) rows row e)

only_passes :
    (k : SlotKey) (rows : List AutoReplyLog) (row : AutoReplyLog)
    → find_where (is_slot k) rows ≡ some row
    → leb row.reply_count 1 ≡ true
    → is_only_answer k row ≡ true
only_passes k rows row e h = rw (find_where_passes (is_slot k) rows row e) h

release_none :
    (k : SlotKey) (rows : List AutoReplyLog)
    → find_where (is_slot k) rows ≡ none
    → release_slot k rows ≡ rows
unfolding release_slot
release_none k rows e = ground (
  arith,
  update_none parked k rows,
  find_where-none (is_slot k) rows e,
  count_where-narrow (is_slot k) (is_only_answer k) (only_is_slot k) rows,
)

-- Releasing a slot of a log that has one row for each person at most turns it into a log that stands
-- for the specification's map, and leaves one row for each person at most.
pub release_slot-release_spec :
    (k : SlotKey) (rows : List AutoReplyLog) (keyed : IsKeyed rows)
    → ((l : SlotKey) → view (release_slot k rows) l ≡ release_spec k (view rows) l)
      × IsKeyed (release_slot k rows)
unfolding release_slot view
release_slot-release_spec k rows keyed = elim (Option-cases (find_where (is_slot k) rows)) [
  | inl e ↦ rw (e, release_spec, release_slot, view, release_none k rows e) (λ l. refl, keyed)
  | inr (row, e) ↦ elim (Bool-cases (leb row.reply_count 1)) [
    | inl h ↦
        rw (e, release_spec, release_slot, view, only_counted k rows keyed row e, h)
          (
            λ l. view-delete k l rows keyed row e (only_passes k rows row e h),
            IsKeyed-delete (is_only_answer k) rows keyed,
          )
    | inr h ↦
        rw (e, release_spec, release_slot, view, only_counted k rows keyed row e, h)
          (
            λ l. view-update parked k l rows (λ x. refl) row e,
            IsKeyed-update parked (is_slot k) rows (λ x. refl) keyed,
          )
  ]
]
