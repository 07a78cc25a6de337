-- ===== src/Replies/Specs.antt =====
-- The specification of the log of repositories/autoreply.py, key by key.
use insightxadsflow.Prelude.{
  ℕ, ◌+◌, ◌*◌, ◌≤◌, ◌≡◌, refl, inl, inr, true, false, List, [], ◌∷◌, some, ltb, leb, arith,
  Bool-cases, Option-cases, delete_where,
}
use insightxadsflow.Models.{AutoReplyLog, second}
use insightxadsflow.Replies.Slots.{SlotKey, same_key, is_old}
use insightxadsflow.Replies.Views.{Slots, view, claim_spec, release_spec, same_key_refl}

pub claim_spec_other :
    (now : ℕ) (k l : SlotKey) (cooldown_s : ℕ) (slots : Slots)
    → same_key l k ≡ false
    → (claim_spec now k cooldown_s slots).1 l ≡ slots l
claim_spec_other now k l cooldown_s slots apart = elim (Option-cases (slots k)) [
  | inl e ↦ rw (claim_spec, e, apart) refl
  | inr ((t, n), e) ↦ elim (Bool-cases (ltb (t + cooldown_s * second) now)) [
    | inl h ↦ rw (claim_spec, e, h, apart) refl
    | inr h ↦ rw (claim_spec, e, h) refl
  ]
]

pub release_spec_other :
    (k l : SlotKey) (slots : Slots) → same_key l k ≡ false → release_spec k slots l ≡ slots l
release_spec_other k l slots apart = elim (Option-cases (slots k)) [
  | inl e ↦ rw (release_spec, e) refl
  | inr ((t, n), e) ↦ elim (Bool-cases (leb n 1)) [
    | inl h ↦ rw (release_spec, e, h, apart) refl
    | inr h ↦ rw (release_spec, e, h, apart) refl
  ]
]

-- No claim succeeds up to `cooldown_s` after the last answer.
pub claim_spec_early :
    (now t n : ℕ) (k : SlotKey) (cooldown_s : ℕ) (slots : Slots)
    → slots k ≡ some (t, n)
    → now ≤ t + cooldown_s * second
    → (claim_spec now k cooldown_s slots).0 ≡ false
claim_spec_early now t n k cooldown_s slots e early =
    elim (Bool-cases (ltb (t + cooldown_s * second) now)) [
      | inl h ↦ ground arith
      | inr h ↦ rw (claim_spec, e, h) refl
    ]

-- A claim that succeeds notes its time.
pub claim_spec_hit :
    (now : ℕ) (k : SlotKey) (cooldown_s : ℕ) (slots : Slots)
    → (claim_spec now k cooldown_s slots).0 ≡ true
    → (n : ℕ) × ((claim_spec now k cooldown_s slots).1 k ≡ some (now, n))
claim_spec_hit now k cooldown_s slots hit = elim (Option-cases (slots k)) [
  | inl e ↦ rw (claim_spec, e, same_key_refl k) (1, refl)
  | inr ((t, n), e) ↦ elim (Bool-cases (ltb (t + cooldown_s * second) now)) [
    | inl h ↦ rw (claim_spec, e, h, same_key_refl k) (_, refl)
    | inr h ↦ ground (arith, claim_spec_early now t n k cooldown_s slots e)
  ]
]

-- A purge keeps what is newer than the cooldown.
pub view-purge :
    (now days t n : ℕ) (k : SlotKey) (rows : List AutoReplyLog)
    → now ≤ t + days * 86400 * second
    → view rows k ≡ some (t, n)
    → view (delete_where (is_old now days) rows) k ≡ some (t, n)
unfolding view
view-purge now days t n k [] new e = ground arith
view-purge now days t n k (x ∷ rows) new e = ground (arith, view-purge now days t n k rows new)
