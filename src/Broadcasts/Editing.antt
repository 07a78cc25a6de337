-- ===== src/Broadcasts/Editing.antt =====
-- What `replace_targets` of repositories/broadcasts.py keeps.
use insightxadsflow.Prelude.{
  ℕ, ◌+◌, ◌≡◌, refl, ◌∙◌, Bool, true, false, not, List, [], ◌∷◌, ◌++◌, Option, some, none, arith,
  ap, ◌==◌, if◌then◌else◌, find_where, update_where, delete_where, any, Bool-cases, inl, inr,
  ==_iff,
}
use insightxadsflow.Models.{Work, Broadcast, BroadcastTarget, Database}
use insightxadsflow.Leases.{mem_id}
use insightxadsflow.Broadcasts.{replace_targets}
use insightxadsflow.Broadcasts.Targets.{distinct, is_target, place}

-- The id of a row and what has happened to it; its position is left out.
abbrev pub history_of : Option BroadcastTarget → Option (ℕ × Work)
history_of none = none
history_of (some t) = some (t.id, t.work)

-- The row of a chat in a broadcast.
abbrev pub row_for : ℕ → ℕ → List BroadcastTarget → Option BroadcastTarget
row_for broadcast_id chat_id targets = find_where (is_target broadcast_id chat_id) targets

moved :
    (p : BroadcastTarget → Bool) (position broadcast_id chat_id : ℕ)
    (targets : List BroadcastTarget)
    → history_of (
        row_for broadcast_id chat_id
          (update_where p (λ t. record t { position = position }) targets))
      ≡ history_of (row_for broadcast_id chat_id targets)
unfolding is_target
moved p position b c [] = refl
moved p position b c (t ∷ ts) = ground (arith, moved p position b c ts)

appended :
    (broadcast_id chat_id : ℕ) (xs ys : List BroadcastTarget) {h : ℕ × Work}
    → history_of (row_for broadcast_id chat_id xs) ≡ some h
    → history_of (row_for broadcast_id chat_id (xs ++ ys)) ≡ some h
appended b c [] ys e = ground arith
appended b c (x ∷ xs) ys {h} e = elim (Bool-cases (is_target b c x)) [
  | inl k ↦ rw k (rw k at e)
  | inr k ↦ rw k (appended b c xs ys (rw k at e))
]

placed :
    (fresh : ℕ → ℕ) (now broadcast_id chat_id position : ℕ) (cs : List ℕ)
    (targets : List BroadcastTarget) {h : ℕ × Work}
    → history_of (row_for broadcast_id chat_id targets) ≡ some h
    → history_of (row_for broadcast_id chat_id (place fresh now broadcast_id position cs targets))
      ≡ some h
unfolding place
placed fresh now b c position [] targets e = e
placed fresh now b c position (d ∷ cs) targets e = elim (Bool-cases (any (is_target b d) targets)) [
  | inl k ↦
      rw k
        (placed fresh now b c (position + 1) cs _ (moved (is_target b d) position b c targets ∙ e))
  | inr k ↦ rw k (placed fresh now b c (position + 1) cs _ (appended b c targets _ e))
]

differs :
    (c d : ℕ) (seen : List ℕ) → mem_id d seen ≡ true → mem_id c seen ≡ false → (d == c) ≡ false
differs c d seen m h = elim (Bool-cases (d == c)) [
  | inr e ↦ e
  | inl e ↦
      let same : d ≡ c = (==_iff d c).0 e in
      let both : mem_id c seen ≡ true = rw same at m in ground arith
]

selected :
    (c : ℕ) (seen cs : List ℕ)
    → mem_id c seen ≡ false
    → mem_id c cs ≡ true
    → mem_id c (distinct seen cs) ≡ true
unfolding distinct
selected c seen [] h k = k
selected c seen (d ∷ cs) h k = elim (Bool-cases (mem_id d seen)) [
  | inl m ↦ let other = differs c d seen m h in rw m (selected c seen cs h (rw other at k))
  | inr m ↦ rw m (elim (Bool-cases (d == c)) [
    | inl e ↦ rw e refl
    | inr e ↦ rw e (selected c (d ∷ seen) cs (rw e h) (rw e at k))
  ])
]

undeleted :
    (b c : ℕ) (wanted : List ℕ) (targets : List BroadcastTarget)
    → mem_id c wanted ≡ true
    → row_for b c (
        delete_where
          (λ t. if t.broadcast_id == b then not (mem_id t.chat_id wanted) else false)
          targets)
      ≡ row_for b c targets
unfolding is_target
undeleted b c wanted [] h = refl
undeleted b c wanted (t ∷ ts) h = elim (Bool-cases (is_target b c t)) [
  | inl q ↦
      let same : (t.chat_id == c) ≡ true = ground arith in
      let chat : t.chat_id ≡ c = (==_iff t.chat_id c).0 same in
      let kept : mem_id t.chat_id wanted ≡ true = rw chat h in ground arith
  | inr q ↦ ground (arith, undeleted b c wanted ts h)
]

-- Editing the list of groups keeps, for each group that stays selected, the row that was there: its
-- id, its status, its attempts and its times.
pub replace_targets_keeps :
    (fresh : ℕ → ℕ) (now : ℕ) (broadcast : Broadcast) (chat_ids : List ℕ) (db : Database)
    (chat_id : ℕ) {h : ℕ × Work}
    → history_of (row_for broadcast.id chat_id db.targets) ≡ some h
    → mem_id chat_id chat_ids ≡ true
    → history_of
        (row_for broadcast.id chat_id (replace_targets fresh now broadcast chat_ids db).1.targets)
      ≡ some h
unfolding replace_targets
replace_targets_keeps fresh now broadcast chat_ids db c e k =
    let wanted = distinct [] chat_ids in
    placed fresh now broadcast.id c 0 wanted _ (
      ap history_of (undeleted broadcast.id c wanted db.targets (selected c [] chat_ids refl k))
      ∙ e)
