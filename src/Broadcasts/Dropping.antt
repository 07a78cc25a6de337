-- ===== src/Broadcasts/Dropping.antt =====
-- What `drop_chats` of repositories/broadcasts.py deletes.
use insightxadsflow.Prelude.{
  ℕ, ◌+◌, ◌≡◌, refl, inl, inr, Bool, true, false, ◌&&◌, not, List, [], ◌∷◌, some, none, arith, ◌==◌,
  if◌then◌else◌, find_where, delete_where, count_where, length, any, Bool-cases, All, Option,
  ==_iff, some_injective, subst, ◌∙◌,
}
use insightxadsflow.Models.{Broadcast, BroadcastTarget, Database, is_succeeded, get_target}
use insightxadsflow.Leases.{mem_id}
use insightxadsflow.Leases.Picks.{Unique}
use insightxadsflow.Broadcasts.{target_table, drop_chats, is_owned_by}

module _ {A : Type 0} where
  length-delete_where :
      (p : A → Bool) (xs : List A) → count_where p xs + length (delete_where p xs) ≡ length xs
  length-delete_where p [] = refl
  length-delete_where p (x ∷ xs) = ground (arith, length-delete_where p xs)

  found_before :
      (q p : A → Bool) (xs : List A)
      → find_where q xs ≡ none
      → find_where q (delete_where p xs) ≡ none
  found_before q p [] h = h
  found_before q p (x ∷ xs) h = ground (arith, found_before q p xs)

  kept_row :
      (q p : A → Bool) (xs : List A) {a : A}
      → find_where q xs ≡ some a
      → p a ≡ false
      → find_where q (delete_where p xs) ≡ some a
  kept_row q p [] h k = h
  kept_row q p (x ∷ xs) {a} h k = ground (arith, kept_row q p xs {a = a})

no_other :
    (i : ℕ) (ts : List BroadcastTarget)
    → All (λ t. (t.id == i) ≡ false) ts
    → find_where (λ t. t.id == i) ts ≡ none
no_other i [] h = refl
no_other i (t ∷ ts) (h, k) = ground (arith, no_other i ts k)

-- In a table with distinct ids a deleted row is found no more.
dropped_row :
    (i : ℕ) (p : BroadcastTarget → Bool) (ts : List BroadcastTarget) (t : BroadcastTarget)
    → Unique target_table ts
    → find_where (λ r. r.id == i) ts ≡ some t
    → p t ≡ true
    → find_where (λ r. r.id == i) (delete_where p ts) ≡ none
dropped_row i p [] t u h k = ground arith
dropped_row i p (r ∷ ts) t (fresh, u) h k = elim (Bool-cases (r.id == i)) [
  | inl e ↦
      let same : r ≡ t = some_injective (rw e at h) in
      let gone : p r ≡ true = rw same k in
      let here : r.id ≡ i = (==_iff r.id i).0 e in
      let fresh' : All (λ b. (b.id == i) ≡ false) ts =
        subst (λ j. All (λ b. (b.id == j) ≡ false) ts) here fresh in
      rw gone (found_before (λ b. b.id == i) p ts (no_other i ts fresh'))
  | inr e ↦
      let later = dropped_row i p ts t u (rw e at h) k in
      elim (Bool-cases (p r)) [ inl g ↦ rw g later | inr g ↦ rw (g, e) later ]
]

-- The target is of one of the chats, has not succeeded, and is of an ad of the user.
abbrev pub is_droppable : Database → ℕ → List ℕ → BroadcastTarget → Bool
is_droppable db user_id chat_ids t =
    any (λ c. c == t.chat_id) chat_ids
    && not (is_succeeded t.work.status)
    && any (λ b. b.id == t.broadcast_id && b.user_id == user_id) db.broadcasts

any_same :
    (p q : Broadcast → Bool)
    → ((b : Broadcast) → p b ≡ q b)
    → (bs : List Broadcast) → any p bs ≡ any q bs
any_same p q same [] = refl
any_same p q same (b ∷ bs) = rw (same b, any_same p q same bs) refl

is_owned_by_lem :
    (db : Database) (user_id : ℕ) (t : BroadcastTarget)
    → is_owned_by db user_id t
      ≡ any (λ b. b.id == t.broadcast_id && b.user_id == user_id) db.broadcasts
unfolding is_owned_by
is_owned_by_lem db user_id t = any_same _ _ (λ b. ground arith) db.broadcasts

-- The condition as the code has it.
abbrev hit : ℕ → List ℕ → Database → BroadcastTarget → Bool
hit user_id chat_ids db t =
    if mem_id t.chat_id chat_ids
    then (if is_succeeded t.work.status then false else is_owned_by db user_id t)
    else false

hit_lem :
    (user_id : ℕ) (chat_ids : List ℕ) (db : Database) (t : BroadcastTarget)
    → hit user_id chat_ids db t ≡ is_droppable db user_id chat_ids t
hit_lem user_id chat_ids db t = ground (arith, is_owned_by_lem db user_id t)

-- What becomes of a row that is looked up.
abbrev pub unless_droppable :
    Database → ℕ → List ℕ → Option BroadcastTarget → Option BroadcastTarget
unless_droppable db user_id chat_ids none = none
unless_droppable db user_id chat_ids (some t) =
    if is_droppable db user_id chat_ids t then none else some t

row_after :
    (user_id : ℕ) (chat_ids : List ℕ) (db : Database) (u : Unique target_table db.targets) (i : ℕ)
    (o : Option BroadcastTarget)
    → find_where (λ r. r.id == i) db.targets ≡ o
    → find_where (λ r. r.id == i) (delete_where (hit user_id chat_ids db) db.targets)
      ≡ unless_droppable db user_id chat_ids o
row_after user_id chat_ids db u i none e =
    found_before (λ r. r.id == i) (hit user_id chat_ids db) db.targets e
row_after user_id chat_ids db u i (some t) e =
    let same = hit_lem user_id chat_ids db t in
    elim (Bool-cases (is_droppable db user_id chat_ids t)) [
      | inl d ↦ rw d (dropped_row i (hit user_id chat_ids db) db.targets t u e (same ∙ d))
      | inr d ↦
          rw d (kept_row (λ r. r.id == i) (hit user_id chat_ids db) db.targets {a = t} e (same ∙ d))
    ]

-- In a table of targets with distinct ids, a target is gone afterwards exactly where it is of one of
-- the chats, has not succeeded, and is of an ad of the user; every other row is found as it was, and
-- the number that comes back is that of the rows that are gone.
pub drop_chats_lem :
    (user_id : ℕ) (chat_ids : List ℕ) (db : Database) (i : ℕ) (u : Unique target_table db.targets)
    → let (n, after) = drop_chats user_id chat_ids db in
      (n + length after.targets ≡ length db.targets)
      × (get_target after i ≡ unless_droppable db user_id chat_ids (get_target db i))
unfolding drop_chats get_target
drop_chats_lem user_id chat_ids db i u = (
  length-delete_where (hit user_id chat_ids db) db.targets,
  row_after user_id chat_ids db u i _ refl,
)
