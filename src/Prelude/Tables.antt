-- ===== src/Prelude/Tables.antt =====
-- Database tables as lists of rows: a bulk `UPDATE ... WHERE`, a count, a lookup, and `ORDER BY`.
use Prim.Native.Nat.{ℕ, suc, ◌≤◌}
use mathlib.Core.Path.{◌≡◌, refl, subst}
use mathlib.Core.List.{List, [], ◌∷◌, ◌++◌}
use mathlib.Core.Bool.{Bool, true, false}
use mathlib.Core.Option.{Option, none, some}
use mathlib.Core.Logic.{inl, inr}
use native.Mathlib.Omega.{arith}
use insightxadsflow.Prelude.Tests.{if◌then◌else◌, leb, Bool-cases, is_some}
use insightxadsflow.Prelude.Lists.{All, select}

pub some_injective {ℓ} : {A : Type ℓ} {a b : A} → some a ≡ some b → a ≡ b
some_injective h = cc

module _ {ℓ} {A : Type ℓ} where
  -- UPDATE: the rows that pass `p` become `f` of themselves.
  abbrev pub update_where : (A → Bool) → (A → A) → List A → List A
  update_where p f [] = []
  update_where p f (x ∷ xs) = (if p x then f x else x) ∷ update_where p f xs

  -- DELETE: the rows that pass `p` go.
  abbrev pub delete_where : (A → Bool) → List A → List A
  delete_where p [] = []
  delete_where p (x ∷ xs) = let rest = delete_where p xs in if p x then rest else x ∷ rest

  -- SELECT count(*)
  abbrev pub count_where : (A → Bool) → List A → ℕ
  count_where p [] = 0
  count_where p (x ∷ xs) = let rest = count_where p xs in if p x then suc rest else rest

  -- scalar_one_or_none
  abbrev pub find_where : (A → Bool) → List A → Option A
  find_where p [] = none
  find_where p (x ∷ xs) = if p x then some x else find_where p xs

  -- ORDER BY key ASC: an insertion sort, so rows with equal keys stay in table order.
  unfoldable pub insert_by : (A → ℕ) → A → List A → List A
  insert_by key x [] = x ∷ []
  insert_by key x (y ∷ ys) =
      let rest = insert_by key x ys in if leb (key x) (key y) then x ∷ y ∷ ys else y ∷ rest

  unfoldable pub order_by : (A → ℕ) → List A → List A
  unfolding insert_by
  order_by key [] = []
  order_by key (x ∷ xs) = insert_by key x (order_by key xs)

  -- What no row of a table satisfies `q` after an update that leaves no such row.
  pub count_where-update_where_zero :
      (p q : A → Bool) (f : A → A)
      → ((x : A) → p x ≡ true → q (f x) ≡ false)
      → ((x : A) → p x ≡ false → q x ≡ false)
      → (xs : List A) → count_where q (update_where p f xs) ≡ 0
  count_where-update_where_zero p q f hit miss [] = refl
  count_where-update_where_zero p q f hit miss (x ∷ xs) =
      ground (arith, hit x, miss x, count_where-update_where_zero p q f hit miss xs)

  -- An update that does not change what `q` says of a row does not change the count.
  pub count_where-update_where_same :
      (p q : A → Bool) (f : A → A)
      → ((x : A) → q (f x) ≡ q x)
      → (xs : List A) → count_where q (update_where p f xs) ≡ count_where q xs
  count_where-update_where_same p q f same [] = refl
  count_where-update_where_same p q f same (x ∷ xs) =
      ground (arith, same x, count_where-update_where_same p q f same xs)

  -- Likewise where the update changes nothing of `q` on the rows that it hits.
  pub count_where-update_where_hit :
      (p q : A → Bool) (f : A → A)
      → ((x : A) → p x ≡ true → q (f x) ≡ q x)
      → (xs : List A) → count_where q (update_where p f xs) ≡ count_where q xs
  count_where-update_where_hit p q f same [] = refl
  count_where-update_where_hit p q f same (x ∷ xs) =
      ground (arith, same x, count_where-update_where_hit p q f same xs)

  -- What holds of every row, and is kept by the update on the rows it changes, holds afterwards.
  pub All-update_where {κ} :
      (P : A → Type κ) (p : A → Bool) (f : A → A)
      → ((x : A) → p x ≡ true → P x → P (f x))
      → (xs : List A) → All P xs
      → All P (update_where p f xs)
  All-update_where P p f keep [] h = h
  All-update_where P p f keep (x ∷ xs) h = elim (Bool-cases (p x)) [
    | inl e ↦ rw e (keep x e h.0, All-update_where P p f keep xs h.1)
    | inr e ↦ rw e (h.0, All-update_where P p f keep xs h.1)
  ]

  -- Where no row satisfies `q`, none does after an update that makes none satisfy it.
  pub count_where-update_where_keeps_zero :
      (p q : A → Bool) (f : A → A)
      → ((x : A) → p x ≡ true → q x ≡ false → q (f x) ≡ false)
      → (xs : List A) → count_where q xs ≡ 0
      → count_where q (update_where p f xs) ≡ 0
  count_where-update_where_keeps_zero p q f keep [] h = h
  count_where-update_where_keeps_zero p q f keep (x ∷ xs) h =
      ground (arith, keep x, count_where-update_where_keeps_zero p q f keep xs)

  -- An update that `q` does not see leaves a row to find where there was one.
  pub find_where-update_where_some :
      (q p : A → Bool) (f : A → A)
      → ((x : A) → q (f x) ≡ q x)
      → (xs : List A) → is_some (find_where q (update_where p f xs)) ≡ is_some (find_where q xs)
  find_where-update_where_some q p f same [] = refl
  find_where-update_where_some q p f same (x ∷ xs) =
      ground (arith, same x, find_where-update_where_some q p f same xs)

  -- A row that takes the place of one that was there is found.
  pub find_where-replace :
      (q : A → Bool) (new : A)
      → q new ≡ true
      → (xs : List A) → is_some (find_where q xs) ≡ true
      → find_where q (update_where q (λ _. new) xs) ≡ some new
  find_where-replace q new hit [] h = ground arith
  find_where-replace q new hit (x ∷ xs) h = ground (arith, find_where-replace q new hit xs)

  -- What is not found before an added row is looked for in it.
  pub find_where-add :
      (q : A → Bool) (new : A) (xs : List A)
      → find_where q xs ≡ none
      → find_where q (xs ++ new ∷ []) ≡ (if q new then some new else none)
  find_where-add q new [] h = refl
  find_where-add q new (x ∷ xs) h = ground (arith, find_where-add q new xs)

  pub find_where-add_found :
      (q : A → Bool) (new : A) (xs : List A)
      → is_some (find_where q xs) ≡ true
      → find_where q (xs ++ new ∷ []) ≡ find_where q xs
  find_where-add_found q new [] h = ground arith
  find_where-add_found q new (x ∷ xs) h = ground (arith, find_where-add_found q new xs)

  -- An added row that the test refuses is not found.
  pub find_where-add_other :
      (q : A → Bool) (new : A)
      → q new ≡ false
      → (xs : List A) → find_where q (xs ++ new ∷ []) ≡ find_where q xs
  find_where-add_other q new miss [] = ground arith
  find_where-add_other q new miss (x ∷ xs) = ground (arith, find_where-add_other q new miss xs)

  pub count_where-add :
      (q : A → Bool) (new : A) (xs : List A)
      → count_where q (xs ++ new ∷ [])
        ≡ (if q new then suc (count_where q xs) else count_where q xs)
  count_where-add q new [] = refl
  count_where-add q new (x ∷ xs) = ground (arith, count_where-add q new xs)

  -- An update of other rows, which makes none that passes, leaves what is found.
  pub find_where-update_where_other :
      (q p : A → Bool) (f : A → A)
      → ((x : A) → p x ≡ true → q x ≡ false)
      → ((x : A) → p x ≡ true → q (f x) ≡ false)
      → (xs : List A) → find_where q (update_where p f xs) ≡ find_where q xs
  find_where-update_where_other q p f off off' [] = refl
  find_where-update_where_other q p f off off' (x ∷ xs) =
      ground (arith, off x, off' x, find_where-update_where_other q p f off off' xs)

  -- An update of the row that is looked for.
  pub find_where-update_where_hit :
      (q : A → Bool) (f : A → A)
      → ((x : A) → q (f x) ≡ q x)
      → (xs : List A) (r : A) → find_where q xs ≡ some r
      → find_where q (update_where q f xs) ≡ some (f r)
  find_where-update_where_hit q f same [] r h = ground arith
  find_where-update_where_hit q f same (x ∷ xs) r h =
      ground (arith, same x, find_where-update_where_hit q f same xs r)

  -- An update that the search does not see, of whatever rows.
  pub find_where-update_where_if :
      (q p : A → Bool) (f : A → A)
      → ((x : A) → q (f x) ≡ q x)
      → (xs : List A) (r : A) → find_where q xs ≡ some r
      → find_where q (update_where p f xs) ≡ some (if p r then f r else r)
  find_where-update_where_if q p f same [] r h = absurd (ground arith)
  find_where-update_where_if q p f same (x ∷ xs) r h = elim (Bool-cases (q x)) [
    | inl e ↦
        let it : x ≡ r = some_injective (rw e at h) in
        subst (λ y. find_where q (update_where p f (x ∷ xs)) ≡ some (if p y then f y else y)) it
          (elim (Bool-cases (p x)) [ inl g ↦ rw (g, same x, e) refl | inr g ↦ rw (g, e) refl ])
    | inr e ↦ elim (Bool-cases (p x)) [
      | inl g ↦ rw (g, same x, e) (find_where-update_where_if q p f same xs r (rw e at h))
      | inr g ↦ rw (g, e) (find_where-update_where_if q p f same xs r (rw e at h))
    ]
  ]

  pub find_where-delete_where_other :
      (q p : A → Bool)
      → ((x : A) → q x ≡ true → p x ≡ false)
      → (xs : List A) → find_where q (delete_where p xs) ≡ find_where q xs
  find_where-delete_where_other q p off [] = refl
  find_where-delete_where_other q p off (x ∷ xs) =
      ground (arith, off x, find_where-delete_where_other q p off xs)

  pub count_where-none :
      (q : A → Bool) (xs : List A) → count_where q xs ≡ 0 → find_where q xs ≡ none
  count_where-none q [] h = refl
  count_where-none q (x ∷ xs) h = ground (arith, count_where-none q xs)

  pub find_where-none : (q : A → Bool) (xs : List A) → find_where q xs ≡ none → count_where q xs ≡ 0
  find_where-none q [] h = refl
  find_where-none q (x ∷ xs) h = ground (arith, find_where-none q xs)

  pub count_where-delete_where_le :
      (q p : A → Bool) (xs : List A) → count_where q (delete_where p xs) ≤ count_where q xs
  count_where-delete_where_le q p [] = omega arith
  count_where-delete_where_le q p (x ∷ xs) = ground (arith, count_where-delete_where_le q p xs)

  -- What is found passes the test.
  pub find_where_passes :
      (q : A → Bool) (xs : List A) (r : A) → find_where q xs ≡ some r → q r ≡ true
  find_where_passes q [] r h = ground arith
  find_where_passes q (x ∷ xs) r h = ground (arith, find_where_passes q xs r)

  -- Of the rows that pass `q` there is one at most, and it passes `p`: deleting those takes it away.
  pub find_where-delete_where_only :
      (q p : A → Bool) (xs : List A) (r : A)
      → count_where q xs ≤ 1
      → find_where q xs ≡ some r
      → p r ≡ true
      → find_where q (delete_where p xs) ≡ none
  find_where-delete_where_only q p [] r one h hit = ground arith
  find_where-delete_where_only q p (x ∷ xs) r one h hit = ground (
    arith,
    find_where-delete_where_only q p xs r,
    count_where-none q (delete_where p xs),
    count_where-delete_where_le q p xs,
  )

  pub count_where-narrow :
      (q p : A → Bool)
      → ((x : A) → p x ≡ true → q x ≡ true)
      → (xs : List A) → count_where p xs ≤ count_where q xs
  count_where-narrow q p narrow [] = omega arith
  count_where-narrow q p narrow (x ∷ xs) =
      ground (arith, narrow x, count_where-narrow q p narrow xs)

  -- With one such row at most, a narrower test counts it or nothing.
  pub count_where_only :
      (q p : A → Bool) (xs : List A) (r : A)
      → ((x : A) → p x ≡ true → q x ≡ true)
      → count_where q xs ≤ 1
      → find_where q xs ≡ some r
      → count_where p xs ≡ (if p r then 1 else 0)
  count_where_only q p [] r narrow one h = ground arith
  count_where_only q p (x ∷ xs) r narrow one h =
      ground (arith, narrow x, count_where_only q p xs r narrow, count_where-narrow q p narrow xs)

  -- Where every row that passes `q` becomes `new`, which `p` refuses, no row of `q` is selected.
  pub All-select-update_where :
      (p q : A → Bool) (new : A)
      → p new ≡ false
      → (xs : List A) → All (λ x. q x ≡ false) (select p (update_where q (λ _. new) xs))
  All-select-update_where p q new miss [] = tt
  All-select-update_where p q new miss (x ∷ xs) = elim (Bool-cases (q x)) [
    | inl e ↦ rw (e, miss) (All-select-update_where p q new miss xs)
    | inr e ↦ rw e (elim (Bool-cases (p x)) [
      | inl f ↦ rw f (e, All-select-update_where p q new miss xs)
      | inr f ↦ rw f (All-select-update_where p q new miss xs)
    ])
  ]

  -- A changed row that the search sees takes the place of the row that is found.
  pub find_where-put :
      (q p : A → Bool) (new : A)
      → q new ≡ true
      → (xs : List A) (r : A) → find_where q xs ≡ some r
      → p r ≡ true
      → find_where q (update_where p (λ _. new) xs) ≡ some new
  find_where-put q p new hit [] r h same = ground arith
  find_where-put q p new hit (x ∷ xs) r h same = ground (arith, find_where-put q p new hit xs r)
