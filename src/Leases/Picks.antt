-- ===== src/Leases/Picks.antt =====
-- What a claim can pick: rows of the table that pass the WHERE clause, at most as many as the limit.
use insightxadsflow.Prelude.{
  All-map, ℕ, zero, suc, ◌≤◌, ◌≡◌, refl, sym, ◌∙◌, ap, Bool, true, false, List, [], ◌∷◌, arith, All,
  Bool-cases, inl, inr, ◌==◌, any, select, take, map, length, order_by, insert_by, if◌then◌else◌,
  length-take-le, ==_iff,
}
use insightxadsflow.Leases.{Leased, mem_id, candidates, is_due}

module _ {A : Type 0} where
  any-insert_by :
      (p : A → Bool) (key : A → ℕ) (x : A) (ys : List A)
      → any p (insert_by key x ys) ≡ any p (x ∷ ys)
  unfolding insert_by
  any-insert_by p key x [] = refl
  any-insert_by p key x (y ∷ ys) = ground (arith, any-insert_by p key x ys)

  pub any-order_by : (p : A → Bool) (key : A → ℕ) (xs : List A) → any p (order_by key xs) ≡ any p xs
  unfolding order_by
  any-order_by p key [] = refl
  any-order_by p key (x ∷ xs) =
      any-insert_by p key x (order_by key xs)
      ∙ ap (λ (b : Bool). if p x then true else b) (any-order_by p key xs)

  any-take : (p : A → Bool) (n : ℕ) (xs : List A) → any p (take n xs) ≡ true → any p xs ≡ true
  any-take p zero xs h = ground arith
  any-take p (suc n) [] h = h
  any-take p (suc n) (x ∷ xs) h = ground (arith, any-take p n xs)

  pub any-select :
      (p q : A → Bool) (xs : List A)
      → any p (select q xs) ≡ any (λ a. if q a then p a else false) xs
  any-select p q [] = refl
  any-select p q (x ∷ xs) = ground (arith, any-select p q xs)

  pub any_none : (p : A → Bool) (xs : List A) → All (λ a. p a ≡ false) xs → any p xs ≡ false
  any_none p [] h = refl
  any_none p (x ∷ xs) (h, k) = ground (arith, any_none p xs k)

  pub All-zip {κ μ ν} :
      (P : A → Type κ) (Q : A → Type μ) (R : A → Type ν) (f : (a : A) → P a → Q a → R a)
      (xs : List A)
      → All P xs
      → All Q xs
      → All R xs
  All-zip P Q R f [] h h' = tt
  All-zip P Q R f (x ∷ xs) (h, k) (h', k') = (f x h h', All-zip P Q R f xs k k')

pub ==-sym : (a b : ℕ) → (a == b) ≡ false → (b == a) ≡ false
==-sym a b h = ground arith

module _ {A : Type 0} (t : Leased A) where
  open t use {id, work}

  -- Primary keys differ.
  abbrev pub Unique : List A → Type 0
  Unique [] = Unit
  Unique (a ∷ xs) = All (λ b. (id b == id a) ≡ false) xs × Unique xs

  pub mem_id-map : (i : ℕ) (xs : List A) → mem_id i (map id xs) ≡ any (λ b. id b == i) xs
  mem_id-map i [] = refl
  mem_id-map i (x ∷ xs) = ap (λ (b : Bool). if id x == i then true else b) (mem_id-map i xs)

  abbrev Hit : (A → Bool) → List A → A → Type 0
  Hit q xs a = any (λ b. if q b then id b == id a else false) xs ≡ true → q a ≡ true

  Hit-head : (q : A → Bool) (x : A) (xs : List A) → Unique (x ∷ xs) → Hit q (x ∷ xs) x
  Hit-head q x xs (fresh, u) h = elim (Bool-cases (q x)) [
    | inl e ↦ e
    | inr e ↦
        let miss =
          any_none (λ b. if q b then id b == id x else false) xs
            (All-map (λ b. (id b == id x) ≡ false)
              (λ b. (if q b then id b == id x else false) ≡ false) (λ b f. ground arith) xs
              fresh) in
        ground arith
  ]

  Unique-Hit : (q : A → Bool) (xs : List A) → Unique xs → All (Hit q xs) xs
  Unique-Hit q [] u = tt
  Unique-Hit q (x ∷ xs) (fresh, u) = (
    Hit-head q x xs (fresh, u),
    All-zip (λ a. (id a == id x) ≡ false) (Hit q xs) (Hit q (x ∷ xs))
        (λ a f ih h. ih (ground (arith, ==-sym (id a) (id x) f))) xs fresh (Unique-Hit q xs u),
  )

  -- Which rows `candidates` selects.
  abbrev selectable : (ℕ → Bool) → ℕ → (A → Bool) → A → Bool
  selectable locked now ready a =
      if is_due now (work a) then (if locked (id a) then false else ready a) else false

  -- Of a table with distinct keys only rows that are due, not locked and pass `ready` are picked.
  pub candidates_due :
      (locked : ℕ → Bool) (limit now : ℕ) (ready : A → Bool) (xs : List A)
      → Unique xs
      → All
          (λ a.
            mem_id (id a) (candidates t locked limit now ready xs) ≡ true
            → (is_due now (work a) ≡ true) × (locked (id a) ≡ false) × (ready a ≡ true))
          xs
  unfolding candidates
  candidates_due locked limit now ready xs u =
      let q = selectable locked now ready in
      let key = λ (b : A). (work b).not_before in
      All-map (Hit q xs)
        (λ a.
          mem_id (id a) (map id (take limit (order_by key (select q xs)))) ≡ true
          → (is_due now (work a) ≡ true) × (locked (id a) ≡ false) × (ready a ≡ true))
        (λ a hit m.
          let picked = order_by key (select q xs) in
          let s1 =
            any-take (λ b. id b == id a) limit picked
              (sym (mem_id-map (id a) (take limit picked)) ∙ m) in
          let s2 = hit (
            sym (any-select (λ b. id b == id a) q xs)
            ∙ sym (any-order_by (λ b. id b == id a) key (select q xs))
            ∙ s1) in
          ground arith)
        xs (Unique-Hit q xs u)

  picked_miss :
      (i : ℕ) (ids : List ℕ) (xs : List A)
      → All (λ b. (id b == i) ≡ false) xs
      → length (select (λ a. mem_id (id a) (i ∷ ids)) xs)
        ≡ length (select (λ a. mem_id (id a) ids) xs)
  picked_miss i ids [] h = refl
  picked_miss i ids (x ∷ xs) (h, k) = ground (arith, picked_miss i ids xs k, ==-sym (id x) i h)

  picked_once :
      (i : ℕ) (ids : List ℕ) (xs : List A)
      → Unique xs
      → length (select (λ a. mem_id (id a) (i ∷ ids)) xs)
        ≤ suc (length (select (λ a. mem_id (id a) ids) xs))
  picked_once i ids [] u = omega arith
  picked_once i ids (x ∷ xs) (fresh, u) = elim (Bool-cases (i == id x)) [
    | inl e ↦
        let same : i ≡ id x = (==_iff i (id x)).0 e in
        let away : All (λ b. (id b == i) ≡ false) xs = rw same fresh in
        ground (arith, picked_miss i ids xs away)
    | inr e ↦ ground (arith, picked_once i ids xs u)
  ]

  select_nothing : (xs : List A) → length (select (λ a. mem_id (id a) []) xs) ≡ 0
  select_nothing [] = refl
  select_nothing (x ∷ xs) = select_nothing xs

  pub length-select_ids :
      (ids : List ℕ) (xs : List A)
      → Unique xs
      → length (select (λ a. mem_id (id a) ids) xs) ≤ length ids
  length-select_ids [] xs u = omega (arith, select_nothing xs)
  length-select_ids (i ∷ ids) xs u =
      omega (arith, picked_once i ids xs u, length-select_ids ids xs u)

  length-map_id : (xs : List A) → length (map id xs) ≡ length xs
  length-map_id [] = refl
  length-map_id (x ∷ xs) = ap suc (length-map_id xs)

  -- No more ids are picked than the limit.
  pub length-candidates-le :
      (locked : ℕ → Bool) (limit now : ℕ) (ready : A → Bool) (xs : List A)
      → length (candidates t locked limit now ready xs) ≤ limit
  unfolding candidates
  length-candidates-le locked limit now ready xs =
      let picked =
        order_by (λ (b : A). (work b).not_before) (select (selectable locked now ready) xs) in
      omega (arith, length-map_id (take limit picked), length-take-le limit picked)
