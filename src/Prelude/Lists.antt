-- ===== src/Prelude/Lists.antt =====
-- Lists measured and indexed by native numbers, under the library's names.
use Prim.Native.Nat.{ℕ, zero, suc, ◌+◌, ◌≤◌}
use mathlib.Core.Path.{◌≡◌, refl, ap}
use mathlib.Core.Option.{Option, none, some}
use mathlib.Core.Logic.{inl, inr}
use mathlib.Core.List.{List, [], ◌∷◌, ◌++◌}
use mathlib.Core.Bool.{Bool, true, false}
use native.Mathlib.Omega.{arith}
use insightxadsflow.Prelude.Tests.{if◌then◌else◌, Bool-cases}

module _ {ℓ} {A : Type ℓ} where
  abbrev pub length : List A → ℕ
  length [] = 0
  length (x ∷ xs) = suc (length xs)

  abbrev pub take : ℕ → List A → List A
  take zero xs = []
  take (suc n) [] = []
  take (suc n) (x ∷ xs) = x ∷ take n xs

  -- Some element passes the test.
  abbrev pub any : (A → Bool) → List A → Bool
  any p [] = false
  any p (x ∷ xs) = if p x then true else any p xs

  -- The rows that pass the test, in their order.
  abbrev pub select : (A → Bool) → List A → List A
  select p [] = []
  select p (x ∷ xs) = let rest = select p xs in if p x then x ∷ rest else rest

  pub length-append : (xs ys : List A) → length (xs ++ ys) ≡ length xs + length ys
  length-append [] ys = omega arith
  length-append (x ∷ xs) ys = omega (arith, length-append xs ys)

  pub length-take-le : (n : ℕ) (xs : List A) → length (take n xs) ≤ n
  length-take-le zero xs = omega arith
  length-take-le (suc n) [] = omega arith
  length-take-le (suc n) (x ∷ xs) = omega (arith, length-take-le n xs)

-- A predicate on every element.
abbrev pub All {ℓ κ} : {A : Type ℓ} → (A → Type κ) → List A → Type κ
All P [] = Unit
All P (x ∷ xs) = P x × All P xs

module _ {ℓ} {A : Type ℓ} where
  abbrev pub get_elem? : List A → ℕ → Option A
  get_elem? [] n = none
  get_elem? (x ∷ xs) zero = some x
  get_elem? (x ∷ xs) (suc n) = get_elem? xs n

  pub append_nil : (xs : List A) → xs ++ [] ≡ xs
  append_nil [] = refl
  append_nil (x ∷ xs) = ap (λ ys. x ∷ ys) (append_nil xs)

  pub append_assoc : (xs ys zs : List A) → (xs ++ ys) ++ zs ≡ xs ++ (ys ++ zs)
  append_assoc [] ys zs = refl
  append_assoc (x ∷ xs) ys zs = ap (λ ws. x ∷ ws) (append_assoc xs ys zs)

  pub All-append {κ} : (P : A → Type κ) (xs ys : List A) → All P xs → All P ys → All P (xs ++ ys)
  All-append P [] ys hx hy = hy
  All-append P (x ∷ xs) ys hx hy = (hx.0, All-append P xs ys hx.1 hy)

pub All-map {ℓ κ κ'} :
    {A : Type ℓ} (P : A → Type κ) (Q : A → Type κ')
    → ((x : A) → P x → Q x)
    → (xs : List A) → All P xs
    → All Q xs
All-map P Q f [] h = tt
All-map P Q f (x ∷ xs) h = (f x h.0, All-map P Q f xs h.1)

-- The element stands at some place of the list.
abbrev pub IsStored {ℓ} : {A : Type ℓ} → List A → A → Type ℓ
IsStored xs x = (i : ℕ) × (get_elem? xs i ≡ some x)

module _ {ℓ} {A : Type ℓ} where
  IsStored-later : (y x : A) (xs : List A) → IsStored xs x → IsStored (y ∷ xs) x
  IsStored-later y x xs (i, e) = (suc i, e)

  -- An element that passes a test that some element passes.
  pub any-IsStored :
      (p : A → Bool) (xs : List A) → any p xs ≡ true → (x : A) × IsStored xs x × (p x ≡ true)
  any-IsStored p [] h = absurd (ground arith)
  any-IsStored p (x ∷ xs) h = elim (Bool-cases (p x)) [
    | inl e ↦ (x, (0, refl), e)
    | inr e ↦
        let (y, stored, passes) = any-IsStored p xs (rw e at h) in
        (y, IsStored-later x y xs stored, passes)
  ]

  -- What a test implies, and the place in the table, holds of every row that it selects.
  pub All-select-IsStored {κ} :
      (P : A → Type κ) (p : A → Bool) (xs : List A)
      → ((x : A) → IsStored xs x → p x ≡ true → P x)
      → All P (select p xs)
  All-select-IsStored P p [] sound = tt
  All-select-IsStored P p (x ∷ xs) sound =
      let rest =
        All-select-IsStored P p xs
          (λ y stored passes. sound y (IsStored-later x y xs stored) passes) in
      elim (Bool-cases (p x)) [ inl e ↦ rw e (sound x (0, refl) e, rest) | inr e ↦ rw e rest ]
