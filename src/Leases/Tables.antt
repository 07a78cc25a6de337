-- ===== src/Leases/Tables.antt =====
-- Every operation of the repositories takes each row of its table by one `RowStep`, and moves none.
use insightxadsflow.Prelude.{
  All-map, ℕ, ◌≡◌, sym, ◌∙◌, ap, Bool, true, false, List, [], ◌∷◌, Option, some, arith, String, All,
  Bool-cases, inl, inr, ◌==◌, find_where, ◌+◌, ◌*◌, map, take, select, if◌then◌else◌,
}
use insightxadsflow.Models.{Work, second, is_succeeded, is_unfinished, is_requeueable}
use insightxadsflow.Leases.{
  Leased, lease, renew, reclaimed, cancelled, requeued, is_due, is_expired, owned_by, update_work,
  mem_id, candidates, claim_rows, renew_row, reclaim_rows, cancel_rows, requeue_rows,
}
use insightxadsflow.Leases.Picks.{Unique, candidates_due}
use insightxadsflow.Leases.Steps.{
  RowStep, stay, claim, heartbeat, reclaim, cancel, requeue, LeaseIsExact, RowStep-LeaseIsExact,
  RowStep-succeeded,
}

module _ {A : Type 0} (t : Leased A) where
  open t use {id, work, set_work, work-set_work, id-set_work, set_work-work}

  -- One row after an operation: the same row with other shared columns, by a step.
  pub record SameRow (a b : A) : Type 0 where
    pub only_work : b ≡ set_work a (work b)
    pub step : RowStep (work a) (work b)

  -- Row by row, in the same order.
  abbrev pub TableStep : List A → List A → Type 0
  TableStep [] [] = Unit
  TableStep (a ∷ xs) (b ∷ ys) = SameRow a b × TableStep xs ys
  TableStep _ _ = ⊥

  SameRow-refl : (a : A) → SameRow a a
  SameRow-refl a = record { only_work = sym (set_work-work a); step = stay }

  SameRow-set_work : (a : A) (w : Work) → RowStep (work a) w → SameRow a (set_work a w)
  SameRow-set_work a w s = record {
    only_work = rw (work-set_work a w);
    step = rw (work-set_work a w) s;
  }

  pub update_work-TableStep :
      (p : A → Bool) (f : Work → Work)
      → ((a : A) → p a ≡ true → RowStep (work a) (f (work a)))
      → (xs : List A) → TableStep xs (update_work t p f xs)
  unfolding update_work
  update_work-TableStep p f ok [] = tt
  update_work-TableStep p f ok (a ∷ xs) = elim (Bool-cases (p a)) [
    | inl e ↦ rw e (SameRow-set_work a (f (work a)) (ok a e), update_work-TableStep p f ok xs)
    | inr e ↦ rw e (SameRow-refl a, update_work-TableStep p f ok xs)
  ]

  pub TableStep-LeaseIsExact :
      (xs ys : List A)
      → TableStep xs ys
      → All (λ a. LeaseIsExact (work a)) xs
      → All (λ a. LeaseIsExact (work a)) ys
  TableStep-LeaseIsExact [] [] s h = h
  TableStep-LeaseIsExact [] (b ∷ ys) s h = elim s [ ]
  TableStep-LeaseIsExact (a ∷ xs) [] s h = elim s [ ]
  TableStep-LeaseIsExact (a ∷ xs) (b ∷ ys) (s, r) (h, k) =
      (RowStep-LeaseIsExact s.step h, TableStep-LeaseIsExact xs ys r k)

  abbrev pub row_of : ℕ → List A → Option A
  row_of i = find_where (λ a. id a == i)

  same_id : {a b : A} → SameRow a b → id b ≡ id a
  same_id {a} {b} s = ap id s.only_work ∙ id-set_work a (work b)

  -- A row that has succeeded, and holds no lease, is found unchanged after any operation.
  pub TableStep-succeeded :
      (i : ℕ) (xs ys : List A) {a : A}
      → TableStep xs ys
      → All (λ a. LeaseIsExact (work a)) xs
      → row_of i xs ≡ some a
      → is_succeeded (work a).status ≡ true
      → row_of i ys ≡ some a
  TableStep-succeeded i [] ys s h f d = ground arith
  TableStep-succeeded i (x ∷ xs) [] s h f d = elim s [ ]
  TableStep-succeeded i (x ∷ xs) (y ∷ ys) {a} (s, r) (h, k) f d = elim (Bool-cases (id x == i)) [
    | inl e ↦
        let x_is_a : x ≡ a = ground arith in
        let w : work y ≡ work x = RowStep-succeeded s.step h (rw x_is_a d) in
        let y_is_x : y ≡ x = s.only_work ∙ ap (set_work x) w ∙ set_work-work x in
        rw y_is_x (rw e (ap some x_is_a))
    | inr e ↦
        let z : (id y == i) ≡ false = rw (same_id s) e in
        rw z (TableStep-succeeded i xs ys r k (rw e at f) d)
  ]

  update_work-TableStep_on :
      (p : A → Bool) (f : Work → Work) (xs : List A)
      → All (λ a. p a ≡ true → RowStep (work a) (f (work a))) xs
      → TableStep xs (update_work t p f xs)
  unfolding update_work
  update_work-TableStep_on p f [] h = tt
  update_work-TableStep_on p f (a ∷ xs) (h, k) = elim (Bool-cases (p a)) [
    | inl e ↦ rw e (SameRow-set_work a (f (work a)) (h e), update_work-TableStep_on p f xs k)
    | inr e ↦ rw e (SameRow-refl a, update_work-TableStep_on p f xs k)
  ]

  pub claim_rows-TableStep :
      (locked : ℕ → Bool) (owner : String) (limit lease_seconds now : ℕ) (ready : A → Bool)
      (xs : List A)
      → Unique t xs
      → TableStep xs (claim_rows t locked owner limit lease_seconds now ready xs).1
  unfolding claim_rows
  claim_rows-TableStep locked owner limit lease_seconds now ready xs u =
      let ids = candidates t locked limit now ready xs in
      let deadline = now + lease_seconds * second in
      update_work-TableStep_on (λ a. mem_id (id a) ids) (lease owner deadline now) xs
        (All-map
          (λ a.
            mem_id (id a) ids ≡ true
            → (is_due now (work a) ≡ true) × (locked (id a) ≡ false) × (ready a ≡ true))
          (λ a. mem_id (id a) ids ≡ true → RowStep (work a) (lease owner deadline now (work a)))
          (λ a due m. claim owner deadline now (due m).0) xs
          (candidates_due t locked limit now ready xs u))

  pub renew_row-TableStep :
      (row_id : ℕ) (owner : String) (lease_seconds now : ℕ) (xs : List A)
      → TableStep xs (renew_row t row_id owner lease_seconds now xs)
  unfolding renew_row
  renew_row-TableStep row_id owner lease_seconds now =
      update_work-TableStep (λ a. if id a == row_id then owned_by owner (work a) else false)
        (renew (now + lease_seconds * second) now)
        (λ a h. heartbeat owner (now + lease_seconds * second) now (ground arith))

  pub reclaim_rows-TableStep :
      (limit now : ℕ) (xs : List A) → TableStep xs (reclaim_rows t limit now xs).1
  unfolding reclaim_rows
  reclaim_rows-TableStep limit now xs =
      let ids = map id (take limit (select (λ a. is_expired now (work a)) xs)) in
      update_work-TableStep (λ a. if is_expired now (work a) then mem_id (id a) ids else false)
        (reclaimed now) (λ a h. reclaim now (ground arith)) xs

  pub cancel_rows-TableStep :
      (now : ℕ) (mine : A → Bool) (xs : List A) → TableStep xs (cancel_rows t now mine xs).1
  unfolding cancel_rows
  cancel_rows-TableStep now mine =
      update_work-TableStep (λ a. if mine a then is_unfinished (work a).status else false)
        (cancelled now) (λ a h. cancel now (ground arith))

  pub requeue_rows-TableStep :
      (now : ℕ) (mine : A → Bool) (xs : List A) → TableStep xs (requeue_rows t now mine xs).1
  unfolding requeue_rows
  requeue_rows-TableStep now mine =
      update_work-TableStep (λ a. if mine a then is_requeueable (work a).status else false)
        (requeued now) (λ a h. requeue now (ground arith))

  same_ids_All :
      (i : ℕ) (xs ys : List A)
      → TableStep xs ys
      → All (λ b. (id b == i) ≡ false) xs
      → All (λ b. (id b == i) ≡ false) ys
  same_ids_All i [] [] s h = h
  same_ids_All i [] (y ∷ ys) s h = elim s [ ]
  same_ids_All i (x ∷ xs) [] s h = elim s [ ]
  same_ids_All i (x ∷ xs) (y ∷ ys) (s, r) (h, k) = (rw (same_id s) h, same_ids_All i xs ys r k)

  pub TableStep-Unique : (xs ys : List A) → TableStep xs ys → Unique t xs → Unique t ys
  TableStep-Unique [] [] s u = u
  TableStep-Unique [] (y ∷ ys) s u = elim s [ ]
  TableStep-Unique (x ∷ xs) [] s u = elim s [ ]
  TableStep-Unique (x ∷ xs) (y ∷ ys) (s, r) (fresh, u) =
      (rw (same_id s) (same_ids_All (id x) xs ys r fresh), TableStep-Unique xs ys r u)

  -- Distinct keys, and every row's lease columns fit its status.
  pub record IsSound (xs : List A) : Type 0 where
    pub unique : Unique t xs
    pub exact : All (λ a. LeaseIsExact (work a)) xs

  pub TableStep-IsSound : (xs ys : List A) → TableStep xs ys → IsSound xs → IsSound ys
  TableStep-IsSound xs ys s h = record {
    unique = TableStep-Unique xs ys s h.unique;
    exact = TableStep-LeaseIsExact xs ys s h.exact;
  }
