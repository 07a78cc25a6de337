-- ===== src/Leases/Cancels.antt =====
-- What a cancellation leaves.
use insightxadsflow.Prelude.{
  ℕ, ◌≡◌, refl, Bool, false, List, arith, if◌then◌else◌, count_where, count_where-update_where_zero,
  count_where-update_where_keeps_zero,
}
use insightxadsflow.Models.{is_unfinished}
use insightxadsflow.Leases.{Leased, cancel_rows, cancelled}

module _ {A : Type 0} (t : Leased A) where
  open t use {work, set_work, work-set_work}

  -- The rows of `mine` that are still to be worked on.
  abbrev pub unfinished_of : (A → Bool) → A → Bool
  unfinished_of mine a = if mine a then is_unfinished (work a).status else false

  -- The number that comes back is that of the unfinished rows of `mine`, and none is left.
  pub cancel_rows_lem :
      (now : ℕ) (mine : A → Bool) (xs : List A)
      → ((cancel_rows t now mine xs).0 ≡ count_where (unfinished_of mine) xs)
        × (count_where (unfinished_of mine) (cancel_rows t now mine xs).1 ≡ 0)
  unfolding cancel_rows cancelled
  cancel_rows_lem now mine xs = (
    refl,
    count_where-update_where_zero (unfinished_of mine) (unfinished_of mine)
        (λ a. set_work a (cancelled now (work a)))
        (λ a h. ground (arith, work-set_work a (cancelled now (work a)))) (λ a h. h) xs,
  )

  -- A cancellation adds no unfinished row to another set of rows.
  pub cancel_rows_zero :
      (now : ℕ) (mine other : A → Bool) (xs : List A)
      → count_where (unfinished_of other) xs ≡ 0
      → count_where (unfinished_of other) (cancel_rows t now mine xs).1 ≡ 0
  unfolding cancel_rows cancelled
  cancel_rows_zero now mine other =
      count_where-update_where_keeps_zero (unfinished_of mine) (unfinished_of other)
        (λ a. set_work a (cancelled now (work a)))
        (λ a h k. ground (arith, work-set_work a (cancelled now (work a))))
