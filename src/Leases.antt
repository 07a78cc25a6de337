-- ===== src/Leases.antt =====
-- The claim/lease discipline that repositories/jobs.py and repositories/broadcasts.py both follow, on
-- the columns `Work` of one row and on a table of rows.
mod Rows
pub mod Steps
pub mod Picks
pub mod Tables
pub mod Claims
pub mod Cancels
unfoldable pub use Rows.{
  lease, renew, reclaimed, cancelled, requeued, finished, rescheduled, reopened, is_due, is_expired,
  owned_by,
}
use insightxadsflow.Prelude.{
  ℕ, ◌+◌, ◌*◌, ◌≡◌, Bool, true, false, ◌&&◌, List, Option, some, none, if◌then◌else◌, map, take,
  any, select, ◌==◌, update_where, count_where, order_by, String,
}
use insightxadsflow.Models.{
  Work, JobStatus, is_pending, is_leased, is_unfinished, is_requeueable, second,
}

-- A table whose rows carry the shared columns.
pub record Leased (A : Type 0) : Type 0 where
  pub id : A → ℕ
  pub work : A → Work
  pub set_work : A → Work → A
  pub work-set_work : (a : A) (w : Work) → work (set_work a w) ≡ w
  pub id-set_work : (a : A) (w : Work) → id (set_work a w) ≡ id a
  pub set_work-set_work : (a : A) (v w : Work) → set_work (set_work a v) w ≡ set_work a w
  pub set_work-work : (a : A) → set_work a (work a) ≡ a

abbrev pub mem_id : ℕ → List ℕ → Bool
mem_id i ids = any (λ j. j == i) ids

module _ {A : Type 0} (t : Leased A) where
  open t use {id, work, set_work}

  -- UPDATE of the shared columns of the rows that pass a test.
  unfoldable pub update_work : (A → Bool) → (Work → Work) → List A → List A
  update_work p f = update_where p (λ a. set_work a (f (work a)))

  -- `SELECT id ... ORDER BY not_before LIMIT limit FOR UPDATE SKIP LOCKED`, over the rows that pass
  -- `ready`; `locked` are the rows that other transactions hold.
  unfoldable pub candidates : (ℕ → Bool) → ℕ → ℕ → (A → Bool) → List A → List ℕ
  candidates locked limit now ready rows = map id (
      take limit (
        order_by (λ a. (work a).not_before)
          (select
            (λ a. if is_due now (work a) then (if locked (id a) then false else ready a) else false)
            rows)))

  -- The leased rows, and the table with them leased.
  unfoldable pub claim_rows :
      (ℕ → Bool) → String → ℕ → ℕ → ℕ → (A → Bool) → List A → List A × List A
  unfolding update_work candidates
  claim_rows locked owner limit lease_seconds now ready rows =
      let ids = candidates locked limit now ready rows in
      let table =
        update_work (λ a. mem_id (id a) ids) (lease owner (now + lease_seconds * second) now)
          rows in
      (select (λ a. mem_id (id a) ids) table, table)

  unfoldable pub renew_row : ℕ → String → ℕ → ℕ → List A → List A
  unfolding update_work
  renew_row row_id owner lease_seconds now =
      update_work (λ a. if id a == row_id then owned_by owner (work a) else false)
        (renew (now + lease_seconds * second) now)

  -- `UPDATE ... WHERE expired AND id IN (SELECT id ... WHERE expired LIMIT limit)`
  unfoldable pub reclaim_rows : ℕ → ℕ → List A → ℕ × List A
  unfolding update_work
  reclaim_rows limit now rows =
      let ids = map id (take limit (select (λ a. is_expired now (work a)) rows)) in
      let hit = λ (a : A). if is_expired now (work a) then mem_id (id a) ids else false in
      (count_where hit rows, update_work hit (reclaimed now) rows)

  -- `UPDATE ... SET skipped WHERE mine AND status IN (pending, leased)`
  unfoldable pub cancel_rows : ℕ → (A → Bool) → List A → ℕ × List A
  unfolding update_work
  cancel_rows now mine rows =
      let hit = λ (a : A). if mine a then is_unfinished (work a).status else false in
      (count_where hit rows, update_work hit (cancelled now) rows)

  unfoldable pub requeue_rows : ℕ → (A → Bool) → List A → ℕ × List A
  unfolding update_work
  requeue_rows now mine rows =
      let hit = λ (a : A). if mine a then is_requeueable (work a).status else false in
      (count_where hit rows, update_work hit (requeued now) rows)
