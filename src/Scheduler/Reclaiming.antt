-- ===== src/Scheduler/Reclaiming.antt =====
-- scheduler.py: every lease that has expired is reclaimed after enough passes.
use insightxadsflow.Prelude.{
  ℕ, zero, suc, ◌+◌, ◌-◌, ◌*◌, ◌≤◌, ◌≡◌, refl, ap, ◌∙◌, Bool, true, false, List, [], ◌∷◌,
  if◌then◌else◌, All, All-map, min, arith, Bool-cases, inl, inr, map, take, select, count_where,
  update_where, count_where-update_where_zero, ==-refl,
}
use insightxadsflow.Models.{Work, Database}
use insightxadsflow.Leases.{Leased, mem_id, is_expired, reclaim_rows, update_work, reclaimed}
use insightxadsflow.Jobs
use insightxadsflow.Jobs.{job_table}
use insightxadsflow.Broadcasts
use insightxadsflow.Broadcasts.{target_table}
use insightxadsflow.Worker.Control.{reclaim_expired_control, is_task_expired, reclaimed_task}
use insightxadsflow.Scheduler.{reclaim_pass, reclaim_passes}

not_expired : (now : ℕ) (w : Work) → is_expired now (reclaimed now w) ≡ false
unfolding is_expired reclaimed
not_expired now w = refl

module _ {A : Type 0} (t : Leased A) where
  open t use {id, work, set_work, work-set_work}

  abbrev pub expired : ℕ → A → Bool
  expired now a = is_expired now (work a)

  -- Of the rows that pass `p`, those whose id is listed are at least as many as were taken.
  taken_are_hit :
      (p : A → Bool) (ids : List ℕ) (limit : ℕ) (rows : List A)
      → All (λ a. mem_id (id a) ids ≡ true) (take limit (select p rows))
      → min limit (count_where p rows)
        ≤ count_where (λ a. if p a then mem_id (id a) ids else false) rows
  taken_are_hit p ids limit [] listed = omega arith
  taken_are_hit p ids zero (a ∷ rows) listed = omega arith
  taken_are_hit p ids (suc n) (a ∷ rows) listed = elim (Bool-cases (p a)) [
    | inl e ↦ let l = rw e at listed in ground (arith, l.0, taken_are_hit p ids n rows l.1, e)
    | inr e ↦ let l = rw e at listed in ground (arith, taken_are_hit p ids (suc n) rows l, e)
  ]

  -- The rows that pass `q` are, after an update that takes some of them away, fewer by those.
  count_after :
      (q hit : A → Bool) (f : A → A)
      → ((a : A) → hit a ≡ true → q a ≡ true)
      → ((a : A) → hit a ≡ true → q (f a) ≡ false)
      → (rows : List A)
      → count_where q (update_where hit f rows) + count_where hit rows ≡ count_where q rows
  count_after q hit f among gone [] = refl
  count_after q hit f among gone (a ∷ rows) =
      ground (arith, among a, gone a, count_after q hit f among gone rows)

  taken_listed :
      (limit : ℕ) (rows : List A)
      → All (λ a. mem_id (id a) (map id (take limit rows)) ≡ true) (take limit rows)
  taken_listed zero rows = tt
  taken_listed (suc n) [] = tt
  taken_listed (suc n) (a ∷ rows) = (
    ground (arith, ==-refl (id a)),
    All-map _ _ (λ b h. ground arith) (take n rows) (taken_listed n rows),
  )

  -- A pass leaves at most what was expired beyond its limit.
  pub reclaim_rows_progress :
      (limit now : ℕ) (rows : List A)
      → count_where (expired now) (reclaim_rows t limit now rows).1
        ≤ count_where (expired now) rows - limit
  unfolding reclaim_rows update_work
  reclaim_rows_progress limit now rows =
      let ids = map id (take limit (select (expired now) rows)) in
      omega (
        arith,
        taken_are_hit (expired now) ids limit rows (taken_listed limit (select (expired now) rows)),
        count_after (expired now) (λ a. if expired now a then mem_id (id a) ids else false)
            (λ a. set_work a (reclaimed now (work a))) (λ a h. ground arith)
            (λ a h.
              ap (is_expired now) (work-set_work a (reclaimed now (work a)))
              ∙ not_expired now (work a))
            rows,
      )

abbrev expired_jobs : ℕ → Database → ℕ
expired_jobs now db = count_where (expired job_table now) db.jobs

abbrev expired_targets : ℕ → Database → ℕ
expired_targets now db = count_where (expired target_table now) db.targets

abbrev expired_tasks : ℕ → Database → ℕ
expired_tasks now db = count_where (is_task_expired now) db.control_tasks

jobs-reclaim_pass :
    (now : ℕ) (db : Database) → expired_jobs now (reclaim_pass now db) ≤ expired_jobs now db - 200
unfolding reclaim_pass Jobs.reclaim_expired Broadcasts.resume_flood_paused
    Broadcasts.reclaim_expired reclaim_expired_control
jobs-reclaim_pass now db = reclaim_rows_progress job_table 200 now db.jobs

targets-reclaim_pass :
    (now : ℕ) (db : Database)
    → expired_targets now (reclaim_pass now db) ≤ expired_targets now db - 200
unfolding reclaim_pass Jobs.reclaim_expired Broadcasts.resume_flood_paused
    Broadcasts.reclaim_expired reclaim_expired_control
targets-reclaim_pass now db = reclaim_rows_progress target_table 200 now db.targets

tasks-reclaim_pass : (now : ℕ) (db : Database) → expired_tasks now (reclaim_pass now db) ≡ 0
unfolding reclaim_pass Jobs.reclaim_expired Broadcasts.resume_flood_paused
    Broadcasts.reclaim_expired reclaim_expired_control
tasks-reclaim_pass now db =
    count_where-update_where_zero (is_task_expired now) (is_task_expired now) reclaimed_task
      (λ x h. refl) (λ x h. h) db.control_tasks

jobs-reclaim_passes :
    (n now : ℕ) (db : Database)
    → expired_jobs now db ≤ n * 200
    → expired_jobs now (reclaim_passes n now db) ≡ 0
unfolding reclaim_passes
jobs-reclaim_passes zero now db enough = omega (arith, enough)
jobs-reclaim_passes (suc n) now db enough =
    jobs-reclaim_passes n now (reclaim_pass now db)
      (omega (arith, enough, jobs-reclaim_pass now db))

targets-reclaim_passes :
    (n now : ℕ) (db : Database)
    → expired_targets now db ≤ n * 200
    → expired_targets now (reclaim_passes n now db) ≡ 0
unfolding reclaim_passes
targets-reclaim_passes zero now db enough = omega (arith, enough)
targets-reclaim_passes (suc n) now db enough =
    targets-reclaim_passes n now (reclaim_pass now db)
      (omega (arith, enough, targets-reclaim_pass now db))

tasks-reclaim_passes :
    (n now : ℕ) (db : Database) → expired_tasks now (reclaim_passes (suc n) now db) ≡ 0
unfolding reclaim_passes
tasks-reclaim_passes zero now db = tasks-reclaim_pass now db
tasks-reclaim_passes (suc n) now db = tasks-reclaim_passes n now (reclaim_pass now db)

-- As many passes at a time `now` as there are two hundreds of expired jobs and of expired targets, and
-- one at least, leave no job, no target and no control task whose lease has expired at `now`.
pub reclaim_passes_finish :
    (n now : ℕ) (db : Database) (jobs : count_where (expired job_table now) db.jobs ≤ suc n * 200)
    (targets : count_where (expired target_table now) db.targets ≤ suc n * 200)
    → let after = reclaim_passes (suc n) now db in
      (count_where (expired job_table now) after.jobs ≡ 0)
      × (count_where (expired target_table now) after.targets ≡ 0)
      × (count_where (is_task_expired now) after.control_tasks ≡ 0)
reclaim_passes_finish n now db jobs targets = (
  jobs-reclaim_passes (suc n) now db jobs,
  targets-reclaim_passes (suc n) now db targets,
  tasks-reclaim_passes n now db,
)
