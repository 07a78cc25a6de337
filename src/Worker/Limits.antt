-- ===== src/Worker/Limits.antt =====
-- worker.py: what is claimed stays within each connection's limit.
use insightxadsflow.Prelude.{
  ℕ, ◌+◌, ◌≤◌, ◌≡◌, refl, sym, ap, ◌∙◌, ◌⊎◌, inl, inr, Bool, true, false, not, List, subst, [], ◌∷◌,
  ◌++◌, some, none, ◌==◌, if◌then◌else◌, leb, map, All, All-map, arith, Bool-cases, ==_iff, ==-refl,
  count_where, count_where-add, update_where, count_where-update_where_hit, String,
}
use insightxadsflow.Models.{Settings, ForwardingJob, Database, put_job, is_leased}
use insightxadsflow.Leases.{mem_id}
use insightxadsflow.Jobs
use insightxadsflow.Worker.{
  Dict, Admission, admit, admit_jobs, claim_within_limits, released, insert, count_or,
  nothing_admitted,
}

module _ {A : Type 0} (on : A → ℕ) (limit : ℕ) (base : ℕ → ℕ) where
  abbrev pub admitted_on : ℕ → List A → ℕ
  admitted_on c rows = count_where (λ row. on row == c) rows

  -- The dictionary counts what was accepted on top of `base`, and no entry is above the limit.
  abbrev pub IsWithin : Admission A → Type 0
  IsWithin admission =
      (c : ℕ)
      → ((admission.per_connection c ≡ none) × (admitted_on c admission.accepted ≡ 0))
        ⊎ ((admission.per_connection c ≡ some (base c + admitted_on c admission.accepted))
            × (base c + admitted_on c admission.accepted ≤ limit))

  abbrev IsWithinOn : ℕ → Dict → List A → Type 0
  IsWithinOn c dict accepted =
      ((dict c ≡ none) × (admitted_on c accepted ≡ 0))
      ⊎ ((dict c ≡ some (base c + admitted_on c accepted))
          × (base c + admitted_on c accepted ≤ limit))

  admitted_here :
      (row : A) (dict : Dict) (accepted : List A)
      → leb limit (count_or (base (on row)) (dict (on row))) ≡ false
      → IsWithinOn (on row) dict accepted
      → IsWithinOn
          (on row)
          (insert (on row) (count_or (base (on row)) (dict (on row)) + 1) dict)
          (accepted ++ row ∷ [])
  admitted_here row dict accepted e (inl (fresh, zero)) = inr (
    ground (
      arith,
      fresh,
      zero,
      e,
      ==-refl (on row),
      count_where-add (λ r. on r == on row) row accepted,
    ),
    ground (
      arith,
      fresh,
      zero,
      e,
      ==-refl (on row),
      count_where-add (λ r. on r == on row) row accepted,
    ),
  )
  admitted_here row dict accepted e (inr (counted, fits)) = inr (
    ground
        (arith, counted, e, ==-refl (on row), count_where-add (λ r. on r == on row) row accepted),
    ground
        (arith, counted, e, ==-refl (on row), count_where-add (λ r. on r == on row) row accepted),
  )

  admitted_elsewhere :
      (c n : ℕ) (row : A) (dict : Dict) (accepted : List A)
      → (on row == c) ≡ false
      → IsWithinOn c dict accepted
      → IsWithinOn c (insert (on row) n dict) (accepted ++ row ∷ [])
  admitted_elsewhere c n row dict accepted other within =
      rw (count_where-add (λ r. on r == c) row accepted, other, other_way) within
    where
      other_way : (c == on row) ≡ false
      other_way = ground arith

  pub admit-IsWithin :
      (row : A) (given_back : Database) (admission : Admission A) (db : Database)
      → IsWithin admission
      → IsWithin (admit limit (base (on row)) (on row) row given_back (admission, db)).0
  unfolding admit
  admit-IsWithin row given_back admission db within c =
      elim (Bool-cases (leb limit (count_or (base (on row)) (admission.per_connection (on row))))) [
        | inl e ↦ rw e (within c)
        | inr e ↦ rw e (elim (Bool-cases (on row == c)) [
          | inl same ↦
              subst
                (λ d.
                  IsWithinOn d
                    (insert (on row)
                      (count_or (base (on row)) (admission.per_connection (on row)) + 1)
                      admission.per_connection)
                    (admission.accepted ++ row ∷ []))
                ((==_iff (on row) c).0 same)
                (admitted_here row admission.per_connection admission.accepted e (within (on row)))
          | inr other ↦
              admitted_elsewhere c _ row admission.per_connection admission.accepted other
                (within c)
        ])
      ]

pub excluded :
    (a b m : Bool) → m ≡ true → (if a then (if b then not m else false) else false) ≡ false
excluded a b m h = ground arith

-- A row of the batch does not count, before or after it is written.
batch_not_counted :
    (batch_ids : List ℕ) (c : ℕ) (job new : ForwardingJob) (jobs : List ForwardingJob)
    → mem_id job.id batch_ids ≡ true
    → new.id ≡ job.id
    → count_where
        (λ j.
          if j.connection_id == c
          then (if is_leased j.work.status then not (mem_id j.id batch_ids) else false)
          else false)
        (update_where (λ j. j.id == new.id) (λ _. new) jobs)
      ≡ count_where
          (λ j.
            if j.connection_id == c
            then (if is_leased j.work.status then not (mem_id j.id batch_ids) else false)
            else false)
          jobs
batch_not_counted batch_ids c job new jobs mine same =
    count_where-update_where_hit (λ j. j.id == new.id) _ (λ _. new)
      (λ j hit.
        excluded (new.connection_id == c) (is_leased new.work.status) (mem_id new.id batch_ids)
          (ap (λ i. mem_id i batch_ids) same ∙ mine)
        ∙ sym (
            excluded (j.connection_id == c) (is_leased j.work.status) (mem_id j.id batch_ids)
              (ap (λ i. mem_id i batch_ids) ((==_iff j.id new.id).0 hit ∙ same) ∙ mine)))
      jobs

-- What holds of the database with the lease released and of the one it was holds after `admit`.
pub admit_either {ℓ} :
    {A : Type 0} (P : Database → Type ℓ) (limit baseline c : ℕ) (row : A) (given_back : Database)
    (admission : Admission A) (db : Database)
    → P given_back
    → P db
    → P (admit limit baseline c row given_back (admission, db)).1
unfolding admit
admit_either P limit baseline c row given_back admission db released kept =
    elim (Bool-cases (leb limit (count_or baseline (admission.per_connection c)))) [
      | inl e ↦ rw e released
      | inr e ↦ rw e kept
    ]

-- Every row of a list has its id in the list's ids.
pub ids_of_batch :
    {A : Type 0} (id : A → ℕ) (rows : List A) → All (λ r. mem_id (id r) (map id rows) ≡ true) rows
ids_of_batch id [] = tt
ids_of_batch id (row ∷ rest) = (
  ground (arith, ==-refl (id row)),
  All-map _ _ (λ r h. ground arith) rest (ids_of_batch id rest),
)

module _ (limit now : ℕ) (batch_ids : List ℕ) where
  abbrev on_job : ForwardingJob → ℕ
  on_job j = j.connection_id

  in_flight-put_job :
      (c : ℕ) (job new : ForwardingJob) (db : Database)
      → mem_id job.id batch_ids ≡ true
      → new.id ≡ job.id
      → Jobs.in_flight_count (put_job new db) c batch_ids ≡ Jobs.in_flight_count db c batch_ids
  unfolding Jobs.in_flight_count put_job
  in_flight-put_job c job new db mine same = batch_not_counted batch_ids c job new db.jobs mine same

  admit_jobs-IsWithin :
      (base : ℕ → ℕ) (jobs : List ForwardingJob)
      → All (λ j. mem_id j.id batch_ids ≡ true) jobs
      → (state : Admission ForwardingJob × Database)
      → ((c : ℕ) → Jobs.in_flight_count state.1 c batch_ids ≡ base c)
      → IsWithin on_job limit base state.0
      → IsWithin on_job limit base (admit_jobs limit now batch_ids jobs state).0
  unfolding admit_jobs
  admit_jobs-IsWithin base [] mine state counts within = within
  admit_jobs-IsWithin base (job ∷ rest) mine (admission, db) counts within =
      let c = job.connection_id in
      let given_back = put_job (record job { work = released now job.work }) db in
      subst
        (λ baseline.
          IsWithin on_job limit base
            (admit_jobs limit now batch_ids rest
              (admit limit baseline c job given_back (admission, db))).0)
        (sym (counts c))
        (admit_jobs-IsWithin base rest mine.1
          (admit limit (base c) c job given_back (admission, db))
          (λ d.
            admit_either (λ after. Jobs.in_flight_count after d batch_ids ≡ base d) limit (base c) c
              job given_back admission db
              (in_flight-put_job d job (record job { work = released now job.work }) db mine.0 refl
                ∙ counts d)
              (counts d))
          (admit-IsWithin on_job limit base job given_back admission db within))

pub within_limit :
    {A : Type 0} (on : A → ℕ) (limit : ℕ) (base : ℕ → ℕ) (admission : Admission A)
    → IsWithin on limit base admission
    → (c : ℕ)
    → (admitted_on on limit base c admission.accepted ≡ 0)
      ⊎ (base c + admitted_on on limit base c admission.accepted ≤ limit)
within_limit on limit base admission within c = elim (within c) [
  | inl (fresh, zero) ↦ inl zero
  | inr (counted, fits) ↦ inr fits
]

pub nothing_IsWithin :
    {A : Type 0} (on : A → ℕ) (limit : ℕ) (base : ℕ → ℕ) → IsWithin on limit base nothing_admitted
nothing_IsWithin on limit base c = inl (refl, refl)

-- Of the jobs that a pass of the worker keeps, none is on a connection, or they and the jobs that were
-- leased on it besides the batch are at most `per_connection_inflight`.
pub claim_within_limits_bounded :
    (settings : Settings) (locked : ℕ → Bool) (owner : String) (capacity now : ℕ) (db : Database)
    (connection_id : ℕ)
    → let (jobs, claimed) = Jobs.claim_batch locked owner capacity settings.lease_seconds now db in
      let kept = (claim_within_limits settings locked owner capacity now db).0 in
      (count_where (λ j. j.connection_id == connection_id) kept ≡ 0)
      ⊎ (Jobs.in_flight_count claimed connection_id (map (λ j. j.id) jobs)
            + count_where (λ j. j.connection_id == connection_id) kept
          ≤ settings.per_connection_inflight)
unfolding claim_within_limits
claim_within_limits_bounded settings locked owner capacity now db connection_id =
    let (jobs, claimed) = Jobs.claim_batch locked owner capacity settings.lease_seconds now db in
    let batch_ids = map (λ (j : ForwardingJob). j.id) jobs in
    let limit = settings.per_connection_inflight in
    let base = λ (c : ℕ). Jobs.in_flight_count claimed c batch_ids in
    within_limit (λ (j : ForwardingJob). j.connection_id) limit base
      (admit_jobs limit now batch_ids jobs (nothing_admitted, claimed)).0
      (admit_jobs-IsWithin limit now batch_ids base jobs
        (ids_of_batch (λ (j : ForwardingJob). j.id) jobs) (nothing_admitted, claimed) (λ c. refl)
        (nothing_IsWithin (λ (j : ForwardingJob). j.connection_id) limit base))
      connection_id
