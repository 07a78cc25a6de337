-- ===== src/Jobs/Creation.antt =====
-- `create_if_absent` of repositories/jobs.py: one job for an idempotency key.
use insightxadsflow.Prelude.{ℕ, ◌≡◌, refl, true, List, [], ◌∷◌, ◌++◌, none, arith, if◌then◌else◌}
use insightxadsflow.Models.{Text, ForwardingJob, Database}
use insightxadsflow.Text.Laws.{same_text_refl}
use insightxadsflow.Jobs.{NewJob, has_key, pending_job, create_if_absent}

pub has_key-append :
    (key : Text) (xs ys : List ForwardingJob)
    → has_key key (xs ++ ys) ≡ (if has_key key xs then true else has_key key ys)
unfolding has_key
has_key-append key [] ys = refl
has_key-append key (x ∷ xs) ys = ground (arith, has_key-append key xs ys)

pub has_key-pending_job :
    (now : ℕ) (n : NewJob) → has_key n.idempotency_key (pending_job now n ∷ []) ≡ true
unfolding has_key pending_job
has_key-pending_job now n = rw (same_text_refl n.idempotency_key)

-- After a call the key is there, whoever created it.
pub has_key-create_if_absent :
    (now : ℕ) (n : NewJob) (db : Database)
    → has_key n.idempotency_key (create_if_absent now n db).1.jobs ≡ true
unfolding create_if_absent
has_key-create_if_absent now n db = ground (
  arith,
  has_key-append n.idempotency_key db.jobs (pending_job now n ∷ []),
  has_key-pending_job now n,
)

-- A key that is there stays there.
pub has_key-create_if_absent_mono :
    (key : Text) (now : ℕ) (n : NewJob) (db : Database)
    → has_key key db.jobs ≡ true
    → has_key key (create_if_absent now n db).1.jobs ≡ true
unfolding create_if_absent
has_key-create_if_absent_mono key now n db h =
    ground (arith, has_key-append key db.jobs (pending_job now n ∷ []))

-- With the key there, nothing is created and nothing changes.
pub create_if_absent_present :
    (now : ℕ) (n : NewJob) (db : Database)
    → has_key n.idempotency_key db.jobs ≡ true
    → create_if_absent now n db ≡ (none, db)
unfolding create_if_absent
create_if_absent_present now n db h = rw h

-- A delivery that was created once is never created again: after one call, a second one with the
-- same key, whatever its other columns, at any later time, creates nothing and changes nothing.
pub create_twice :
    (now later : ℕ) (n m : NewJob) (db : Database)
    → m.idempotency_key ≡ n.idempotency_key
    → let after = (create_if_absent now n db).1 in create_if_absent later m after ≡ (none, after)
create_twice now later n m db same =
    create_if_absent_present later m (create_if_absent now n db).1
      (rw same (has_key-create_if_absent now n db))
