-- ===== src/Leases/Steps.antt =====
-- The life of one row as a relation: each constructor is what one operation of the repositories does
-- to a row that its WHERE clause selects.
use insightxadsflow.Prelude.{ℕ, ◌≡◌, refl, true, arith, String, is_some}
use insightxadsflow.Models.{Work, is_leased, is_succeeded, is_unfinished, is_requeueable}
use insightxadsflow.Leases.{
  lease, renew, reclaimed, cancelled, requeued, is_due, is_expired, owned_by,
}

pub data RowStep : Work → Work → Type 0 where
  stay : {w : Work} → RowStep w w
  claim :
      {w : Work} (owner : String) (deadline now : ℕ)
      → is_due now w ≡ true
      → RowStep w (lease owner deadline now w)
  heartbeat :
      {w : Work} (owner : String) (deadline now : ℕ)
      → owned_by owner w ≡ true
      → RowStep w (renew deadline now w)
  reclaim : {w : Work} (now : ℕ) → is_expired now w ≡ true → RowStep w (reclaimed now w)
  cancel : {w : Work} (now : ℕ) → is_unfinished w.status ≡ true → RowStep w (cancelled now w)
  requeue : {w : Work} (now : ℕ) → is_requeueable w.status ≡ true → RowStep w (requeued now w)

-- An owner and a deadline are there exactly while the row is leased.
pub record LeaseIsExact (w : Work) : Type 0 where
  pub owner : is_some w.lease_owner ≡ is_leased w.status
  pub deadline : is_some w.lease_expires_at ≡ is_leased w.status

pub RowStep-LeaseIsExact : {w v : Work} → RowStep w v → LeaseIsExact w → LeaseIsExact v
unfolding lease renew reclaimed cancelled requeued owned_by
RowStep-LeaseIsExact stay h = h
RowStep-LeaseIsExact (claim o d n p) h = record { owner = refl; deadline = refl }
RowStep-LeaseIsExact (heartbeat o d n p) h = ground (arith, h.owner, h.deadline)
RowStep-LeaseIsExact (reclaim n p) h = record { owner = refl; deadline = refl }
RowStep-LeaseIsExact (cancel n p) h = record { owner = refl; deadline = refl }
RowStep-LeaseIsExact (requeue n p) h = ground (arith, h.owner, h.deadline)

-- No operation leads out of `succeeded`, once the lease is gone.
pub RowStep-succeeded :
    {w v : Work} → RowStep w v → LeaseIsExact w → is_succeeded w.status ≡ true → v ≡ w
unfolding is_due is_expired owned_by
RowStep-succeeded stay x h = refl
RowStep-succeeded (claim o d n p) x h = ground arith
RowStep-succeeded (heartbeat o d n p) x h = ground (arith, x.owner)
RowStep-succeeded (reclaim n p) x h = ground arith
RowStep-succeeded (cancel n p) x h = ground arith
RowStep-succeeded (requeue n p) x h = ground arith
