-- ===== src/Broadcasts/Claiming.antt =====
-- What `claim_batch` of repositories/broadcasts.py hands to a worker.
use insightxadsflow.Prelude.{
  All-map, ℕ, ◌+◌, ◌*◌, ◌≤◌, ◌≡◌, Bool, true, false, refl, All, length, String, IsStored,
  any-IsStored, ◌==◌, if◌then◌else◌, arith,
}
use insightxadsflow.Models.{
  Broadcast, BroadcastTarget, BroadcastStatus, Database, is_sending, second,
}
use insightxadsflow.Leases.Picks.{Unique}
use insightxadsflow.Leases.Claims.{IsClaimed, claim_rows_lem}
use insightxadsflow.Broadcasts.{target_table, claim_batch, feeds}

-- A row of the table of broadcasts that a target belongs to and that is sending.
pub record IsFedBy (db : Database) (t : BroadcastTarget) : Type 0 where
  pub broadcast : Broadcast
  pub stored : IsStored db.broadcasts broadcast
  pub same : broadcast.id ≡ t.broadcast_id
  pub sending : broadcast.status ≡ BroadcastStatus.sending

sending_status : (s : BroadcastStatus) → is_sending s ≡ true → s ≡ BroadcastStatus.sending
sending_status s h = ground arith

feeds-IsFedBy :
    (db : Database) (t : BroadcastTarget) → feeds db t.broadcast_id ≡ true → IsFedBy db t
unfolding feeds
feeds-IsFedBy db t h =
    let (b, stored, passes) =
      any-IsStored (λ b. if b.id == t.broadcast_id then is_sending b.status else false)
        db.broadcasts h in
    record {
      broadcast = b;
      stored = stored;
      same = ground arith;
      sending = sending_status b.status (ground arith);
    }

module _ (locked : ℕ → Bool) (owner : String) (limit lease_seconds now : ℕ) (db : Database) where
  -- A target that is handed out.
  abbrev pub IsHandedOut : BroadcastTarget → Type 0
  IsHandedOut t =
      IsClaimed target_table db.targets owner (now + lease_seconds * second) now locked
        (λ t. feeds db t.broadcast_id) t
      × IsFedBy db t

  -- From a table of targets with distinct ids at most `limit` targets are claimed, and each of them was
  -- a pending row of the table, due and not locked, is leased to the owner for the lease time, and
  -- belongs to a stored broadcast that is sending: a paused, cancelled or finished broadcast feeds the
  -- worker nothing.
  pub claim_batch_lem :
      (u : Unique target_table db.targets)
      → let rows = (claim_batch locked owner limit lease_seconds now db).0 in
        (length rows ≤ limit) × All IsHandedOut rows
  unfolding claim_batch
  claim_batch_lem u =
      let (few, claimed) =
        claim_rows_lem target_table locked owner limit lease_seconds now
          (λ t. feeds db t.broadcast_id) db.targets (λ t w. refl) u in
      (few, All-map _ IsHandedOut (λ t c. (c, feeds-IsFedBy db t c.was_ready)) _ claimed)
