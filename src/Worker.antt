-- ===== src/Worker.antt =====
-- worker.py: claiming work within each connection's limit, and processing what was claimed.
pub mod Limits
pub mod SharedLimits
pub mod Control
pub mod Failures
use insightxadsflow.Prelude.{
  ℕ, suc, ◌+◌, Bool, true, false, List, [], ◌∷◌, ◌++◌, Option, some, none, ◌==◌, if◌then◌else◌, leb,
  map, find_where, String,
}
use insightxadsflow.Models.{
  Settings, TelegramAdapter, TelegramConnection, Work, JobStatus, ForwardingJob, Broadcast,
  BroadcastTarget, Database, get_job, get_target, get_broadcast, put_job, put_target,
}
use insightxadsflow.Text.{Unicode}
use insightxadsflow.Jobs
use insightxadsflow.Broadcasts
use insightxadsflow.Delivery.{execute_job}
use insightxadsflow.Posting.{execute_target}

-- A `dict` from ids to numbers.
abbrev pub Dict : Type 0
Dict = ℕ → Option ℕ

abbrev pub empty : Dict
empty k = none

abbrev pub insert : ℕ → ℕ → Dict → Dict
insert k n dict l = if l == k then some n else dict l

abbrev pub count_or : ℕ → Option ℕ → ℕ
count_or n none = n
count_or n (some m) = m

-- The lease that is given back: `pending`, and no owner.
unfoldable pub released : ℕ → Work → Work
released now w = record w {
  status = JobStatus.pending;
  lease_owner = none;
  lease_expires_at = none;
  updated_at = now;
}

-- `accepted` and `per_connection`
pub record Admission (A : Type 0) : Type 0 where
  pub accepted : List A
  pub per_connection : Dict

abbrev pub nothing_admitted : {A : Type 0} → Admission A
nothing_admitted = record { accepted = []; per_connection = empty }

module _ {A : Type 0} where
  -- What both loops do with one row: `baseline` is what the connection has in flight without the batch,
  -- `given_back` the database with the row's lease released.
  unfoldable pub admit : ℕ → ℕ → ℕ → A → Database → Admission A × Database → Admission A × Database
  admit limit baseline connection_id row given_back (admission, db) =
      let in_flight = count_or baseline (admission.per_connection connection_id) in
      if leb limit in_flight then (admission, given_back) else (
        record {
          accepted = admission.accepted ++ row ∷ [];
          per_connection = insert connection_id (in_flight + 1) admission.per_connection;
        },
        db,
      )

unfoldable pub admit_jobs :
    ℕ
    → ℕ
    → List ℕ
    → List ForwardingJob
    → Admission ForwardingJob × Database
    → Admission ForwardingJob × Database
unfolding admit released put_job
admit_jobs limit now batch_ids [] state = state
admit_jobs limit now batch_ids (job ∷ rest) (admission, db) = admit_jobs limit now batch_ids rest (
    admit limit (Jobs.in_flight_count db job.connection_id batch_ids) job.connection_id job
      (put_job (record job { work = released now job.work }) db) (admission, db))

-- `_claim_within_limits`
unfoldable pub claim_within_limits :
    Settings → (ℕ → Bool) → String → ℕ → ℕ → Database → List ForwardingJob × Database
unfolding admit_jobs
claim_within_limits settings locked owner capacity now db =
    let (jobs, db₁) = Jobs.claim_batch locked owner capacity settings.lease_seconds now db in
    let (admission, db₂) =
      admit_jobs settings.per_connection_inflight now (map (λ j. j.id) jobs) jobs
        (nothing_admitted, db₁) in
    (admission.accepted, db₂)

abbrev connection_of_broadcast : Option Broadcast → Option ℕ
connection_of_broadcast none = none
connection_of_broadcast (some broadcast) = some broadcast.connection_id

-- `connection_of.get`, and where that has nothing the broadcast's row
abbrev pub look_up : Database → ℕ → Option ℕ → Option ℕ
look_up db broadcast_id (some connection_id) = some connection_id
look_up db broadcast_id none = connection_of_broadcast (get_broadcast db broadcast_id)

-- A target whose broadcast is gone: only its status is written.
abbrev pub orphaned : ℕ → BroadcastTarget → BroadcastTarget
orphaned now target = record target {
  work = record target.work { status = JobStatus.skipped; updated_at = now };
}

abbrev pub release_target : ℕ → BroadcastTarget → BroadcastTarget
release_target now target = record target { work = released now target.work }

module _ (limit now : ℕ) (batch_ids : List ℕ) where
  -- What is in flight on a connection besides the batch: jobs and targets together.
  unfoldable pub shared_in_flight : Database → ℕ → ℕ
  shared_in_flight db connection_id =
      Jobs.in_flight_count db connection_id []
      + Broadcasts.in_flight_count db connection_id batch_ids

  -- One round of the loop; the first component is `connection_of`.
  unfoldable pub admit_target :
      BroadcastTarget
      → Option ℕ
      → Dict × Admission BroadcastTarget × Database
      → Dict × Admission BroadcastTarget × Database
  unfolding admit shared_in_flight put_target released
  admit_target target none (connection_of, admission, db) =
      (connection_of, admission, put_target (orphaned now target) db)
  admit_target target (some connection_id) (connection_of, admission, db) =
      let (admission', db') =
        admit limit (shared_in_flight db connection_id) connection_id target
          (put_target (release_target now target) db) (admission, db) in
      (insert target.broadcast_id connection_id connection_of, admission', db')

  unfoldable pub admit_targets :
      List BroadcastTarget
      → Dict × Admission BroadcastTarget × Database
      → Dict × Admission BroadcastTarget × Database
  unfolding admit_target get_broadcast
  admit_targets [] state = state
  admit_targets (target ∷ rest) (connection_of, admission, db) = admit_targets rest (
      admit_target target (look_up db target.broadcast_id (connection_of target.broadcast_id))
        (connection_of, admission, db))

-- `_claim_broadcasts_within_limits`
unfoldable pub claim_broadcasts_within_limits :
    Settings → (ℕ → Bool) → String → ℕ → ℕ → Database → List BroadcastTarget × Database
unfolding admit_targets
claim_broadcasts_within_limits settings locked owner capacity now db =
    let (targets, db₁) =
      Broadcasts.claim_batch locked owner capacity settings.lease_seconds now db in
    let (_, admission, db₂) =
      admit_targets settings.broadcast_inflight now (map (λ t. t.id) targets) targets
        (empty, nothing_admitted, db₁) in
    (admission.accepted, db₂)

-- `get_unscoped_for_worker` of repositories/connections.py
unfoldable pub get_connection : Database → ℕ → Option TelegramConnection
get_connection db connection_id = find_where (λ c. c.id == connection_id) db.connections

module _ (u : Unicode) (settings : Settings) (adapter : TelegramAdapter) (uniform : ℕ → ℕ) (now : ℕ)
    (db : Database) where
  abbrev run_job : ForwardingJob → Option TelegramConnection → Database
  run_job job none = db
  run_job job (some connection) = (execute_job u settings adapter uniform now job connection db).1

  abbrev with_job : Option ForwardingJob → Database
  with_job none = db
  with_job (some job) = run_job job (get_connection db job.connection_id)

  -- `adapter_for` is the argument `adapter`; pacing waits, and the heartbeat is `Jobs.heartbeat`.
  unfoldable pub process_job : ℕ → Database
  unfolding get_connection get_job
  process_job job_id = with_job (get_job db job_id)

  abbrev run_target : BroadcastTarget → Option TelegramConnection → Database
  run_target target none = db
  run_target target (some connection) =
      (execute_target u settings adapter uniform now target connection db).1

  abbrev with_broadcast : BroadcastTarget → Option Broadcast → Database
  with_broadcast target none = db
  with_broadcast target (some broadcast) =
      run_target target (get_connection db broadcast.connection_id)

  abbrev with_target : Option BroadcastTarget → Database
  with_target none = db
  with_target (some target) = with_broadcast target (get_broadcast db target.broadcast_id)

  unfoldable pub process_broadcast_target : ℕ → Database
  unfolding get_connection get_target get_broadcast
  process_broadcast_target target_id = with_target (get_target db target_id)
