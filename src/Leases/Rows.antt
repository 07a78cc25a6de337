-- ===== src/Leases/Rows.antt =====
-- What each operation of the repositories writes into the shared columns of one row.
use text.Mathlib.Text.{◌==◌ as str_eq}
use insightxadsflow.Prelude.{
  ℕ, ◌+◌, Bool, false, Option, some, none, if◌then◌else◌, leb, ltb, String,
}
use insightxadsflow.Models.{Work, JobStatus, is_pending, is_leased}

-- `status == pending AND not_before <= now()`
unfoldable pub is_due : ℕ → Work → Bool
is_due now w = if is_pending w.status then leb w.not_before now else false

abbrev before : ℕ → Option ℕ → Bool
before now none = false
before now (some t) = ltb t now

-- `status == leased AND lease_expires_at < now()`
unfoldable pub is_expired : ℕ → Work → Bool
is_expired now w = if is_leased w.status then before now w.lease_expires_at else false

abbrev same_owner : String → Option String → Bool
same_owner owner none = false
same_owner owner (some o) = str_eq o owner

unfoldable pub owned_by : String → Work → Bool
owned_by owner w = same_owner owner w.lease_owner

-- `claim_batch`
unfoldable pub lease : String → ℕ → ℕ → Work → Work
lease owner deadline now w = record w {
  status = JobStatus.leased;
  lease_owner = some owner;
  lease_expires_at = some deadline;
  updated_at = now;
}

-- `heartbeat`
unfoldable pub renew : ℕ → ℕ → Work → Work
renew deadline now w = record w { lease_expires_at = some deadline; updated_at = now }

-- `reclaim_expired`
unfoldable pub reclaimed : ℕ → Work → Work
reclaimed now w = record w {
  status = JobStatus.pending;
  lease_owner = none;
  lease_expires_at = none;
  updated_at = now;
}

-- `cancel_pending_for_rule`, `cancel_pending_for_connection`, `cancel_pending`
unfoldable pub cancelled : ℕ → Work → Work
cancelled now w = record w {
  status = JobStatus.skipped;
  lease_owner = none;
  lease_expires_at = none;
  updated_at = now;
}

-- `requeue_failed`: `lease_expires_at` is not written.
unfoldable pub requeued : ℕ → Work → Work
requeued now w = record w {
  status = JobStatus.pending;
  attempt_count = 0;
  not_before = now;
  lease_owner = none;
  updated_at = now;
}

-- `finish`
unfoldable pub finished : ℕ → JobStatus → Option ℕ → Option String → Option String → Work → Work
finished now status destination_message_id error_class error_code w = record w {
  status = status;
  lease_owner = none;
  lease_expires_at = none;
  destination_message_id = destination_message_id;
  last_error_class = error_class;
  last_error_code = error_code;
  updated_at = now;
}

-- `reschedule`
unfoldable pub rescheduled : ℕ → ℕ → String → String → Work → Work
rescheduled now delay error_class error_code w = record w {
  status = JobStatus.pending;
  lease_owner = none;
  lease_expires_at = none;
  attempt_count = w.attempt_count + 1;
  not_before = now + delay;
  last_error_class = some error_class;
  last_error_code = some error_code;
  updated_at = now;
}

-- One row of `reopen_for_repeat`
unfoldable pub reopened : ℕ → ℕ → Work → Work
reopened now not_before w = record w {
  status = JobStatus.pending;
  attempt_count = 0;
  not_before = not_before;
  lease_owner = none;
  lease_expires_at = none;
  destination_message_id = none;
  last_error_class = none;
  last_error_code = none;
  updated_at = now;
}
