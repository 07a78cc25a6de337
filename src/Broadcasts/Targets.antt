-- ===== src/Broadcasts/Targets.antt =====
-- `replace_targets` of repositories/broadcasts.py: the list of groups is edited in place.
use insightxadsflow.Prelude.{
  ℕ, ◌+◌, Bool, false, not, List, [], ◌∷◌, ◌++◌, none, ◌==◌, if◌then◌else◌, any, length,
  update_where, delete_where,
}
use insightxadsflow.Models.{BroadcastTarget, Broadcast, JobStatus, Database}
use insightxadsflow.Leases.{mem_id}

-- `wanted`: the chat ids with repetitions dropped; the first list is `seen`.
unfoldable pub distinct : List ℕ → List ℕ → List ℕ
distinct seen [] = []
distinct seen (c ∷ cs) =
    let old = mem_id c seen in
    let rest = distinct (if old then seen else c ∷ seen) cs in if old then rest else c ∷ rest

unfoldable pub is_target : ℕ → ℕ → BroadcastTarget → Bool
is_target broadcast_id chat_id t =
    if t.broadcast_id == broadcast_id then t.chat_id == chat_id else false

unfoldable pub new_target : ℕ → ℕ → ℕ → ℕ → ℕ → BroadcastTarget
new_target now target_id broadcast_id chat_id position = record {
  id = target_id;
  broadcast_id = broadcast_id;
  chat_id = chat_id;
  position = position;
  mtproto_random_id = none;
  work = record {
    status = JobStatus.pending;
    attempt_count = 0;
    not_before = now;
    lease_owner = none;
    lease_expires_at = none;
    destination_message_id = none;
    last_error_class = none;
    last_error_code = none;
    updated_at = now;
  };
}

-- The loop over `enumerate(wanted)`; `fresh` gives the id of the row added at a position. A kept row
-- gets its new position, whether it changes or not.
unfoldable pub place : (ℕ → ℕ) → ℕ → ℕ → ℕ → List ℕ → List BroadcastTarget → List BroadcastTarget
unfolding is_target new_target
place fresh now broadcast_id position [] targets = targets
place fresh now broadcast_id position (c ∷ cs) targets =
    place fresh now broadcast_id (position + 1) cs (
      if any (is_target broadcast_id c) targets
      then update_where (is_target broadcast_id c) (λ t. record t { position = position }) targets
      else targets ++ new_target now (fresh position) broadcast_id c position ∷ [])

unfoldable pub replace_targets : (ℕ → ℕ) → ℕ → Broadcast → List ℕ → Database → ℕ × Database
unfolding distinct place
replace_targets fresh now broadcast chat_ids db =
    let wanted = distinct [] chat_ids in
    let kept =
      delete_where
        (λ t. if t.broadcast_id == broadcast.id then not (mem_id t.chat_id wanted) else false)
        db.targets in
    (length wanted, record db { targets = place fresh now broadcast.id 0 wanted kept })
