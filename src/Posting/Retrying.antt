-- ===== src/Posting/Retrying.antt =====
-- What `retry_unfinished` of services/broadcast.py leaves alone.
use insightxadsflow.Prelude.{
  All-map, ◌+◌, ◌*◌, ==_iff, ℕ, ◌≡◌, refl, ◌∙◌, Bool, true, false, List, [], ◌∷◌, some, arith, any,
  select, order_by, ◌==◌, if◌then◌else◌, Bool-cases, inl, inr,
}
use insightxadsflow.Models.{
  JobStatus, millisecond, Work, Broadcast, BroadcastTarget, Database, is_succeeded, is_pending,
  get_target, put_broadcast,
}
use insightxadsflow.Leases.{mem_id}
use insightxadsflow.Leases.Picks.{any-order_by, any-select, mem_id-map}
use insightxadsflow.Leases.Tables.{
  IsSound, TableStep-succeeded, requeue_rows-TableStep, TableStep-IsSound,
}
use insightxadsflow.Leases.Picks.{any_none, Unique}
use insightxadsflow.Broadcasts
use insightxadsflow.Broadcasts.{target_table, stagger, pending_ids, set_not_before}
use insightxadsflow.Broadcasts.Staggering.{target_of, find_updated}
use insightxadsflow.Posting.{retry_unfinished, sending_again}

-- A target that is not listed keeps its row.
stagger_unlisted :
    (write : ℕ → Work → Work) (base delay_ms offset : ℕ) (ids : List ℕ)
    (targets : List BroadcastTarget) (i : ℕ)
    → mem_id i ids ≡ false
    → target_of i (stagger write base delay_ms offset ids targets) ≡ target_of i targets
unfolding stagger
stagger_unlisted write base delay_ms offset [] targets i h = refl
stagger_unlisted write base delay_ms offset (j ∷ ids) targets i h =
    let miss : (j == i) ≡ false = ground arith in
    let rest : mem_id i ids ≡ false = ground arith in
    stagger_unlisted write base delay_ms (offset + 1) ids _ i rest
    ∙ find_updated i j
        (λ t. record t { work = write (base + delay_ms * offset * millisecond) t.work }) (λ t. refl)
        targets
    ∙ rw miss refl

-- In a table with distinct keys a row that is found is the only one of its key.
only_row :
    (p : BroadcastTarget → Bool) (i : ℕ) (targets : List BroadcastTarget) {t : BroadcastTarget}
    → Unique target_table targets
    → target_of i targets ≡ some t
    → p t ≡ false
    → any (λ r. if p r then r.id == i else false) targets ≡ false
only_row p i [] u f h = refl
only_row p i (x ∷ xs) {t} (fresh, u) f h = elim (Bool-cases (x.id == i)) [
  | inr e ↦ ground (arith, only_row p i xs u (rw e at f) h)
  | inl e ↦
      let x_is_t : x ≡ t = ground arith in
      let i_is_x : i ≡ x.id = ground (arith, ==_iff x.id i) in
      let none_below =
        any_none (λ r. if p r then r.id == i else false) xs
          (All-map (λ r. (r.id == x.id) ≡ false) (λ r. (if p r then r.id == i else false) ≡ false)
            (λ r k. rw i_is_x (ground arith)) xs fresh) in
      ground arith
]

pending_ids_without :
    (db : Database) (broadcast_id i : ℕ) {t : BroadcastTarget}
    → Unique target_table db.targets
    → target_of i db.targets ≡ some t
    → is_pending t.work.status ≡ false
    → mem_id i (pending_ids db broadcast_id) ≡ false
unfolding pending_ids
pending_ids_without db broadcast_id i {t} u f h =
    let mine = λ (r : BroadcastTarget).
      if r.broadcast_id == broadcast_id then is_pending r.work.status else false in
    mem_id-map target_table i (order_by (λ r. r.position) (select mine db.targets))
    ∙ any-order_by (λ r. r.id == i) (λ r. r.position) (select mine db.targets)
    ∙ any-select (λ r. r.id == i) mine db.targets
    ∙ only_row mine i db.targets u f (ground arith)

succeeded_is_not_pending : (s : JobStatus) → is_succeeded s ≡ true → is_pending s ≡ false
succeeded_is_not_pending s h = ground arith

-- Retrying a broadcast whose table of targets has distinct keys and exact leases leaves every target
-- that has succeeded exactly as it is, every column of it: it is not queued again.
pub retry_unfinished_succeeded :
    (now : ℕ) (broadcast : Broadcast) (db : Database) (i : ℕ) {t : BroadcastTarget}
    → IsSound target_table db.targets
    → get_target db i ≡ some t
    → is_succeeded t.work.status ≡ true
    → get_target (retry_unfinished now broadcast db).1 i ≡ some t
unfolding get_target retry_unfinished put_broadcast Broadcasts.requeue_failed
    Broadcasts.schedule_targets
retry_unfinished_succeeded now broadcast db i {t} sound found done =
    let db1 = (Broadcasts.requeue_failed now broadcast.id db).1 in
    let step =
      requeue_rows-TableStep target_table now (λ t. t.broadcast_id == broadcast.id) db.targets in
    let kept =
      TableStep-succeeded target_table i db.targets db1.targets step sound.exact found done in
    let unique = (TableStep-IsSound target_table db.targets db1.targets step sound).unique in
    elim (Bool-cases ((Broadcasts.requeue_failed now broadcast.id db).0 == 0)) [
      | inl e ↦ rw e kept
      | inr e ↦ rw e (
          stagger_unlisted (set_not_before now) now broadcast.delay_ms 0
            (pending_ids (put_broadcast (sending_again broadcast) db1) broadcast.id) db1.targets i
            (pending_ids_without (put_broadcast (sending_again broadcast) db1) broadcast.id i unique
              kept (succeeded_is_not_pending t.work.status done))
          ∙ kept)
    ]
