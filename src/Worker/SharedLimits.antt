-- ===== src/Worker/SharedLimits.antt =====
-- worker.py: the broadcast targets that are claimed stay within the limit that they share with jobs.
use insightxadsflow.Prelude.{
  ℕ, ◌+◌, ◌≤◌, ◌≡◌, refl, sym, ap, ◌∙◌, ◌⊎◌, inl, inr, Bool, true, List, [], ◌∷◌, Option, some,
  none, ◌==◌, if◌then◌else◌, map, All, arith, Bool-cases, Option-cases, ==_iff, count_where, subst,
  find_where, count_where-update_where_hit, String,
}
use insightxadsflow.Models.{
  Settings, Broadcast, BroadcastTarget, Database, put_target, is_leased, get_broadcast,
}
use insightxadsflow.Leases.{mem_id}
use insightxadsflow.Jobs
use insightxadsflow.Broadcasts
use insightxadsflow.Broadcasts.{runs_on}
use insightxadsflow.Worker.{
  Dict, Admission, admit, admit_target, admit_targets, claim_broadcasts_within_limits,
  shared_in_flight, insert, count_or, nothing_admitted, empty, look_up, orphaned, release_target,
  connection_of_broadcast,
}
use insightxadsflow.Worker.Limits.{
  IsWithin, admit-IsWithin, excluded, ids_of_batch, admit_either, within_limit, nothing_IsWithin,
}

-- The connection that a target's broadcast posts from.
abbrev pub connection_of_target : Database → BroadcastTarget → ℕ
connection_of_target db target =
    count_or 0 (connection_of_broadcast (get_broadcast db target.broadcast_id))

module _ (limit now : ℕ) (batch_ids : List ℕ) (db₀ : Database) where
  abbrev on : BroadcastTarget → ℕ
  on = connection_of_target db₀

  -- The cached connections are those of the broadcasts.
  abbrev IsCache : Dict → Type 0
  IsCache cache =
      (b c : ℕ) → cache b ≡ some c → connection_of_broadcast (get_broadcast db₀ b) ≡ some c

  -- What the loop does not change.
  record IsAlong (base : ℕ → ℕ) (state : Dict × Admission BroadcastTarget × Database) : Type 0 where
    pub cached : IsCache state.0
    pub same_broadcasts : state.2.broadcasts ≡ db₀.broadcasts
    pub counts : (c : ℕ) → shared_in_flight limit now batch_ids state.2 c ≡ base c
    pub within : IsWithin on limit base state.1

  shared-put_target :
      (c : ℕ) (target new : BroadcastTarget) (db : Database)
      → mem_id target.id batch_ids ≡ true
      → new.id ≡ target.id
      → shared_in_flight limit now batch_ids (put_target new db) c
        ≡ shared_in_flight limit now batch_ids db c
  unfolding shared_in_flight Jobs.in_flight_count Broadcasts.in_flight_count put_target runs_on
  shared-put_target c target new db mine same =
      ap (λ n. Jobs.in_flight_count db c [] + n)
        (count_where-update_where_hit (λ t. t.id == new.id) _ (λ _. new)
          (λ t hit.
            excluded (runs_on db c new) (is_leased new.work.status) (mem_id new.id batch_ids)
              (ap (λ i. mem_id i batch_ids) same ∙ mine)
            ∙ sym (
                excluded (runs_on db c t) (is_leased t.work.status) (mem_id t.id batch_ids)
                  (ap (λ i. mem_id i batch_ids) ((==_iff t.id new.id).0 hit ∙ same) ∙ mine)))
          db.targets)

  look_up_lem :
      (cache : Dict) (db : Database) (b c : ℕ)
      → IsCache cache
      → db.broadcasts ≡ db₀.broadcasts
      → look_up db b (cache b) ≡ some c
      → connection_of_broadcast (get_broadcast db₀ b) ≡ some c
  unfolding get_broadcast
  look_up_lem cache db b c cached same h = elim (Option-cases (cache b)) [
    | inr (d, e) ↦ cached b c (e ∙ (sym (ap (look_up db b) e) ∙ h))
    | inl e ↦
        ap (λ rows. connection_of_broadcast (find_where (λ (r : Broadcast). r.id == b) rows))
          (sym same)
        ∙ (sym (ap (look_up db b) e) ∙ h)
  ]

  insert-IsCache :
      (cache : Dict) (b c : ℕ)
      → IsCache cache
      → connection_of_broadcast (get_broadcast db₀ b) ≡ some c
      → IsCache (insert b c cache)
  insert-IsCache cache b c cached found d e h = elim (Bool-cases (d == b)) [
    | inl same ↦
        ap (λ x. connection_of_broadcast (get_broadcast db₀ x)) ((==_iff d b).0 same)
        ∙ (found ∙ (ap (λ t. if t then some c else cache d) (sym same) ∙ h))
    | inr other ↦ cached d e (ap (λ t. if t then some c else cache d) (sym other) ∙ h)
  ]

  IsAlong-admit_target :
      (base : ℕ → ℕ) (target : BroadcastTarget) (found : Option ℕ)
      (state : Dict × Admission BroadcastTarget × Database)
      → mem_id target.id batch_ids ≡ true
      → look_up state.2 target.broadcast_id (state.0 target.broadcast_id) ≡ found
      → IsAlong base state
      → IsAlong base (admit_target limit now batch_ids target found state)
  unfolding admit_target
  IsAlong-admit_target base target none (cache, admission, db) mine e along = record {
    cached = along.cached;
    same_broadcasts = along.same_broadcasts;
    counts = λ c. shared-put_target c target (orphaned now target) db mine refl ∙ along.counts c;
    within = along.within;
  }
  IsAlong-admit_target base target (some c) (cache, admission, db) mine e along =
      let given_back = put_target (release_target now target) db in
      let found = look_up_lem cache db target.broadcast_id c along.cached along.same_broadcasts e in
      let is_on = ap (count_or 0) found in
      record {
        cached = insert-IsCache cache target.broadcast_id c along.cached found;
        same_broadcasts =
            admit_either (λ after. after.broadcasts ≡ db₀.broadcasts) limit
              (shared_in_flight limit now batch_ids db c) c target given_back admission db
              along.same_broadcasts along.same_broadcasts;
        counts = λ d.
            admit_either (λ after. shared_in_flight limit now batch_ids after d ≡ base d) limit
              (shared_in_flight limit now batch_ids db c) c target given_back admission db
              (shared-put_target d target (release_target now target) db mine refl ∙ along.counts d)
              (along.counts d);
        within =
            subst
              (λ n. IsWithin on limit base (admit limit n c target given_back (admission, db)).0)
              (sym (along.counts c))
              (subst
                (λ x.
                  IsWithin on limit base
                    (admit limit (base x) x target given_back (admission, db)).0)
                is_on (admit-IsWithin on limit base target given_back admission db along.within));
      }

  IsAlong-admit_targets :
      (base : ℕ → ℕ) (targets : List BroadcastTarget)
      → All (λ t. mem_id t.id batch_ids ≡ true) targets
      → (state : Dict × Admission BroadcastTarget × Database) → IsAlong base state
      → IsAlong base (admit_targets limit now batch_ids targets state)
  unfolding admit_targets
  IsAlong-admit_targets base [] mine state along = along
  IsAlong-admit_targets base (target ∷ rest) mine (cache, admission, db) along =
      IsAlong-admit_targets base rest mine.1 _
        (IsAlong-admit_target base target _ (cache, admission, db) mine.0 refl along)

-- Of the targets that a pass of the worker keeps, none is of a broadcast on a connection, or they and
-- what was leased on it besides the batch, jobs and targets together, are at most
-- `broadcast_inflight`.
pub claim_broadcasts_within_limits_bounded :
    (settings : Settings) (locked : ℕ → Bool) (owner : String) (capacity now : ℕ) (db : Database)
    (connection_id : ℕ)
    → let (targets, claimed) =
        Broadcasts.claim_batch locked owner capacity settings.lease_seconds now db in
      let kept = (claim_broadcasts_within_limits settings locked owner capacity now db).0 in
      let kept_here = count_where (λ t. connection_of_target claimed t == connection_id) kept in
      (kept_here ≡ 0)
      ⊎ (Jobs.in_flight_count claimed connection_id []
            + Broadcasts.in_flight_count claimed connection_id (map (λ t. t.id) targets)
            + kept_here
          ≤ settings.broadcast_inflight)
unfolding claim_broadcasts_within_limits shared_in_flight
claim_broadcasts_within_limits_bounded settings locked owner capacity now db connection_id =
    let (targets, claimed) =
      Broadcasts.claim_batch locked owner capacity settings.lease_seconds now db in
    let batch_ids = map (λ (t : BroadcastTarget). t.id) targets in
    let limit = settings.broadcast_inflight in
    let base = λ (c : ℕ). shared_in_flight limit now batch_ids claimed c in
    let along =
      IsAlong-admit_targets limit now batch_ids claimed base targets
        (ids_of_batch (λ (t : BroadcastTarget). t.id) targets) (empty, nothing_admitted, claimed)
        (record {
          cached = λ b c h. ground arith;
          same_broadcasts = refl;
          counts = λ c. refl;
          within = nothing_IsWithin (connection_of_target claimed) limit base;
        }) in
    within_limit (connection_of_target claimed) limit base
      (admit_targets limit now batch_ids targets (empty, nothing_admitted, claimed)).1 along.within
      connection_id
