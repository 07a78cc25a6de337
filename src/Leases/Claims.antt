-- ===== src/Leases/Claims.antt =====
-- The rows that a claim hands out.
use insightxadsflow.Prelude.{
  ℕ, ◌+◌, ◌*◌, ◌≤◌, ◌≡◌, refl, Bool, true, false, List, [], ◌∷◌, some, arith, All, Bool-cases, inl,
  inr, select, length, String, find_where, ◌==◌, ==-refl,
}
use insightxadsflow.Models.{Work, JobStatus, is_pending, second}
use insightxadsflow.Leases.{Leased, mem_id, candidates, claim_rows, update_work, lease, is_due}
use insightxadsflow.Leases.Picks.{
  Unique, All-zip, ==-sym, candidates_due, length-candidates-le, length-select_ids,
}

module _ {A : Type 0} (t : Leased A) where
  open t use {id, work, set_work, work-set_work, id-set_work}

  -- What a claimed row looks like, and the row of the table `xs` that was claimed.
  pub record IsClaimed (xs : List A) (owner : String) (deadline now : ℕ) (locked : ℕ → Bool)
      (ready : A → Bool) (a : A) : Type 0 where
    pub status : (work a).status ≡ JobStatus.leased
    pub lease_owner : (work a).lease_owner ≡ some owner
    pub lease_expires_at : (work a).lease_expires_at ≡ some deadline
    pub old : Work
    pub was_stored : find_where (λ b. id b == id a) xs ≡ some (set_work a old)
    pub was_pending : old.status ≡ JobStatus.pending
    pub was_due : old.not_before ≤ now
    pub same_attempts : (work a).attempt_count ≡ old.attempt_count
    pub was_free : locked (id a) ≡ false
    pub was_ready : ready a ≡ true

  -- A row of a table with distinct keys is found by its key.
  Unique-found :
      (xs : List A) → Unique t xs → All (λ a. find_where (λ b. id b == id a) xs ≡ some a) xs
  Unique-found [] u = tt
  Unique-found (x ∷ xs) (fresh, u) = (
    rw (==-refl (id x)) refl,
    All-zip (λ a. (id a == id x) ≡ false) (λ a. find_where (λ b. id b == id a) xs ≡ some a)
        (λ a. find_where (λ b. id b == id a) (x ∷ xs) ≡ some a)
        (λ a f found. rw (==-sym (id a) (id x) f) found) xs fresh (Unique-found xs u),
  )

  pending_status : (s : JobStatus) → is_pending s ≡ true → s ≡ JobStatus.pending
  pending_status s h = ground arith

  lease-IsClaimed :
      (xs : List A) (owner : String) (deadline now : ℕ) (locked : ℕ → Bool) (ready : A → Bool)
      → ((a : A) (w : Work) → ready (set_work a w) ≡ ready a)
      → (a : A) → find_where (λ b. id b == id a) xs ≡ some a
      → (is_due now (work a) ≡ true) × (locked (id a) ≡ false) × (ready a ≡ true)
      → IsClaimed xs owner deadline now locked ready
          (set_work a (lease owner deadline now (work a)))
  unfolding lease is_due
  lease-IsClaimed xs owner deadline now locked ready same a found (due, free, fit) =
      let w = lease owner deadline now (work a) in
      let e = work-set_work a w in
      record {
        status = rw e;
        lease_owner = rw e;
        lease_expires_at = rw e;
        old = work a;
        was_stored =
            rw (id-set_work a w, t.set_work-set_work a w (work a), t.set_work-work a) found;
        was_pending = pending_status (work a).status (ground arith);
        was_due = ground arith;
        same_attempts = rw e;
        was_free = rw (id-set_work a w) free;
        was_ready = rw (same a w) fit;
      }

  module _ (ids : List ℕ) (f : Work → Work) where
    abbrev picked : A → Bool
    picked a = mem_id (id a) ids

    picked-set_work : (a : A) (w : Work) → picked (set_work a w) ≡ picked a
    picked-set_work a w = rw (id-set_work a w)

    All-picked :
        (P : A → Type 0) (xs : List A)
        → All (λ a. picked a ≡ true → P (set_work a (f (work a)))) xs
        → All P (select picked (update_work t picked f xs))
    unfolding update_work
    All-picked P [] h = tt
    All-picked P (a ∷ xs) (h, k) = elim (Bool-cases (picked a)) [
      | inl e ↦ rw (e, picked-set_work a (f (work a)), e) (h e, All-picked P xs k)
      | inr e ↦ rw (e, e) (All-picked P xs k)
    ]

    length-picked :
        (xs : List A)
        → length (select picked (update_work t picked f xs)) ≡ length (select picked xs)
    unfolding update_work
    length-picked [] = refl
    length-picked (a ∷ xs) = ground (arith, picked-set_work a (f (work a)), length-picked xs)

  -- At most `limit` rows come back, each of them leased to the owner, and pending, due and not locked
  -- before, and passing `ready`, a test that does not look at the shared columns.
  pub claim_rows_lem :
      (locked : ℕ → Bool) (owner : String) (limit lease_seconds now : ℕ) (ready : A → Bool)
      (xs : List A)
      → ((a : A) (w : Work) → ready (set_work a w) ≡ ready a)
      → Unique t xs
      → let rows = (claim_rows t locked owner limit lease_seconds now ready xs).0 in
        (length rows ≤ limit)
        × All (IsClaimed xs owner (now + lease_seconds * second) now locked ready) rows
  unfolding claim_rows
  claim_rows_lem locked owner limit lease_seconds now ready xs same u =
      let ids = candidates t locked limit now ready xs in
      let deadline = now + lease_seconds * second in
      let f = lease owner deadline now in
      (
        omega (
          arith,
          length-picked ids f xs,
          length-select_ids t ids xs u,
          length-candidates-le t locked limit now ready xs,
        ),
        All-picked ids f (IsClaimed xs owner deadline now locked ready) xs (
            All-zip (λ a. find_where (λ b. id b == id a) xs ≡ some a)
              (λ a.
                mem_id (id a) ids ≡ true
                → (is_due now (work a) ≡ true) × (locked (id a) ≡ false) × (ready a ≡ true))
              (λ a.
                picked ids f a ≡ true
                → IsClaimed xs owner deadline now locked ready (set_work a (f (work a))))
              (λ a found due m.
                lease-IsClaimed xs owner deadline now locked ready same a found (due m))
              xs (Unique-found xs u) (candidates_due t locked limit now ready xs u)),
      )
