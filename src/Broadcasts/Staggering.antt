-- ===== src/Broadcasts/Staggering.antt =====
-- The times that `schedule_targets` and `reopen_for_repeat` of repositories/broadcasts.py give.
use insightxadsflow.Prelude.{
  ==_iff, ℕ, ◌+◌, ◌*◌, ◌≡◌, refl, ◌∙◌, ap, true, false, List, [], ◌∷◌, Option, some, none, arith,
  ◌==◌, if◌then◌else◌, find_where, update_where, Bool-cases, inl, inr,
}
use insightxadsflow.Models.{Work, BroadcastTarget, millisecond}
use insightxadsflow.Leases.{mem_id}
use insightxadsflow.Broadcasts.{stagger}

-- The target of an id.
abbrev pub target_of : ℕ → List BroadcastTarget → Option BroadcastTarget
target_of i targets = find_where (λ t. t.id == i) targets

abbrev one_later : Option ℕ → Option ℕ
one_later none = none
one_later (some k) = some (k + 1)

-- The place of an id in a list.
abbrev pub place_of : ℕ → List ℕ → Option ℕ
place_of i [] = none
place_of i (j ∷ ids) = let rest = place_of i ids in if j == i then some 0 else one_later rest

-- No id twice.
abbrev pub AllDifferent : List ℕ → Type 0
AllDifferent [] = Unit
AllDifferent (i ∷ ids) = (mem_id i ids ≡ false) × AllDifferent ids

-- The row of a target after it was given its time: the one of its place, `delay_ms` apart.
abbrev pub timed :
    (ℕ → Work → Work) → ℕ → ℕ → ℕ → Option ℕ → Option BroadcastTarget → Option BroadcastTarget
timed write base delay_ms offset none row = row
timed write base delay_ms offset (some k) none = none
timed write base delay_ms offset (some k) (some t) =
    some (record t { work = write (base + delay_ms * (offset + k) * millisecond) t.work })

abbrev pub on_row :
    (BroadcastTarget → BroadcastTarget) → Option BroadcastTarget → Option BroadcastTarget
on_row f none = none
on_row f (some t) = some (f t)

pub find_updated :
    (i j : ℕ) (f : BroadcastTarget → BroadcastTarget)
    → ((t : BroadcastTarget) → (f t).id ≡ t.id)
    → (targets : List BroadcastTarget)
    → target_of i (update_where (λ t. t.id == j) f targets)
      ≡ (if j == i then on_row f (target_of i targets) else target_of i targets)
find_updated i j f same [] = elim (Bool-cases (j == i)) [ inl e ↦ rw e refl | inr e ↦ rw e refl ]
find_updated i j f same (t ∷ ts) = ground (arith, same t, find_updated i j f same ts)

place_of_fresh : (i : ℕ) (ids : List ℕ) → mem_id i ids ≡ false → place_of i ids ≡ none
place_of_fresh i [] h = refl
place_of_fresh i (j ∷ ids) h = ground (arith, place_of_fresh i ids)

fresh_for : (i j : ℕ) (ids : List ℕ) → (j == i) ≡ true → mem_id j ids ≡ false → mem_id i ids ≡ false
fresh_for i j ids e h = ground (arith, ==_iff j i)

timed_later :
    (write : ℕ → Work → Work) (base delay_ms offset : ℕ) (place : Option ℕ)
    (row : Option BroadcastTarget)
    → timed write base delay_ms (offset + 1) place row
      ≡ timed write base delay_ms offset (one_later place) row
timed_later write base delay_ms offset none row = refl
timed_later write base delay_ms offset (some k) none = refl
timed_later write base delay_ms offset (some k) (some t) =
    let same : offset + 1 + k ≡ offset + (k + 1) = omega arith in
    ap (λ n. some (record t { work = write (base + delay_ms * n * millisecond) t.work })) same

timed_first :
    (write : ℕ → Work → Work) (base delay_ms offset : ℕ) (row : Option BroadcastTarget)
    → on_row (λ t. record t { work = write (base + delay_ms * offset * millisecond) t.work }) row
      ≡ timed write base delay_ms offset (some 0) row
timed_first write base delay_ms offset none = refl
timed_first write base delay_ms offset (some t) =
    let same : offset ≡ offset + 0 = omega arith in
    ap (λ n. some (record t { work = write (base + delay_ms * n * millisecond) t.work })) same

-- Each listed target gets the time of its place in the list: the first the base, and each next one
-- exactly `delay_ms` after the one before it. The row of every other target stays as it is.
pub stagger_lem :
    (write : ℕ → Work → Work) (base delay_ms offset : ℕ) (ids : List ℕ)
    (targets : List BroadcastTarget) (i : ℕ)
    → AllDifferent ids
    → target_of i (stagger write base delay_ms offset ids targets)
      ≡ timed write base delay_ms offset (place_of i ids) (target_of i targets)
unfolding stagger
stagger_lem write base delay_ms offset [] targets i d = refl
stagger_lem write base delay_ms offset (j ∷ ids) targets i (fresh, d) =
    let time = base + delay_ms * offset * millisecond in
    let f = λ (t : BroadcastTarget). record t { work = write time t.work } in
    let later = update_where (λ t. t.id == j) f targets in
    stagger_lem write base delay_ms (offset + 1) ids later i d ∙ elim (Bool-cases (j == i)) [
      | inl e ↦
          rw
            (
              find_updated i j f (λ t. refl) targets,
              e,
              place_of_fresh i ids (fresh_for i j ids e fresh),
            )
            (timed_first write base delay_ms offset (target_of i targets))
      | inr e ↦
          rw (find_updated i j f (λ t. refl) targets, e)
            (timed_later write base delay_ms offset (place_of i ids) (target_of i targets))
    ]
