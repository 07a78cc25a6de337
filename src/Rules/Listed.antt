-- ===== src/Rules/Listed.antt =====
-- services/rules.py: the lists of chats that editing a rule stores.
use insightxadsflow.Prelude.{
  ℕ, zero, suc, ◌+◌, ◌≡◌, refl, sym, ap, ◌∙◌, Bool, true, false, List, [], ◌∷◌, some,
  some_injective, ◌==◌, if◌then◌else◌, arith, Bool-cases, inl, inr, count_where, get_elem?, ==_iff,
}
use insightxadsflow.Models.{RuleDestination}
use insightxadsflow.Leases.{mem_id}
use insightxadsflow.Broadcasts.Targets.{distinct}
use insightxadsflow.Rules.{once, placed}

abbrev pub once_if : Bool → ℕ
once_if true = 1
once_if false = 0

mem_id_same : (c d : ℕ) (seen : List ℕ) → (d == c) ≡ true → mem_id c seen ≡ mem_id d seen
mem_id_same c d seen e = ap (λ i. mem_id i seen) (sym ((==_iff d c).0 e))

count-distinct :
    (c : ℕ) (seen cs : List ℕ)
    → count_where (λ i. i == c) (distinct seen cs)
      ≡ once_if (if mem_id c seen then false else mem_id c cs)
unfolding distinct
count-distinct c seen [] = ground arith
count-distinct c seen (d ∷ cs) = elim (Bool-cases (mem_id d seen)) [
  | inl m ↦ elim (Bool-cases (d == c)) [
    | inl e ↦ rw (m, e) (ground (arith, count-distinct c seen cs, mem_id_same c d seen e, m))
    | inr e ↦ rw (m, e) (count-distinct c seen cs)
  ]
  | inr m ↦ elim (Bool-cases (d == c)) [
    | inl e ↦
        rw (m, e) (ground (arith, count-distinct c (d ∷ seen) cs, mem_id_same c d seen e, m, e))
    | inr e ↦ rw (m, e) (ground (arith, count-distinct c (d ∷ seen) cs, e))
  ]
]

-- Every id of the list is there once.
pub count-once :
    (c : ℕ) (ids : List ℕ) → count_where (λ i. i == c) (once ids) ≡ once_if (mem_id c ids)
count-once c ids = count-distinct c [] ids

pub count-placed :
    (c position : ℕ) (ids : List ℕ)
    → count_where (λ d. d.chat_id == c) (placed position ids) ≡ count_where (λ i. i == c) ids
unfolding placed
count-placed c position [] = refl
count-placed c position (i ∷ ids) = ground (arith, count-placed c (suc position) ids)

pub position-placed :
    (n position : ℕ) (ids : List ℕ) (d : RuleDestination)
    → get_elem? (placed position ids) n ≡ some d
    → d.position ≡ position + n
unfolding placed
position-placed n position [] d h = ground arith
position-placed zero position (i ∷ ids) d h =
    ap (λ (r : RuleDestination). r.position) (sym (some_injective h)) ∙ omega arith
position-placed (suc n) position (i ∷ ids) d h =
    omega (arith, position-placed n (suc position) ids d h)
