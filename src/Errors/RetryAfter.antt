-- ===== src/Errors/RetryAfter.antt =====
-- `_RETRY_AFTER_RE` and `_extract_retry_after` of adapters/errors.py.
use insightxadsflow.Prelude.{
  ℕ, zero, suc, ◌+◌, ◌*◌, List, [], ◌∷◌, Option, none, some, if◌then◌else◌,
}
use insightxadsflow.Models.{Text, Exception, Attribute, absent, unusable, number, second}
use insightxadsflow.Text.{Unicode, codes}

module _ (u : Unicode) where
  -- The rest of the text after a literal of the pattern.
  after_literal : Text → Text → Option Text
  after_literal [] t = some t
  after_literal (a ∷ p) [] = none
  after_literal (a ∷ p) (b ∷ t) = if u.same_ignoring_case a b then after_literal p t else none

  -- `\d+`, read as a number
  read_digits : ℕ → Text → ℕ
  read_digits n [] = n
  read_digits n (c ∷ t) = elim (u.digit c) [ none ↦ n | some d ↦ read_digits (n * 10 + d) t ]

  -- `\D{0,4}(\d+)`: at most `gap` characters that are no digits, then the digits.
  digits_within : ℕ → Text → Option ℕ
  unfolding read_digits
  digits_within gap [] = none
  digits_within zero (c ∷ t) = elim (u.digit c) [ none ↦ none | some d ↦ some (read_digits d t) ]
  digits_within (suc gap) (c ∷ t) = elim (u.digit c) [
    | none ↦ digits_within gap t
    | some d ↦ some (read_digits d t)
  ]

  abbrev then_digits : Option Text → Option ℕ
  unfolding digits_within
  then_digits none = none
  then_digits (some t) = digits_within 4 t

  abbrev or_else : Option ℕ → Option ℕ → Option ℕ
  or_else none later = later
  or_else (some n) later = some n

  -- The pattern at the text's start, one alternative after the other.
  retry_after_here : Text → Option ℕ
  unfolding after_literal then_digits
  retry_after_here t = or_else (then_digits (after_literal (codes "retry_after") t)) (
      or_else (then_digits (after_literal (codes "retry after") t)) (
        or_else (then_digits (after_literal (codes "FLOOD_WAIT_") t))
          (then_digits (after_literal (codes "SLOWMODE_WAIT_") t))))

  -- `_RETRY_AFTER_RE.search`: the leftmost match
  unfoldable pub retry_after_in : Text → Option ℕ
  unfolding retry_after_here
  retry_after_in [] = none
  retry_after_in (c ∷ t) = or_else (retry_after_here (c ∷ t)) (retry_after_in t)

  -- The first attribute that is a number of at least 0.
  unfoldable pub first_number : List Attribute → Option ℕ
  first_number [] = none
  first_number (absent ∷ rest) = first_number rest
  first_number (unusable ∷ rest) = first_number rest
  first_number (number n ∷ rest) = some n

  abbrev in_seconds : Option ℕ → Option ℕ
  in_seconds none = none
  in_seconds (some n) = some (n * second)

  -- In microseconds.
  unfoldable pub extract_retry_after : Exception → Option ℕ
  unfolding retry_after_in first_number
  extract_retry_after exc =
      or_else (first_number (exc.retry_after ∷ exc.seconds ∷ exc.timeout ∷ []))
        (in_seconds (retry_after_in exc.message))
