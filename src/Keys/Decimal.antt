-- ===== src/Keys/Decimal.antt =====
-- Python's `str(int)`, and the decimal notation read back.
use insightxadsflow.Prelude.{
  ℕ, zero, suc, ◌+◌, ◌-◌, ◌*◌, ◌/◌, ◌%◌, ◌<◌, ◌≡◌, refl, ap, ◌∙◌, true, false, [], ◌∷◌, Option,
  some, none, ◌==◌, if◌then◌else◌, ltb, All, arith, Bool-cases, inl, inr,
}
use insightxadsflow.Prelude.Int.{ℤ, pos, negsuc}
use insightxadsflow.Models.{Text}
use insightxadsflow.Text.{is_empty}

-- The digits of `n` before `out`, the last one first; `fuel` above `n` is enough.
unfoldable pub digits : ℕ → ℕ → Text → Text
digits zero n out = out
digits (suc fuel) n out = elim (ltb n 10) [
  | true ↦ (b'0' + n) ∷ out
  | false ↦ digits fuel (n / 10) ((b'0' + n % 10) ∷ out)
]

unfoldable pub decimal : ℕ → Text
unfolding digits
decimal n = digits (suc n) n []

unfoldable pub int_text : ℤ → Text
unfolding decimal
int_text (pos n) = decimal n
int_text (negsuc n) = b'-' ∷ decimal (suc n)

-- The number that digits spell behind `n`.
unfoldable pub read_digits : Text → ℕ → Option ℕ
read_digits [] n = some n
read_digits (c ∷ t) n =
    let rest = read_digits t (n * 10 + (c - b'0')) in
    if ltb c b'0' then none else if ltb b'9' c then none else rest

unfoldable pub read_decimal : Text → Option ℕ
unfolding read_digits
read_decimal t = read_digits t 0

abbrev negative : Option ℕ → Option ℤ
negative (some (suc n)) = some (negsuc n)
negative _ = none

abbrev positive : Option ℕ → Option ℤ
positive (some n) = some (pos n)
positive none = none

unfoldable pub read_int : Text → Option ℤ
unfolding read_decimal
read_int [] = none
read_int (c ∷ t) = if c == b'-' then negative (read_decimal t) else positive (read_decimal (c ∷ t))

read_digits-digits :
    (fuel n : ℕ) (out : Text) → n < fuel → read_digits (digits fuel n out) 0 ≡ read_digits out n
unfolding digits read_digits
read_digits-digits zero n out enough = ground arith
read_digits-digits (suc fuel) n out enough =
    ground (arith, read_digits-digits fuel (n / 10) ((b'0' + n % 10) ∷ out))

-- A number is read back from its decimal notation.
pub read_decimal-decimal : (n : ℕ) → read_decimal (decimal n) ≡ some n
unfolding read_decimal decimal read_digits
read_decimal-decimal n = read_digits-digits (suc n) n [] (omega arith)

abbrev pub IsDigit : ℕ → Type 0
IsDigit c = (ltb c b'0' ≡ false) × (ltb b'9' c ≡ false)

below_ten-IsDigit : (n : ℕ) → ltb n 10 ≡ true → IsDigit (b'0' + n)
below_ten-IsDigit n small = (ground arith, ground arith)

All-digits : (fuel n : ℕ) (out : Text) → All IsDigit out → All IsDigit (digits fuel n out)
unfolding digits
All-digits zero n out all = all
All-digits (suc fuel) n out all = elim (Bool-cases (ltb n 10)) [
  | inl e ↦ rw (e, digits, All) (below_ten-IsDigit n e, all)
  | inr e ↦
      rw (e, digits, All)
        (All-digits fuel (n / 10) ((b'0' + n % 10) ∷ out)
          (below_ten-IsDigit (n % 10) (ground arith), all))
]

pub All-decimal : (n : ℕ) → All IsDigit (decimal n)
unfolding decimal
All-decimal n = All-digits (suc n) n [] tt

some_digits :
    (fuel n : ℕ) (out : Text) → is_empty out ≡ false → is_empty (digits fuel n out) ≡ false
unfolding digits
some_digits zero n out h = h
some_digits (suc fuel) n out h = elim (Bool-cases (ltb n 10)) [
  | inl e ↦ rw (e, digits, is_empty) refl
  | inr e ↦ rw (e, digits, is_empty) (some_digits fuel (n / 10) ((b'0' + n % 10) ∷ out) refl)
]

decimal_some : (n : ℕ) → is_empty (decimal n) ≡ false
unfolding decimal digits
decimal_some n = elim (Bool-cases (ltb n 10)) [
  | inl e ↦ rw (e, digits, is_empty) refl
  | inr e ↦ rw (e, digits, is_empty) (some_digits n (n / 10) ((b'0' + n % 10) ∷ []) refl)
]

read_int-digits :
    (t : Text) → All IsDigit t → is_empty t ≡ false → read_int t ≡ positive (read_decimal t)
unfolding read_int
read_int-digits [] all filled = ground arith
read_int-digits (c ∷ t) all filled = ground (arith, all.0)

pub read_int-int_text : (a : ℤ) → read_int (int_text a) ≡ some a
unfolding int_text read_int
read_int-int_text (pos n) =
    read_int-digits (decimal n) (All-decimal n) (decimal_some n)
    ∙ ap positive (read_decimal-decimal n)
read_int-int_text (negsuc n) = rw (read_decimal-decimal (suc n)) refl
