-- ===== src/Text.antt =====
-- The string operations of Python that the program calls. Unicode's tables are a parameter.
pub mod Laws
use Prim.Native.Char.{code}
use insightxadsflow.Prelude.{
  ℕ, ◌+◌, ◌*◌, ◌-◌, ◌≡◌, Bool, true, false, ◌&&◌, List, [], ◌∷◌, ◌++◌, Option, none, some, ◌==◌,
  if◌then◌else◌, leb, ltb, String,
}
use insightxadsflow.Models.{Text}

-- What Python's `str` and `re` read off Unicode's tables.
pub record Unicode : Type 0 where
  pub is_space : ℕ → Bool
  pub is_word : ℕ → Bool
  pub lower : Text → Text
  pub upper : Text → Text
  pub casefold : Text → Text
  -- one character of a pattern against one of the text, under `re.IGNORECASE`
  pub same_ignoring_case : ℕ → ℕ → Bool
  -- `\d`, with the digit's value
  pub digit : ℕ → Option ℕ

abbrev pub codes : String → Text
codes String.[] = []
codes (String.◌∷◌ c s) = code c ∷ codes s

abbrev pub is_empty : Text → Bool
is_empty [] = true
is_empty (_ ∷ _) = false

unfoldable pub same_text : Text → Text → Bool
same_text [] [] = true
same_text (a ∷ s) (b ∷ t) = if a == b then same_text s t else false
same_text _ _ = false

unfoldable pub starts_with : Text → Text → Bool
starts_with [] t = true
starts_with (a ∷ s) [] = false
starts_with (a ∷ s) (b ∷ t) = if a == b then starts_with s t else false

-- `needle in haystack`
unfoldable pub contains : Text → Text → Bool
unfolding starts_with
contains needle [] = is_empty needle
contains needle (c ∷ t) = if starts_with needle (c ∷ t) then true else contains needle t

unfoldable pub drop_leading : (ℕ → Bool) → Text → Text
drop_leading p [] = []
drop_leading p (c ∷ t) = if p c then drop_leading p t else c ∷ t

unfoldable pub drop_trailing : (ℕ → Bool) → Text → Text
drop_trailing p [] = []
drop_trailing p (c ∷ t) =
    let rest = drop_trailing p t in if is_empty rest && p c then [] else c ∷ rest

-- `str.strip()`
unfoldable pub strip : Unicode → Text → Text
unfolding drop_leading drop_trailing
strip u t = drop_trailing u.is_space (drop_leading u.is_space t)

-- The tables cut down to ASCII.
abbrev ascii_space : ℕ → Bool
ascii_space c = if c == 32 then true else leb 9 c && leb c 13

abbrev lower_code : ℕ → ℕ
lower_code c = if leb b'A' c && leb c b'Z' then c + 32 else c

abbrev upper_code : ℕ → ℕ
upper_code c = if leb b'a' c && leb c b'z' then c - 32 else c

abbrev ascii_digit : ℕ → Option ℕ
ascii_digit c = if leb b'0' c && leb c b'9' then some (c - b'0') else none

abbrev ascii_word : ℕ → Bool
ascii_word c =
    let l = lower_code c in
    if leb b'a' l && leb l b'z' then true else if leb b'0' c && leb c b'9' then true else c == b'_'

abbrev each : (ℕ → ℕ) → Text → Text
each f [] = []
each f (c ∷ t) = f c ∷ each f t

abbrev pub ascii : Unicode
ascii = record {
  is_space = ascii_space;
  is_word = ascii_word;
  lower = each lower_code;
  upper = each upper_code;
  casefold = each lower_code;
  same_ignoring_case = λ a b. lower_code a == lower_code b;
  digit = ascii_digit;
}
