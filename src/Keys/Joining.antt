-- ===== src/Keys/Joining.antt =====
-- `"|".join`, and a text cut at every separator.
use insightxadsflow.Prelude.{ℕ, ◌≡◌, refl, false, List, [], ◌∷◌, ◌++◌, ◌==◌, if◌then◌else◌, All}
use insightxadsflow.Models.{Text}

abbrev pub separator : ℕ
separator = b'|'

unfoldable pub join : List Text → Text
join [] = []
join (part ∷ []) = part
join (part ∷ next ∷ rest) = part ++ separator ∷ join (next ∷ rest)

abbrev put_first : ℕ → List Text → List Text
put_first c [] = (c ∷ []) ∷ []
put_first c (part ∷ rest) = (c ∷ part) ∷ rest

unfoldable pub split : Text → List Text
split [] = [] ∷ []
split (c ∷ t) = let rest = split t in if c == separator then [] ∷ rest else put_first c rest

-- No character is the separator.
abbrev pub IsWhole : Text → Type 0
IsWhole t = All (λ c. (c == separator) ≡ false) t

split_whole : (t : Text) → IsWhole t → split t ≡ t ∷ []
unfolding split
split_whole [] whole = refl
split_whole (c ∷ t) whole = rw (whole.0, split_whole t whole.1) refl

split_part : (t later : Text) → IsWhole t → split (t ++ separator ∷ later) ≡ t ∷ split later
unfolding split
split_part [] later whole = refl
split_part (c ∷ t) later whole = rw (whole.0, split_part t later whole.1) refl

-- Texts without the separator are read back from their joined text.
pub split-join :
    (part : Text) (rest : List Text)
    → All IsWhole (part ∷ rest)
    → split (join (part ∷ rest)) ≡ part ∷ rest
unfolding join
split-join part [] whole = split_whole part whole.0
split-join part (next ∷ rest) whole =
    rw (split_part part (join (next ∷ rest)) whole.0, split-join next rest whole.1) refl
