-- ===== src/Text/Laws.antt =====
-- Laws of the string operations.
use insightxadsflow.Prelude.{◌≡◌, refl, true, [], ◌∷◌, arith, ==-refl}
use insightxadsflow.Models.{Text}
use insightxadsflow.Text.{same_text}

pub same_text_refl : (s : Text) → same_text s s ≡ true
unfolding same_text
same_text_refl [] = refl
same_text_refl (a ∷ s) = rw (==-refl a) (same_text_refl s)

pub eq_of_same_text : (s t : Text) → same_text s t ≡ true → s ≡ t
unfolding same_text
eq_of_same_text [] [] h = refl
eq_of_same_text [] (b ∷ t) h = ground arith
eq_of_same_text (a ∷ s) [] h = ground arith
eq_of_same_text (a ∷ s) (b ∷ t) h = ground (arith, eq_of_same_text s t)
