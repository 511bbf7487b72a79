-- ===== src/Text/Words.antt =====
-- Laws of comparing texts.
use pop3sf.Prelude.{◌≡◌, refl, true, [], ◌∷◌, arith}
use pop3sf.Text.{Text, text_eq}

pub text_eq→eq : (s t : Text) → text_eq s t ≡ true → s ≡ t
unfolding text_eq
text_eq→eq [] [] h = refl
text_eq→eq [] (y ∷ t) h = cc
text_eq→eq (x ∷ s) [] h = cc
text_eq→eq (x ∷ s) (y ∷ t) h = ground (arith, text_eq→eq s t)

pub text_eq_refl : (s : Text) → text_eq s s ≡ true
unfolding text_eq
text_eq_refl [] = refl
text_eq_refl (x ∷ s) = ground (arith, text_eq_refl s)
