-- ===== src/Text/Order.antt =====
-- The order of Python's `str`: by code points, the first difference decides.
use pop3sf.Prelude.{◌≡◌, refl, Bool, true, false, [], ◌∷◌, ◌++◌, ltb, arith, if◌then◌else◌}
use pop3sf.Prelude.Sort.{IsWeakOrder}
use pop3sf.Text.{Text}

-- `s < t`
abbrev pub text_less : Text → Text → Bool
text_less s [] = false
text_less [] (y ∷ ys) = true
text_less (x ∷ xs) (y ∷ ys) =
    let rest = text_less xs ys in if ltb x y then true else if ltb y x then false else rest

less_asymm : (s t : Text) → text_less s t ≡ true → text_less t s ≡ false
less_asymm s [] h = cc
less_asymm [] (y ∷ ys) h = refl
less_asymm (x ∷ xs) (y ∷ ys) h = ground (arith, less_asymm xs ys)

less_trans : (s t u : Text) → text_less t s ≡ false → text_less u t ≡ false → text_less u s ≡ false
less_trans [] t [] h k = refl
less_trans [] [] (z ∷ zs) h k = refl
less_trans [] (y ∷ ys) (z ∷ zs) h k = refl
less_trans (x ∷ xs) [] u h k = cc
less_trans (x ∷ xs) (y ∷ ys) [] h k = cc
less_trans (x ∷ xs) (y ∷ ys) (z ∷ zs) h k = ground (arith, less_trans xs ys zs)

pub text_less-IsWeakOrder : IsWeakOrder text_less
text_less-IsWeakOrder = record { asymm = less_asymm; trans = less_trans }

-- A common beginning does not count.
pub text_less-append : (p s t : Text) → text_less (p ++ s) (p ++ t) ≡ text_less s t
text_less-append [] s t = refl
text_less-append (x ∷ xs) s t = ground (arith, text_less-append xs s t)
