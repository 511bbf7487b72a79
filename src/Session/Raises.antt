-- ===== src/Session/Raises.antt =====
-- Actions that never return, one rule for each way to build an action.
use pop3sf.Prelude.{◌≡◌, refl, Bool, true, false, if◌then◌else◌}
use pop3sf.Adapter.{Exception, Result, ok, raised}
use pop3sf.Session.Keeps.{Leads}
use pop3sf.Session.{World, Exec, raise, and_then, ◌>>=◌}

pub record Raises {S A : Type 0} (m : Exec S A) : Type 0 where
  pub at : (w : World S) → (e : Exception) × ((m w).0 ≡ raised e)

module _ {S A : Type 0} where
  pub Raises-raise : (e : Exception) → Raises (raise {S = S} {A = A} e)
  unfolding raise
  Raises-raise e = record { at = λ w. (e, refl) }

  pub Raises-if : (b : Bool) (m n : Exec S A) → Raises m → Raises n → Raises (if b then m else n)
  Raises-if true m n h k = h
  Raises-if false m n h k = k

module _ {S A B : Type 0} where
  Raises-and_then :
      (r : Result A) (f : A → Exec S B)
      → ((a : A) → Raises (f a))
      → (w : World S) → (e : Exception) × ((and_then r f w).0 ≡ raised e)
  Raises-and_then (ok a) f h w = (h a).at w
  Raises-and_then (raised e) f h w = (e, refl)

  pub Raises-bind : (m : Exec S A) (f : A → Exec S B) → ((a : A) → Raises (f a)) → Raises (m >>= f)
  unfolding ◌>>=◌
  Raises-bind m f h = record { at = λ w. Raises-and_then (m w).0 f h (m w).1 }

pub ruleset raises_rules = (Raises-raise, Raises-if, Raises-bind)

-- Actions that never return from a state with `P`.
pub record Ends {S A : Type 0} (P : World S → Type 0) (m : Exec S A) : Type 0 where
  pub at : (w : World S) → P w → (e : Exception) × ((m w).0 ≡ raised e)

module _ {S A B : Type 0} {Q : World S → Type 0} where
  Ends-and_then :
      (r : Result A) (f : A → Exec S B)
      → ((a : A) → Ends Q (f a))
      → (w : World S) → Q w
      → (e : Exception) × ((and_then r f w).0 ≡ raised e)
  Ends-and_then (ok a) f h w q = (h a).at w q
  Ends-and_then (raised e) f h w q = (e, refl)

module _ {S A B : Type 0} {P Q : World S → Type 0} where
  pub Ends-later :
      (m : Exec S A) (f : A → Exec S B) → Leads P Q m → ((a : A) → Ends Q (f a)) → Ends P (m >>= f)
  unfolding ◌>>=◌
  Ends-later m f k h = record { at = λ w p. Ends-and_then (m w).0 f h (m w).1 (k.at w p) }

module _ {S A B : Type 0} where
  raised-and_then :
      (r : Result A) (f : A → Exec S B) (w : World S)
      → (e : Exception) × (r ≡ raised e)
      → (e : Exception) × ((and_then r f w).0 ≡ raised e)
  raised-and_then (ok a) f w h = cc
  raised-and_then (raised e) f w h = (e, refl)

module _ {S A B : Type 0} {P : World S → Type 0} where
  pub Ends-first : (m : Exec S A) (f : A → Exec S B) → Ends P m → Ends P (m >>= f)
  unfolding ◌>>=◌
  Ends-first m f k = record { at = λ w p. raised-and_then (m w).0 f (m w).1 (k.at w p) }
