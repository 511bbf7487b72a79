-- ===== src/Adapter/Stays.antt =====
-- Sets of states that an action does not leave.
use pop3sf.Prelude.{Bool, true, false, if◌then◌else◌}
use pop3sf.Adapter.{Exception, Result, ok, raised, Action}
use pop3sf.Adapter.Actions.{and_then, ◌>>=◌, pure, raise, lift, gets, modify}

pub record Stays {S A : Type 0} (P : S → Type 0) (m : Action S A) : Type 0 where
  pub stays : (s : S) → P s → P (m s).1

module _ {S A : Type 0} {P : S → Type 0} where
  pub Stays-pure : (a : A) → Stays P (pure a)
  Stays-pure a = record { stays = λ s h. h }

  pub Stays-raise : (e : Exception) → Stays P (raise {A = A} e)
  Stays-raise e = record { stays = λ s h. h }

  pub Stays-lift : (r : Result A) → Stays P (lift r)
  Stays-lift r = record { stays = λ s h. h }

  pub Stays-gets : (f : S → A) → Stays P (gets f)
  Stays-gets f = record { stays = λ s h. h }

  pub Stays-if :
      (test : Bool) (m n : Action S A) → Stays P m → Stays P n → Stays P (if test then m else n)
  Stays-if true m n h k = h
  Stays-if false m n h k = k

module _ {S : Type 0} {P : S → Type 0} where
  pub Stays-modify : (f : S → S) → ((s : S) → P s → P (f s)) → Stays P (modify f)
  Stays-modify f k = record { stays = k }

module _ {S A B : Type 0} {P : S → Type 0} where
  Stays-and_then :
      (r : Result A) (f : A → Action S B)
      → ((a : A) → Stays P (f a))
      → (s : S) → P s
      → P (and_then r f s).1
  Stays-and_then (ok a) f k s h = (k a).stays s h
  Stays-and_then (raised e) f k s h = h

  pub Stays-bind :
      (m : Action S A) (f : A → Action S B)
      → Stays P m
      → ((a : A) → Stays P (f a))
      → Stays P (m >>= f)
  Stays-bind m f h k = record { stays = λ s p. Stays-and_then (m s).0 f k (m s).1 (h.stays s p) }

pub ruleset staying = (Stays-pure, Stays-raise, Stays-lift, Stays-gets, Stays-if, Stays-bind)
