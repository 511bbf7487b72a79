-- ===== src/Adapter/Actions.antt =====
-- Methods as actions on a state: in sequence, with reads and writes of attributes.
use pop3sf.Adapter.{Exception, Result, ok, raised, Action}

module _ {S A : Type 0} where
  abbrev pub pure : A → Action S A
  pure a s = (ok a, s)

  abbrev pub raise : Exception → Action S A
  raise e s = (raised e, s)

  abbrev pub lift : Result A → Action S A
  lift r s = (r, s)

  abbrev pub gets : (S → A) → Action S A
  gets f s = (ok (f s), s)

module _ {S : Type 0} where
  abbrev pub modify : (S → S) → Action S Unit
  modify f s = (ok tt, f s)

module _ {S A B : Type 0} where
  abbrev pub and_then : Result A → (A → Action S B) → Action S B
  and_then (ok a) f s = f a s
  and_then (raised e) f s = (raised e, s)

  infixl 5 ◌>>=◌ ◌>>◌
  abbrev pub ◌>>=◌ : Action S A → (A → Action S B) → Action S B
  ◌>>=◌ m f s = let (r, s') = m s in and_then r f s'

  abbrev pub ◌>>◌ : Action S A → Action S B → Action S B
  m >> n = m >>= λ _. n
