-- ===== src/Session/Keeps.antt =====
-- Actions that keep an invariant, whether they return or raise.
use pop3sf.Prelude.{ℕ, ◌+◌, ◌≡◌, Bool, true, false, List, if◌then◌else◌}
use pop3sf.Adapter.{Exception, Result, ok, raised, Action}
use pop3sf.Ensurer.{Client}
use pop3sf.Session.{
  ClientStatus, World, Exec, pure, raise, gets, call, modify, update_clients, sleep, and_then,
  ◌>>=◌,
}

pub record Preserves {S A : Type 0} (P : World S → Type 0) (m : Exec S A) : Type 0 where
  pub kept : (w : World S) → P w → P (m w).1

module _ {S A : Type 0} {P : World S → Type 0} where
  pub Preserves-raise : (exception : Exception) → Preserves P (raise {A = A} exception)
  unfolding raise
  Preserves-raise exception = record { kept = λ w p. p }

  pub Preserves-if :
      (test : Bool) (m n : Exec S A)
      → Preserves P m
      → Preserves P n
      → Preserves P (if test then m else n)
  Preserves-if true m n h k = h
  Preserves-if false m n h k = k

  pub Preserves-gets : (attribute : ClientStatus → A) → Preserves P (gets attribute)
  unfolding gets
  Preserves-gets attribute = record { kept = λ w p. p }

  pub Preserves-pure : (value : A) → Preserves P (pure value)
  unfolding pure
  Preserves-pure value = record { kept = λ w p. p }

module _ {S : Type 0} {P : World S → Type 0} where
  pub Preserves-call :
      {A : Type 0} (action : Action S A)
      → ((w : World S) → P w → P (record w { adapter = (action w.adapter).1 }))
      → Preserves P (call action)
  unfolding call
  Preserves-call action k = record { kept = k }

  pub Preserves-modify :
      (f : ClientStatus → ClientStatus)
      → ((w : World S) → P w → P (record w { status = f w.status }))
      → Preserves P (modify f)
  unfolding modify
  Preserves-modify f k = record { kept = k }

  pub Preserves-update_clients :
      {A : Type 0} (f : List Client → List Client × A)
      → ((w : World S) → P w → P (record w { clients = (f w.clients).0 }))
      → Preserves P (update_clients f)
  unfolding update_clients
  Preserves-update_clients f k = record { kept = k }

  pub Preserves-sleep :
      (n : ℕ) → ((w : World S) → P w → P (record w { slept = w.slept + n })) → Preserves P (sleep n)
  unfolding sleep
  Preserves-sleep n k = record { kept = k }

-- What the branch that the test takes gives, the choice between both gives.
module _ {S A : Type 0} (P : Result A × World S → Type 0) (m n : Exec S A) (w : World S) where
  pub if-at_true : (b : Bool) → b ≡ true → P (m w) → P ((if b then m else n) w)
  if-at_true true e h = h
  if-at_true false e h = cc

  pub if-at_false : (b : Bool) → b ≡ false → P (n w) → P ((if b then m else n) w)
  if-at_false true e h = cc
  if-at_false false e h = h

module _ {S A B : Type 0} {P : World S → Type 0} where
  Preserves-and_then :
      (r : Result A) (f : A → Exec S B)
      → ((a : A) → Preserves P (f a))
      → (w : World S) → P w
      → P (and_then r f w).1
  Preserves-and_then (ok a) f h w p = (h a).kept w p
  Preserves-and_then (raised e) f h w p = p

  pub Preserves-bind :
      (m : Exec S A) (f : A → Exec S B)
      → Preserves P m
      → ((a : A) → Preserves P (f a))
      → Preserves P (m >>= f)
  unfolding ◌>>=◌
  Preserves-bind m f k h = record {
    kept = λ w p. Preserves-and_then (m w).0 f h (m w).1 (k.kept w p);
  }

pub ruleset preserving =
    (Preserves-pure, Preserves-raise, Preserves-gets, Preserves-if, Preserves-bind)

-- An action that leads from `P` to `Q`, whether it returns or raises.
pub record Leads {S A : Type 0} (P Q : World S → Type 0) (m : Exec S A) : Type 0 where
  pub at : (w : World S) → P w → Q (m w).1

module _ {S A B : Type 0} {P Q : World S → Type 0} where
  Leads-and_then :
      (r : Result A) (f : A → Exec S B)
      → ((a : A) → Leads P Q (f a))
      → ((w : World S) → P w → Q w)
      → (w : World S) → P w
      → Q (and_then r f w).1
  Leads-and_then (ok a) f h q w p = (h a).at w p
  Leads-and_then (raised e) f h q w p = q w p

  -- The step to `Q` is made by what follows.
  pub Leads-later :
      ((w : World S) → P w → Q w)
      → (m : Exec S A) (f : A → Exec S B) → Preserves P m
      → ((a : A) → Leads P Q (f a))
      → Leads P Q (m >>= f)
  unfolding ◌>>=◌
  Leads-later q m f k h = record { at = λ w p. Leads-and_then (m w).0 f h q (m w).1 (k.kept w p) }

  -- The step to `Q` is made first.
  pub Leads-first :
      (m : Exec S A) (f : A → Exec S B)
      → Leads P Q m
      → ((a : A) → Preserves Q (f a))
      → Leads P Q (m >>= f)
  unfolding ◌>>=◌
  Leads-first m f k h = record { at = λ w p. Preserves-and_then (m w).0 f h (m w).1 (k.at w p) }

module _ {S A : Type 0} {P Q : World S → Type 0} where
  pub Leads-keeps : ((w : World S) → P w → Q w) → (m : Exec S A) → Preserves P m → Leads P Q m
  Leads-keeps q m k = record { at = λ w p. q (m w).1 (k.kept w p) }
