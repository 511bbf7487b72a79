-- ===== src/Session/Answers.antt =====
-- Actions that raise nothing but answers for the client and exceptions of a given kind, one rule for
-- each way to build an action.
use pop3sf.Prelude.{◌≡◌, ◌⊎◌, inl, inr, refl, ℕ, Bool, true, false, List, if◌then◌else◌}
use pop3sf.Response.{Response}
use pop3sf.Adapter.{Exception, send_data, Result, ok, raised, Action}
use pop3sf.Ensurer.{Client}
use pop3sf.Session.{
  ClientStatus, World, Exec, pure, raise, gets, call, modify, update_clients, sleep, and_then,
  ◌>>=◌,
}

-- A result that, if it was raised, is of this kind.
abbrev pub IsRaisedIn : {A : Type 0} → (Exception → Type 0) → Result A → Type 0
IsRaisedIn Q (ok a) = Unit
IsRaisedIn Q (raised e) = Q e

-- an answer for the client, or an exception of this kind
abbrev pub IsAnswerOr : (Exception → Type 0) → Exception → Type 0
IsAnswerOr Q e = ((r : Response) × (e ≡ send_data r)) ⊎ Q e

any-IsRaisedIn :
    {A : Type 0} (Q : Exception → Type 0) (r : Result A)
    → IsRaisedIn Q r
    → IsRaisedIn (IsAnswerOr Q) r
any-IsRaisedIn Q (ok a) h = tt
any-IsRaisedIn Q (raised e) h = inr h

pub record Answers {S A : Type 0} (Q : Exception → Type 0) (m : Exec S A) : Type 0 where
  pub at : (w : World S) → IsRaisedIn (IsAnswerOr Q) (m w).0

module _ {S A : Type 0} {Q : Exception → Type 0} where
  pub Answers-respond : (r : Response) → Answers Q (raise {S = S} {A = A} (send_data r))
  unfolding raise
  Answers-respond r = record { at = λ w. inl (r, refl) }

  pub Answers-if :
      (b : Bool) (m n : Exec S A) → Answers Q m → Answers Q n → Answers Q (if b then m else n)
  Answers-if true m n h k = h
  Answers-if false m n h k = k

  pub Answers-gets : (f : ClientStatus → A) → Answers Q (gets {S = S} f)
  unfolding gets
  Answers-gets f = record { at = λ w. tt }

  pub Answers-pure : (a : A) → Answers Q (pure {S = S} a)
  unfolding pure
  Answers-pure a = record { at = λ w. tt }

  pub Answers-update_clients :
      (f : List Client → List Client × A) → Answers Q (update_clients {S = S} f)
  unfolding update_clients
  Answers-update_clients f = record { at = λ w. tt }

  pub Answers-call :
      (action : Action S A) → ((s : S) → IsRaisedIn Q (action s).0) → Answers Q (call action)
  unfolding call
  Answers-call action h = record { at = λ w. any-IsRaisedIn Q (action w.adapter).0 (h w.adapter) }

module _ {S : Type 0} {Q : Exception → Type 0} where
  pub Answers-modify : (f : ClientStatus → ClientStatus) → Answers Q (modify {S = S} f)
  unfolding modify
  Answers-modify f = record { at = λ w. tt }

  pub Answers-sleep : (n : ℕ) → Answers Q (sleep {S = S} n)
  unfolding sleep
  Answers-sleep n = record { at = λ w. tt }

module _ {S A B : Type 0} {Q : Exception → Type 0} where
  Answers-and_then :
      (r : Result A) (f : A → Exec S B)
      → IsRaisedIn (IsAnswerOr Q) r
      → ((a : A) → Answers Q (f a))
      → (w : World S) → IsRaisedIn (IsAnswerOr Q) (and_then r f w).0
  Answers-and_then (ok a) f k h w = (h a).at w
  Answers-and_then (raised e) f k h w = k

  pub Answers-bind :
      (m : Exec S A) (f : A → Exec S B)
      → Answers Q m
      → ((a : A) → Answers Q (f a))
      → Answers Q (m >>= f)
  unfolding ◌>>=◌
  Answers-bind m f k h = record { at = λ w. Answers-and_then (m w).0 f (k.at w) h (m w).1 }

pub ruleset answering = (
  Answers-pure, Answers-respond, Answers-gets, Answers-if, Answers-modify, Answers-update_clients,
  Answers-sleep, Answers-bind,
)
