-- ===== src/Locking/Bracketing.antt =====
-- That every call of the adapter is made with the lock held, and that the lock is released after it.
use pop3sf.Prelude.{ℕ, Bool, true, false, ℤ, List, [], ◌∷◌, ◌++◌, ◌≡◌}
use pop3sf.Text.{Text}
use pop3sf.Text.Encoding.{Encoding}
use pop3sf.Adapter.{Result, ok, raised, Action, Adapter}
use pop3sf.Locking.{LockCall, acquire, release, Locked, adapter_thread_locking_wrapper}

-- A call of one of the methods, by its name and arguments.
pub data MethodCall : Type 0 where
  connection_opened : Text → ℕ → MethodCall
  read_only_mode_allowed : MethodCall
  verify_login_credentials : Text → Text → MethodCall
  login_successful : Text → Bool → MethodCall
  get_message_count : MethodCall
  get_message_content : ℕ → Encoding → MethodCall
  get_message_unique_id : ℕ → MethodCall
  is_message_marked_as_deleted : ℕ → MethodCall
  mark_message_as_deleted : ℕ → MethodCall
  unmark_messages_marked_as_deleted : MethodCall
  commit_deletions : MethodCall
  connection_closed : MethodCall

pub data Value : Type 0 where
  nothing : Value
  truth : Bool → Value
  number : ℤ → Value
  characters : Text → Value

abbrev valued : {A : Type 0} → (A → Value) → Result A → Result Value
valued f (ok a) = ok (f a)
valued f (raised e) = raised e

module _ {S : Type 0} where
  abbrev returning : {A : Type 0} → (A → Value) → Action S A → Action S Value
  returning f action s = let (r, s') = action s in (valued f r, s')

  abbrev returning_nothing : Action S (Unit {0}) → Action S Value
  returning_nothing = returning (λ u. nothing)

  abbrev pub perform : Adapter S → MethodCall → Action S Value
  perform adapter (connection_opened address port) =
      returning_nothing (adapter.connection_opened address port)
  perform adapter read_only_mode_allowed = returning truth adapter.read_only_mode_allowed
  perform adapter (verify_login_credentials username password) =
      returning truth (adapter.verify_login_credentials username password)
  perform adapter (login_successful username read_only) =
      returning_nothing (adapter.login_successful username read_only)
  perform adapter get_message_count = returning number adapter.get_message_count
  perform adapter (get_message_content index encoding) =
      returning characters (adapter.get_message_content index encoding)
  perform adapter (get_message_unique_id index) =
      returning characters (adapter.get_message_unique_id index)
  perform adapter (is_message_marked_as_deleted index) =
      returning truth (adapter.is_message_marked_as_deleted index)
  perform adapter (mark_message_as_deleted index) =
      returning_nothing (adapter.mark_message_as_deleted index)
  perform adapter unmark_messages_marked_as_deleted =
      returning_nothing adapter.unmark_messages_marked_as_deleted
  perform adapter commit_deletions = returning_nothing adapter.commit_deletions
  perform adapter connection_closed = returning_nothing adapter.connection_closed

  -- the calls one after another, whatever they raise, with what they gave
  abbrev pub perform_all : Adapter S → List MethodCall → S → List (Result Value) × S
  perform_all adapter [] s = ([], s)
  perform_all adapter (m ∷ ms) s =
      let (r, s') = perform adapter m s in
      let (rs, s'') = perform_all adapter ms s' in (r ∷ rs, s'')

-- Each `acquire` finds the lock free, and each `release` finds it held; at the end it is free.
abbrev pub is_bracketed : Bool → List LockCall → Bool
is_bracketed false [] = true
is_bracketed true [] = false
is_bracketed false (acquire ∷ calls) = is_bracketed true calls
is_bracketed true (acquire ∷ calls) = false
is_bracketed false (release ∷ calls) = false
is_bracketed true (release ∷ calls) = is_bracketed false calls

-- a call through the wrapper, next to the call itself
abbrev Wraps : {S : Type 0} → Adapter S → MethodCall → Type 0
Wraps {S} adapter m =
    (s : Locked S)
    → let (r, s') = perform adapter m s.adapter in
      perform (adapter_thread_locking_wrapper adapter) m s
      ≡ (r, record { adapter = s'; calls = (s.calls ++ acquire ∷ []) ++ release ∷ [] })

module _ {S : Type 0} (adapter : Adapter S) where
  -- what the calls give after one that gave `x` through the wrapper and `y` without
  abbrev Agree : List MethodCall → Result Value × Locked S → Result Value × S → Type 0
  Agree methods x y =
      let (results, left) = perform_all (adapter_thread_locking_wrapper adapter) methods x.1 in
      let (results', left') = perform_all adapter methods y.1 in
      (x.0 ∷ results ≡ y.0 ∷ results')
      × (left.adapter ≡ left')
      × (is_bracketed false left.calls ≡ true)
