-- ===== src/Helper/Inside.antt =====
-- Sets of states of the adapter, and the methods of the adapter that `AdapterHelperWrapper` calls in them.
use pop3sf.Prelude.{ℕ, Bool, List}
use pop3sf.Text.{Text}
use pop3sf.Text.Encoding.{Encoding}
use pop3sf.Ensurer.{Client}
use pop3sf.Adapter.{Adapter, Action}
use pop3sf.Session.{ClientStatus, World, call, modify, sleep, update_clients}
use pop3sf.Session.Keeps.{
  Preserves, Preserves-call, Preserves-modify, Preserves-sleep, Preserves-update_clients,
  preserving,
}
use pop3sf.Helper.{
  Env, perform_invalid_password_punishments, verify_login_credentials, login_successful,
  authentication_successful, is_message_marked_as_deleted, mark_message_as_deleted,
  unmark_messages_marked_as_deleted,
}
use pop3sf.Helper.Keeps.{ReadsKeep}

-- The adapter's methods before and at logging in do not leave `P`.
pub record ClosedUnderEntering {S : Type 0} (a : Adapter S) (P : S → Type 0) : Type 0 where
  pub mode : (s : S) → P s → P (a.read_only_mode_allowed s).1
  pub verify :
      (username password : Text) (s : S)
      → P s
      → P (a.verify_login_credentials username password s).1
  pub login :
      (username : Text) (read_only : Bool) (s : S)
      → P s
      → P (a.login_successful username read_only s).1

-- The adapter's methods on messages do not leave `P`, but for the one that commits deletions.
pub record ClosedUnderMarking {S : Type 0} (a : Adapter S) (P : S → Type 0) : Type 0 where
  pub count : (s : S) → P s → P (a.get_message_count s).1
  pub content : (i : ℕ) (e : Encoding) (s : S) → P s → P (a.get_message_content i e s).1
  pub unique_id : (i : ℕ) (s : S) → P s → P (a.get_message_unique_id i s).1
  pub marked : (i : ℕ) (s : S) → P s → P (a.is_message_marked_as_deleted i s).1
  pub mark : (i : ℕ) (s : S) → P s → P (a.mark_message_as_deleted i s).1
  pub unmark : (s : S) → P s → P (a.unmark_messages_marked_as_deleted s).1

pub record IsInside {S : Type 0} (P : S → Type 0) (w : World S) : Type 0 where
  pub inside : P w.adapter

module _ {S : Type 0} {P : S → Type 0} where
  pub call-IsInside :
      {A : Type 0} (action : Action S A)
      → ((s : S) → P s → P (action s).1)
      → Preserves (IsInside P) (call action)
  call-IsInside action k = Preserves-call action λ w h. record { inside = k w.adapter h.inside }

  pub modify-IsInside : (f : ClientStatus → ClientStatus) → Preserves (IsInside P) (modify f)
  modify-IsInside f = Preserves-modify f λ w h. record { inside = h.inside }

  sleep-IsInside : (n : ℕ) → Preserves (IsInside P) (sleep n)
  sleep-IsInside n = Preserves-sleep n λ w h. record { inside = h.inside }

  clients-IsInside :
      {A : Type 0} (f : List Client → List Client × A) → Preserves (IsInside P) (update_clients f)
  clients-IsInside f = Preserves-update_clients f λ w h. record { inside = h.inside }

  ruleset inside_rules = (preserving, modify-IsInside, sleep-IsInside, clients-IsInside)

module _ {S : Type 0} (env : Env S) {P : S → Type 0}
    (closed : ClosedUnderEntering env.adapter P) where
  punishments-IsInside : Preserves (IsInside P) (perform_invalid_password_punishments env)
  unfolding perform_invalid_password_punishments
  punishments-IsInside = search inside_rules depth 9

  call_verify-IsInside :
      (username password : Text)
      → Preserves (IsInside P) (call (env.adapter.verify_login_credentials username password))
  call_verify-IsInside username password = call-IsInside _ (closed.verify username password)

  pub verify-IsInside :
      (username password : Text)
      → Preserves (IsInside P) (verify_login_credentials env username password)
  unfolding verify_login_credentials
  verify-IsInside username password =
      search (inside_rules, call_verify-IsInside, punishments-IsInside)

  call_login-IsInside :
      (username : Text) (mode : Bool)
      → Preserves (IsInside P) (call (env.adapter.login_successful username mode))
  call_login-IsInside username mode = call-IsInside _ (closed.login username mode)

  login-IsInside : (username : Text) → Preserves (IsInside P) (login_successful env username)
  unfolding login_successful
  login-IsInside username = search (inside_rules, call_login-IsInside)

  pub authentication-IsInside :
      (username : Text) → Preserves (IsInside P) (authentication_successful env username)
  unfolding authentication_successful
  authentication-IsInside username = search (inside_rules, login-IsInside) depth 12

module _ {S : Type 0} (env : Env S) {P : S → Type 0}
    (closed : ClosedUnderMarking env.adapter P) where
  call_marked-IsInside :
      (i : ℕ) → Preserves (IsInside P) (call (env.adapter.is_message_marked_as_deleted i))
  call_marked-IsInside i = call-IsInside _ (closed.marked i)

  marked-IsInside : (i : ℕ) → Preserves (IsInside P) (is_message_marked_as_deleted env i)
  unfolding is_message_marked_as_deleted
  marked-IsInside i = search (inside_rules, call_marked-IsInside)

  call_mark-IsInside :
      (i : ℕ) → Preserves (IsInside P) (call (env.adapter.mark_message_as_deleted i))
  call_mark-IsInside i = call-IsInside _ (closed.mark i)

  pub mark-IsInside : (i : ℕ) → Preserves (IsInside P) (mark_message_as_deleted env i)
  unfolding mark_message_as_deleted
  mark-IsInside i = search (inside_rules, call_mark-IsInside)

  call_unmark-IsInside : Preserves (IsInside P) (call env.adapter.unmark_messages_marked_as_deleted)
  call_unmark-IsInside = call-IsInside _ closed.unmark

  pub unmark-IsInside : Preserves (IsInside P) (unmark_messages_marked_as_deleted env)
  unfolding unmark_messages_marked_as_deleted
  unmark-IsInside = search (inside_rules, call_unmark-IsInside)

  pub reads-IsInside : ReadsKeep env (IsInside P)
  reads-IsInside = record {
    count = call-IsInside _ closed.count;
    content = λ i e. call-IsInside _ (closed.content i e);
    unique_id = λ i. call-IsInside _ (closed.unique_id i);
    marked = marked-IsInside;
  }
