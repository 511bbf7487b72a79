-- ===== src/Adapter.antt =====
-- What the server asks of an adapter: src/pop3sf/adapters/AdapterBase.py. An adapter of the model is
-- a type of states with one function for each method, which returns or raises, and leaves a state.
pub mod Actions
pub mod Stays
use pop3sf.Prelude.{ℕ, Bool, true, ℤ}
use pop3sf.Text.{Text}
use pop3sf.Text.Encoding.{Encoding}
use pop3sf.Response.{Response}

-- The exceptions that are told apart somewhere in the program, and all others.
pub data Exception : Type 0 where
  send_data : Response → Exception
  close_connection adapter_close_connection os_error runtime_error : Exception
  unicode_encode_error : Exception
  other_exception : ℕ → Exception

pub data Result {ℓ} (A : Type ℓ) : Type ℓ where
  ok : A → Result A
  raised : Exception → Result A

abbrev pub Action : Type 0 → Type 0 → Type 0
Action S A = S → Result A × S

pub record Adapter (S : Type 0) : Type 0 where
  pub connection_opened : Text → ℕ → Action S Unit
  pub read_only_mode_allowed : Action S Bool
  pub verify_login_credentials : Text → Text → Action S Bool
  pub login_successful : Text → Bool → Action S Unit
  pub get_message_count : Action S ℤ
  pub get_message_content : ℕ → Encoding → Action S Text
  pub get_message_unique_id : ℕ → Action S Text
  pub is_message_marked_as_deleted : ℕ → Action S Bool
  pub mark_message_as_deleted : ℕ → Action S Unit
  pub unmark_messages_marked_as_deleted : Action S Unit
  pub commit_deletions : Action S Unit
  pub connection_closed : Action S Unit

-- The methods that `AdapterBase` implements itself.
unfoldable pub default_connection_opened : {S : Type 0} → Text → ℕ → Action S Unit
default_connection_opened client_address client_port s = (ok tt, s)

unfoldable pub default_read_only_mode_allowed : {S : Type 0} → Action S Bool
default_read_only_mode_allowed s = (ok true, s)

unfoldable pub default_login_successful : {S : Type 0} → Text → Bool → Action S Unit
default_login_successful username read_only s = (ok tt, s)

unfoldable pub default_connection_closed : {S : Type 0} → Action S Unit
default_connection_closed s = (ok tt, s)
