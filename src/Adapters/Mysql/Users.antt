-- ===== src/Adapters/Mysql/Users.antt =====
-- src/pop3sf/adapters/MySQLSingleuserAdapter.py and src/pop3sf/adapters/MySQLMultiuserAdapter.py
use pop3sf.Prelude.{ℕ, Bool, true, false, Option, none, some, List, [], ◌∷◌, map}
use pop3sf.Text.{Text}
use pop3sf.Adapter.{Action}
use pop3sf.Adapter.Actions.{pure, raise, lift, gets, modify, ◌>>=◌, ◌>>◌}
use pop3sf.Adapters.{
  Library, Marked, unmarked, check_bcrypt_password, Credentials, matches_credentials,
  assertion_error,
}
use pop3sf.Adapters.Mysql.{Database, MysqlState, Subclass, on_connection}

module _ (library : Library) {D : Type 0} (database : Database library D) where
  open database use {select_ids, select_ids_of_user, select_user}

  abbrev pub SingleState : Type 0
  SingleState = MysqlState D Credentials

  unfoldable pub generate_singleuser_index : Action SingleState (List (Marked ℕ))
  generate_singleuser_index = do messages ← on_connection select_ids; pure (map unmarked messages)

  unfoldable pub verify_singleuser : Text → Text → Action SingleState Bool
  unfolding matches_credentials
  verify_singleuser username password = do
    credentials ← gets (λ s. s.own)
    lift (matches_credentials library credentials username password)

  abbrev pub singleuser : Subclass D Credentials
  singleuser = record {
    generate_message_index = generate_singleuser_index;
    verify_login_credentials = verify_singleuser;
  }

  -- Its own attribute is `_user_id`.
  abbrev pub MultiState : Type 0
  MultiState = MysqlState D (Option ℕ)

  unfoldable pub index_of_user : Option ℕ → Action MultiState (List (Marked ℕ))
  index_of_user none = raise assertion_error
  index_of_user (some user_id) = do
    messages ← on_connection (select_ids_of_user user_id)
    pure (map unmarked messages)

  unfoldable pub generate_multiuser_index : Action MultiState (List (Marked ℕ))
  unfolding index_of_user
  generate_multiuser_index = do user_id ← gets (λ s. s.own); index_of_user user_id

  unfoldable pub remember_user : ℕ → Bool → Action MultiState Bool
  remember_user id false = pure false
  remember_user id true = do modify (λ s. record s { own = some id }); pure true

  -- the rows with the username: the user exists if there is one
  unfoldable pub check_user : List (ℕ × Text) → Text → Action MultiState Bool
  unfolding remember_user
  check_user [] password = pure false
  check_user ((id, password_bcrypt) ∷ []) password = do
    is_password_correct ← lift (check_bcrypt_password library password password_bcrypt)
    remember_user id is_password_correct
  check_user (user ∷ other ∷ users) password = pure false

  unfoldable pub verify_multiuser : Text → Text → Action MultiState Bool
  unfolding check_user
  verify_multiuser username password = do
    user_metadata ← on_connection (select_user username)
    check_user user_metadata password

  abbrev pub multiuser : Subclass D (Option ℕ)
  multiuser = record {
    generate_message_index = generate_multiuser_index;
    verify_login_credentials = verify_multiuser;
  }
