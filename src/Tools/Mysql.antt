-- ===== src/Tools/Mysql.antt =====
-- auxiliary_libs/MySQLSingleuserAdapterTool.py and auxiliary_libs/MySQLMultiuserAdapterTool.py on a
-- database, which the tools' methods read and change.
use pop3sf.Prelude.{
  ℕ, Bool, true, false, not, Option, none, some, List, [], ◌∷◌, length, ◌==◌, if◌then◌else◌,
}
use pop3sf.Text.{Text}
use pop3sf.Text.Encoding.{Bytes, decode_utf8}
use pop3sf.Adapter.{Action, other_exception, Result, ok, raised}
use pop3sf.Adapter.Actions.{pure, raise, lift, ◌>>=◌, ◌>>◌}
use pop3sf.Adapters.{Library}
use pop3sf.Tools.{user_already_exists, user_does_not_exist, unicode_decode_error, hash_password}

-- The statements that the tools execute, over the tables with the names that a tool is constructed
-- with.
pub record Statements (D : Type 0) : Type 0 where
  pub create_messages_table : Action D Unit
  pub create_users_table : Action D Unit
  pub select_user_ids : Text → Action D (List ℕ)
  pub insert_user : Text → Text → Action D Unit
  pub update_password : Text → Text → Action D Unit
  pub insert_message : Text → Bool → Action D Unit
  pub insert_message_of_user : ℕ → Text → Bool → Action D Unit
  pub commit : Action D Unit
  pub close : Action D Unit

module _ {D : Type 0} (statements : Statements D) where
  open statements use {
    create_messages_table, create_users_table, insert_message, insert_message_of_user, commit,
    close,
  }

  -- the tool for one user
  unfoldable pub create_singleuser_table_if_needed : Action D Unit
  create_singleuser_table_if_needed = do create_messages_table; commit

  unfoldable pub add_single_message_to_database : Text → Bool → Action D Unit
  add_single_message_to_database content is_plaintext = do
    insert_message content is_plaintext
    commit

  pub add_single_plaintext_entry : Text → Action D Unit
  add_single_plaintext_entry message = add_single_message_to_database message true

  -- `message` is `str` of the message here.
  pub add_single_email_entry : Text → Action D Unit
  add_single_email_entry message = add_single_message_to_database message false

  -- both tools
  pub close_db_connection : Action D Unit
  close_db_connection = close

  -- the tool for many users
  unfoldable pub create_multiuser_tables_if_needed : Action D Unit
  create_multiuser_tables_if_needed = do create_messages_table; create_users_table; commit

abbrev first_id : List ℕ → Result ℕ
first_id [] = raised (other_exception 2)
first_id (id ∷ ids) = ok id

abbrev decoded : Option Text → Result Text
decoded none = raised unicode_decode_error
decoded (some t) = ok t

abbrev text_of : Result Bytes → Result Text
text_of (raised e) = raised e
text_of (ok bytes) = decoded (decode_utf8 bytes)

unfoldable pub hash_password_using_bcrypt : Library → Bytes → Text → Result Text
hash_password_using_bcrypt library salt password = text_of (hash_password library salt password)

module _ (library : Library) {D : Type 0} (statements : Statements D) where
  open statements use {
    select_user_ids, insert_user, update_password, insert_message_of_user, commit,
  }

  unfoldable pub does_user_row_exist : Text → Action D Bool
  does_user_row_exist username = do
    user_metadata ← select_user_ids username
    pure (length user_metadata == 1)

  unfoldable pub insert_user_row : Bytes → Text → Text → Action D Unit
  insert_user_row salt username password = do
    password_bcrypt ← lift (hash_password_using_bcrypt library salt password)
    insert_user username password_bcrypt
    commit

  unfoldable pub add_user_row : Bytes → Text → Text → Action D Unit
  unfolding insert_user_row
  add_user_row salt username password = do
    user_exists ← does_user_row_exist username
    if user_exists then raise user_already_exists else insert_user_row salt username password

  unfoldable pub update_user_row : Bytes → Text → Text → Action D Unit
  update_user_row salt username new_password = do
    password_bcrypt ← lift (hash_password_using_bcrypt library salt new_password)
    update_password password_bcrypt username
    commit

  unfoldable pub change_user_row_password : Bytes → Text → Text → Action D Unit
  unfolding update_user_row
  change_user_row_password salt username new_password = do
    user_exists ← does_user_row_exist username
    if not user_exists
        then raise user_does_not_exist
        else update_user_row salt username new_password

  -- `fetchone()[0]`; without a row the index is taken of `None`, a `TypeError`.
  unfoldable pub get_user_id_by_username : Text → Action D ℕ
  get_user_id_by_username username = do ids ← select_user_ids username; lift (first_id ids)

  unfoldable pub insert_user_message : Text → Text → Bool → Action D Unit
  unfolding get_user_id_by_username
  insert_user_message content username is_plaintext = do
    user_id ← get_user_id_by_username username
    insert_message_of_user user_id content is_plaintext
    commit

  unfoldable pub add_message_to_database : Text → Text → Bool → Action D Unit
  unfolding insert_user_message
  add_message_to_database content username is_plaintext = do
    user_exists ← does_user_row_exist username
    if not user_exists
        then raise user_does_not_exist
        else insert_user_message content username is_plaintext

  pub add_plaintext_entry : Text → Text → Action D Unit
  add_plaintext_entry username message = add_message_to_database message username true

  pub add_email_entry : Text → Text → Action D Unit
  add_email_entry username message = add_message_to_database message username false
