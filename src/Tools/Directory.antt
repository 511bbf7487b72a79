-- ===== src/Tools/Directory.antt =====
-- auxiliary_libs/DirectorySingleuserAdapterTool.py and auxiliary_libs/DirectoryMultiuserAdapterTool.py
-- on a file system, which the tools' methods read and change. The tool's only attribute is the path of
-- its directory.
use pop3sf.Prelude.{ℕ, Bool, not, Option, none, some, [], if◌then◌else◌}
use pop3sf.Text.{Text, text}
use pop3sf.Text.Encoding.{Bytes, decode_utf8}
use pop3sf.Adapter.{Action, Result, ok, raised}
use pop3sf.Adapter.Actions.{raise, lift, gets, ◌>>=◌, ◌>>◌}
use pop3sf.Adapters.{Library}
use pop3sf.Adapters.Files.{Files}
use pop3sf.Adapters.Directory.Users.{matches_username, password_file_name}
use pop3sf.Tools.{
  user_already_exists, user_does_not_exist, forbidden_username, unicode_decode_error, hash_password,
  generate_filename,
}

-- The random part of a filename.
pub record Randomness : Type 0 where
  pub time_ns : ℕ
  pub random_string : Text

module _ (library : Library) {F : Type 0} (files : Files library F) (directory_path : Text) where
  open files use {join_path, exists, write_file, mkdir}

  -- the tool for one user
  unfoldable pub write_single_message_to_file : Randomness → Text → Text → Action F Unit
  write_single_message_to_file random content filename_extension =
      write_file
        (join_path directory_path
          (generate_filename random.time_ns random.random_string filename_extension))
        content

  pub add_single_plaintext_message : Randomness → Text → Action F Unit
  add_single_plaintext_message random message =
      write_single_message_to_file random message (text "txt")

  -- `message` is `str` of the message here.
  pub add_single_email_message : Randomness → Text → Action F Unit
  add_single_email_message random message = write_single_message_to_file random message (text "eml")

  -- the tool for many users
  unfoldable pub validate_username_and_get_per_user_directory_path : Text → Result Text
  validate_username_and_get_per_user_directory_path username =
      if not (matches_username username)
      then raised forbidden_username
      else ok (join_path directory_path username)

  unfoldable pub does_user_exist : Text → Action F Bool
  unfolding validate_username_and_get_per_user_directory_path
  does_user_exist username = do
    path ← lift (validate_username_and_get_per_user_directory_path username)
    gets (exists path)

  -- `open` empties the file before the hash is decoded and written.
  unfoldable pub write_hash : Text → Option Text → Action F Unit
  write_hash path none = do write_file path []; raise unicode_decode_error
  write_hash path (some password_bcrypt) = write_file path password_bcrypt

  unfoldable pub set_password : Bytes → Text → Text → Action F Unit
  unfolding write_hash validate_username_and_get_per_user_directory_path
  set_password salt username new_password = do
    path ← lift (validate_username_and_get_per_user_directory_path username)
    password_bcrypt ← lift (hash_password library salt new_password)
    write_hash (join_path path password_file_name) (decode_utf8 password_bcrypt)

  unfoldable pub change_user_password : Bytes → Text → Text → Action F Unit
  unfolding does_user_exist
  change_user_password salt username new_password = do
    user_exists ← does_user_exist username
    if not user_exists then raise user_does_not_exist else set_password salt username new_password

  unfoldable pub make_user : Bytes → Text → Text → Action F Unit
  make_user salt username password = do
    path ← lift (validate_username_and_get_per_user_directory_path username)
    mkdir path
    change_user_password salt username password

  unfoldable pub add_user : Bytes → Text → Text → Action F Unit
  unfolding make_user
  add_user salt username password = do
    user_exists ← does_user_exist username
    if user_exists then raise user_already_exists else make_user salt username password

  unfoldable pub write_user_message : Randomness → Text → Text → Text → Action F Unit
  write_user_message random content username filename_extension = do
    path ← lift (validate_username_and_get_per_user_directory_path username)
    write_file
        (join_path path (generate_filename random.time_ns random.random_string filename_extension))
        content

  unfoldable pub write_message_to_file : Randomness → Text → Text → Text → Action F Unit
  unfolding write_user_message
  write_message_to_file random content username filename_extension = do
    user_exists ← does_user_exist username
    if not user_exists
        then raise user_does_not_exist
        else write_user_message random content username filename_extension

  pub add_plaintext_message : Randomness → Text → Text → Action F Unit
  add_plaintext_message random username message =
      write_message_to_file random message username (text "txt")

  unfoldable pub add_email_message : Randomness → Text → Text → Action F Unit
  add_email_message random username message =
      write_message_to_file random message username (text "eml")
