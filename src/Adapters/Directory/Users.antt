-- ===== src/Adapters/Directory/Users.antt =====
-- src/pop3sf/adapters/DirectorySingleuserAdapter.py and
-- src/pop3sf/adapters/DirectoryMultiuserAdapter.py
use pop3sf.Prelude.{
  ℕ, Bool, true, false, not, ◌&&◌, ◌||◌, Option, none, some, List, [], ◌∷◌, leb, ◌==◌, length,
  if◌then◌else◌,
}
use pop3sf.Text.{Text, text, strip, drop_final_newline}
use pop3sf.Adapter.{Action, Result}
use pop3sf.Adapter.Actions.{pure, raise, lift, gets, modify, ◌>>=◌, ◌>>◌}
use pop3sf.Adapters.{
  Library, Credentials, matches_credentials, assertion_error, check_bcrypt_password,
}
use pop3sf.Adapters.Files.{Files}
use pop3sf.Adapters.Directory.{
  Entry, DirectoryState, Subclass, observe, generate_message_index_using_full_directory_path,
}

-- `[0-9A-Za-z_-]`
unfoldable pub is_username_character : ℕ → Bool
is_username_character c =
    (leb b'0' c && leb c b'9')
    || (leb b'A' c && leb c b'Z')
    || (leb b'a' c && leb c b'z')
    || (c == b'_')
    || (c == b'-')

unfoldable pub all_username_characters : Text → Bool
all_username_characters [] = true
all_username_characters (c ∷ cs) = is_username_character c && all_username_characters cs

-- `re.match(r'^[0-9A-Za-z_-]{1,64}$', s)`, where `$` also matches before a line feed at the end
unfoldable pub matches_username : Text → Bool
matches_username s =
    let t = drop_final_newline s in
    leb 1 (length t) && leb (length t) 64 && all_username_characters t

abbrev pub password_file_name : Text
password_file_name = text ".pop3sf_password_bcrypt"

module _ (library : Library) {F : Type 0} (files : Files library F) where
  open files use {Epoch, join_path, isfile, read_file}

  abbrev pub SingleState : Type 0
  SingleState = DirectoryState Epoch F Credentials

  unfoldable pub generate_directory_index : Text → F → Result (List (Entry Epoch))
  generate_directory_index = generate_message_index_using_full_directory_path library files

  unfoldable pub generate_single_directory_index : Action SingleState (List (Entry Epoch))
  generate_single_directory_index = do
    path ← gets (λ s. s.directory_path)
    index ← observe (generate_directory_index path)
    lift index

  unfoldable pub verify_single_directory : Text → Text → Action SingleState Bool
  verify_single_directory username password = do
    credentials ← gets (λ s. s.own)
    lift (matches_credentials library credentials username password)

  abbrev pub single_directory : Subclass Epoch F Credentials
  single_directory = record {
    generate_message_index = generate_single_directory_index;
    verify_login_credentials = verify_single_directory;
  }

  -- Its own attribute is `_per_user_directory_path`.
  abbrev pub MultiState : Type 0
  MultiState = DirectoryState Epoch F (Option Text)

  unfoldable pub index_of_directory : Option Text → Action MultiState (List (Entry Epoch))
  index_of_directory none = raise assertion_error
  index_of_directory (some path) = do index ← observe (generate_directory_index path); lift index

  unfoldable pub generate_multi_directory_index : Action MultiState (List (Entry Epoch))
  unfolding index_of_directory
  generate_multi_directory_index = do path ← gets (λ s. s.own); index_of_directory path

  unfoldable pub remember_directory : Text → Bool → Action MultiState Bool
  remember_directory path false = pure false
  remember_directory path true = do modify (λ s. record s { own = some path }); pure true

  -- behind the test that there is a password file
  unfoldable pub check_password_file : Text → Text → Action MultiState Bool
  unfolding remember_directory
  check_password_file path password = do
    content ← observe (read_file (join_path path password_file_name))
    password_bcrypt ← lift content
    is_password_correct ← lift (check_bcrypt_password library password (strip password_bcrypt))
    remember_directory path is_password_correct

  unfoldable pub check_directory : Text → Text → Action MultiState Bool
  unfolding check_password_file
  check_directory path password = do
    exists ← observe (isfile (join_path path password_file_name))
    if not exists then pure false else check_password_file path password

  unfoldable pub verify_multi_directory : Text → Text → Action MultiState Bool
  unfolding check_directory
  verify_multi_directory username password =
      if not (matches_username username) then pure false else do
        directory_path ← gets (λ s. s.directory_path)
        check_directory (join_path directory_path username) password

  abbrev pub multi_directory : Subclass Epoch F (Option Text)
  multi_directory = record {
    generate_message_index = generate_multi_directory_index;
    verify_login_credentials = verify_multi_directory;
  }
