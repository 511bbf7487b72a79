-- ===== src/Adapters/Directory/Unchanged.antt =====
-- When the directory adapters change the file system.
use pop3sf.Prelude.{All, ℕ, ◌≡◌, refl, Bool, true, false, Option, some, none, List}
use pop3sf.Text.{Text}
use pop3sf.Text.Decimal.{Unicode}
use pop3sf.Settings.{Settings}
use pop3sf.Adapter.{Action, default_read_only_mode_allowed}
use pop3sf.Adapter.Stays.{Stays, Stays-modify, staying}
use pop3sf.Session.{World}
use pop3sf.Helper.{Env}
use pop3sf.Helper.Inside.{ClosedUnderEntering, ClosedUnderMarking}
use pop3sf.Client.{handle_lines}
use pop3sf.Client.WithoutQuit.{asks_to_quit, handle_lines-without_quit}
use pop3sf.Adapters.{Library, Marked, Credentials}
use pop3sf.Adapters.Files.{Files}
use pop3sf.Adapters.Directory.{
  Entry, DirectoryState, Subclass, directory_adapter, directory_login_successful, entry_unique_id,
  directory_message_unique_id, wrap_content, entry_content, directory_message_content, mark_entry,
}
use pop3sf.Adapters.Directory.Users.{
  generate_single_directory_index, verify_single_directory, single_directory,
  generate_multi_directory_index, index_of_directory, remember_directory, check_password_file,
  check_directory, verify_multi_directory, multi_directory,
}

-- The file system is `f`.
abbrev HasFiles : {Epoch F U : Type 0} → F → DirectoryState Epoch F U → Type 0
HasFiles f s = s.files ≡ f

module _ (library : Library) {F U : Type 0} (files : Files library F) (f : F) where
  open files use {Epoch}

  abbrev Keeps : {A : Type 0} → Action (DirectoryState Epoch F U) A → Type 0
  Keeps m = Stays (HasFiles f) m

  entry_unique_id-Keeps :
      (m : Option (Marked (Entry Epoch))) → Keeps (entry_unique_id library files m)
  unfolding entry_unique_id
  entry_unique_id-Keeps none = search staying
  entry_unique_id-Keeps (some m) = search staying

  unique_id-Keeps : (i : ℕ) → Keeps (directory_message_unique_id library files i)
  unfolding directory_message_unique_id
  unique_id-Keeps i = search (staying, entry_unique_id-Keeps)

  wrap-Keeps :
      (i : ℕ) (message : Entry Epoch) (content : Text) (is_plaintext : Bool)
      → Keeps (wrap_content library files i message content is_plaintext)
  unfolding wrap_content
  wrap-Keeps i message content false = search staying
  wrap-Keeps i message content true = search (staying, unique_id-Keeps)

  entry_content-Keeps :
      (i : ℕ) (m : Option (Marked (Entry Epoch))) → Keeps (entry_content library files i m)
  unfolding entry_content
  entry_content-Keeps i none = search staying
  entry_content-Keeps i (some m) = search (staying, wrap-Keeps)

  content-Keeps : (i : ℕ) → Keeps (directory_message_content library files i)
  unfolding directory_message_content
  content-Keeps i = search (staying, entry_content-Keeps)

  mark-Keeps : (i : ℕ) → Keeps (mark_entry library files i)
  unfolding mark_entry
  mark-Keeps i = search (staying, Stays-modify)

  -- The methods on messages are those of the base class.
  directory-ClosedUnderMarking :
      (subclass : Subclass Epoch F U)
      → ClosedUnderMarking (directory_adapter library files subclass) (HasFiles f)
  directory-ClosedUnderMarking subclass = record {
    count = λ s h. h;
    content = λ i e. (content-Keeps i).stays;
    unique_id = λ i. (unique_id-Keeps i).stays;
    marked = λ i s h. h;
    mark = λ i. (mark-Keeps i).stays;
    unmark = λ s h. h;
  }

  login-Keeps :
      (subclass : Subclass Epoch F U)
      → Keeps subclass.generate_message_index
      → (username : Text) (read_only : Bool)
      → Keeps (directory_login_successful library files subclass username read_only)
  unfolding directory_login_successful
  login-Keeps subclass index username read_only = search (staying, Stays-modify)

  directory-ClosedUnderEntering :
      (subclass : Subclass Epoch F U)
      → Keeps subclass.generate_message_index
      → ((username password : Text) → Keeps (subclass.verify_login_credentials username password))
      → ClosedUnderEntering (directory_adapter library files subclass) (HasFiles f)
  unfolding default_read_only_mode_allowed
  directory-ClosedUnderEntering subclass index verify = record {
    mode = λ s h. h;
    verify = λ username password. (verify username password).stays;
    login = λ username read_only. (login-Keeps subclass index username read_only).stays;
  }

module _ (library : Library) {F : Type 0} (files : Files library F) (f : F) where
  single_index-Keeps : Stays (HasFiles f) (generate_single_directory_index library files)
  unfolding generate_single_directory_index
  single_index-Keeps = search staying

  verify_single-Keeps :
      (username password : Text)
      → Stays (HasFiles f) (verify_single_directory library files username password)
  unfolding verify_single_directory
  verify_single-Keeps username password = search staying

  index_of-Keeps : (path : Option Text) → Stays (HasFiles f) (index_of_directory library files path)
  unfolding index_of_directory
  index_of-Keeps none = search staying
  index_of-Keeps (some path) = search staying

  multi_index-Keeps : Stays (HasFiles f) (generate_multi_directory_index library files)
  unfolding generate_multi_directory_index
  multi_index-Keeps = search (staying, index_of-Keeps)

  remember-Keeps :
      (path : Text) (correct : Bool)
      → Stays (HasFiles f) (remember_directory library files path correct)
  unfolding remember_directory
  remember-Keeps path false = search staying
  remember-Keeps path true = search (staying, Stays-modify)

  check_file-Keeps :
      (path password : Text) → Stays (HasFiles f) (check_password_file library files path password)
  unfolding check_password_file
  check_file-Keeps path password = search (staying, remember-Keeps)

  check_directory-Keeps :
      (path password : Text) → Stays (HasFiles f) (check_directory library files path password)
  unfolding check_directory
  check_directory-Keeps path password = search (staying, check_file-Keeps)

  verify_multi-Keeps :
      (username password : Text)
      → Stays (HasFiles f) (verify_multi_directory library files username password)
  unfolding verify_multi_directory
  verify_multi-Keeps username password = search (staying, check_directory-Keeps)

module _ (library : Library) {F : Type 0} (files : Files library F) (settings : Settings)
    (unicode : Unicode) where
  abbrev pub directory_env :
      {U : Type 0} → Subclass files.Epoch F U → Env (DirectoryState files.Epoch F U)
  directory_env subclass = record {
    settings = settings;
    adapter = directory_adapter library files subclass;
    unicode = unicode;
  }

  -- With a directory adapter, for one user or for many, handling lines of which none is QUIT does not
  -- change the file system, in whatever state the session is, and however it ends.
  pub handle_lines-keeps_files :
      (lines : List Text)
      → All (λ line. asks_to_quit unicode line ≡ false) lines
      → ((w : World (DirectoryState files.Epoch F Credentials))
          → (handle_lines (directory_env (single_directory library files)) lines w).1.adapter.files
            ≡ w.adapter.files)
        × ((w : World (DirectoryState files.Epoch F (Option Text)))
            → (handle_lines (directory_env (multi_directory library files)) lines w).1.adapter.files
              ≡ w.adapter.files)
  handle_lines-keeps_files lines others = (
    λ w.
        handle_lines-without_quit (directory_env (single_directory library files))
          (HasFiles w.adapter.files)
          (directory-ClosedUnderEntering library files w.adapter.files
            (single_directory library files) (single_index-Keeps library files w.adapter.files)
            (verify_single-Keeps library files w.adapter.files))
          (directory-ClosedUnderMarking library files w.adapter.files
            (single_directory library files))
          lines others w refl,
    λ w.
        handle_lines-without_quit (directory_env (multi_directory library files))
          (HasFiles w.adapter.files)
          (directory-ClosedUnderEntering library files w.adapter.files
            (multi_directory library files) (multi_index-Keeps library files w.adapter.files)
            (verify_multi-Keeps library files w.adapter.files))
          (directory-ClosedUnderMarking library files w.adapter.files
            (multi_directory library files))
          lines others w refl,
  )
