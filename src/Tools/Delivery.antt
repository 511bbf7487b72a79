-- ===== src/Tools/Delivery.antt =====
-- That the directory adapters serve what the tool for many users has written.
use pop3sf.Prelude.{ℕ, ◌≡◌, refl, Bool, true, false, ◌||◌, some, [], ◌∷◌, ◌++◌, get_elem?}
use pop3sf.Text.{Text, text, ends_with}
use pop3sf.Text.Words.{text_eq_refl}
use pop3sf.Adapter.{ok}
use pop3sf.Adapters.{Library}
use pop3sf.Adapters.Files.{Files}
use pop3sf.Adapters.Directory.{
  Entry, DirectoryState, entries_of, directory_message_content, entry_content, wrap_content,
}
use pop3sf.Adapters.Directory.Users.{matches_username}
use pop3sf.Tools.{generate_filename}
use pop3sf.Tools.Agreement.{HasNoCr, WriteLaws, validated-inv, exists-inv}
use pop3sf.Tools.Directory.{
  Randomness, does_user_exist, write_user_message, write_message_to_file, add_email_message,
}

-- What `os.path.join` documents: the result ends with the last component.
pub record JoinLaws {library : Library} {F : Type 0} (files : Files library F) : Type 0 where
  pub ends-join :
      (suffix a b : Text)
      → ends_with suffix b ≡ true
      → ends_with suffix (files.join_path a b) ≡ true

or_true : (b : Bool) → (b || true) ≡ true
or_true true = refl
or_true false = refl

pub ends_with-append :
    (suffix x t : Text) → ends_with suffix t ≡ true → ends_with suffix (x ++ t) ≡ true
unfolding ends_with
ends_with-append suffix [] t h = h
ends_with-append suffix (c ∷ x) t h = rw (ends_with-append suffix x t h) (or_true _)

ends_with_self : (c : ℕ) (cs : Text) → ends_with (c ∷ cs) (c ∷ cs) ≡ true
unfolding ends_with
ends_with_self c cs = rw (text_eq_refl (c ∷ cs)) refl

filename-ends :
    (n : ℕ) (random : Text)
    → ends_with (text ".eml") (generate_filename n random (text "eml")) ≡ true
unfolding generate_filename text
filename-ends n random = ends_with-append (text ".eml") _ _ (
    ends_with-append (text ".eml") (text "_") _
      (ends_with-append (text ".eml") random (text ".eml") (ends_with_self _ _)))

-- The entry of an email.
abbrev pub email_entry : {Epoch : Type 0} → Text → Epoch → Entry Epoch
email_entry path epoch = record { path = path; last_modified_epoch = epoch; is_plaintext = false }

module _ (library : Library) {F : Type 0} (files : Files library F) (directory_path : Text) where
  open files use {Epoch, join_path, write_file}

  -- where a message of a user is written
  abbrev pub message_path : Randomness → Text → Text
  message_path random username =
      join_path (join_path directory_path username)
        (generate_filename random.time_ns random.random_string (text "eml"))

  write-inv :
      (random : Randomness) (username message : Text) (f f' : F)
      → add_email_message library files directory_path random username message f ≡ (ok tt, f')
      → write_file (message_path random username) message f ≡ (ok tt, f')
  unfolding add_email_message write_message_to_file does_user_exist write_user_message
  write-inv random username message f f' h =
      (validated-inv (matches_username username) (join_path directory_path username) _ f f' tt (
        exists-inv (matches_username username) (join_path directory_path username) files.exists
          (write_user_message library files directory_path random message username (text "eml")) f
          f' tt h)).1

  entry-listed :
      (joining : JoinLaws files) (random : Randomness) (username : Text) (epoch : Epoch)
      → let path = message_path random username in
        entries_of library files path epoch ≡ email_entry path epoch ∷ []
  unfolding entries_of
  entry-listed joining random username epoch =
      rw
        (joining.ends-join (text ".eml") (join_path directory_path username) _
          (filename-ends random.time_ns random.random_string))
        refl

module _ (library : Library) {F U : Type 0} (files : Files library F) where
  content-read :
      (i : ℕ) (path message : Text) (epoch : files.Epoch) (marked : Bool)
      (s : DirectoryState files.Epoch F U)
      → get_elem? s.message_index i
        ≡ some (record { item = email_entry path epoch; marked_as_deleted = marked })
      → files.read_file path s.files ≡ ok message
      → directory_message_content library files i s ≡ (ok message, s)
  unfolding directory_message_content entry_content wrap_content
  content-read i path message epoch marked s e h = rw (e, h) refl

  -- If a joined path ends with its last component, and what is written to a file is read from it, if it
  -- has no carriage return, then an email without a carriage return that the tool for many users has
  -- written is listed as an email by its path, whatever the time of its last change; and an adapter
  -- on the same directory, as long as no file has changed in between, serves the email as it is under
  -- every index where it has that entry, marked or not.
  pub content-add_email_message :
      (directory_path : Text) (joining : JoinLaws files) (writing : WriteLaws files)
      (random : Randomness) (username message : Text) (f : F) (epoch : files.Epoch) (i : ℕ)
      (marked : Bool) (s : DirectoryState files.Epoch F U)
      → let path = message_path library files directory_path random username in
        HasNoCr message
        → add_email_message library files directory_path random username message f
          ≡ (ok tt, s.files)
        → get_elem? s.message_index i
          ≡ some (record { item = email_entry path epoch; marked_as_deleted = marked })
        → (entries_of library files path epoch ≡ email_entry path epoch ∷ [])
          × (directory_message_content library files i s ≡ (ok message, s))
  content-add_email_message directory_path joining writing random username message f epoch i marked
        s plain added listed =
      (
        entry-listed library files directory_path joining random username epoch,
        content-read i (message_path library files directory_path random username) message epoch
            marked s listed
            (writing.read-write (message_path library files directory_path random username) message
              f s.files plain
              (write-inv library files directory_path random username message f s.files added)),
      )
