-- ===== src/Tests/Mailboxes.antt =====
-- Theorems about the adapters and the tools at sample file systems and databases.
use pop3sf.Adapters.Directory.Users.{generate_directory_index}
use pop3sf.Adapters.Directory.Users.{generate_multi_directory_index}
use pop3sf.Text.Encoding.{decode_utf8}
use pop3sf.Text.Encoding.{encode}
use pop3sf.Tools.{hash_password}
use pop3sf.Tools.Directory.{set_password}
use pop3sf.Adapters.Directory.Users.{all_username_characters}
use pop3sf.Text.{drop_final_newline}
use pop3sf.Prelude.{
  ℕ, ◌≡◌, ◌⊎◌, refl, Bool, true, false, none, some, List, [], ◌∷◌, ◌++◌, map, arith,
}
use pop3sf.Prelude.Sort.{sort_by}
use pop3sf.Text.{Text, text, text_eq, ends_with, strip}
use pop3sf.Adapter.{ok}
use pop3sf.Adapters.{unmarked, check_bcrypt_password}
use pop3sf.Adapters.Files.{Files}
use pop3sf.Adapters.Directory.{
  collect_entries, entries_of, Entry, generate_message_index_using_full_directory_path,
  directory_login_successful, directory_adapter,
}
use pop3sf.Adapters.Directory.Commit.{HasCommitted, IsMarked, IsSame, commit_deletions-HasCommitted}
use pop3sf.Adapters.Directory.Users.{
  is_username_character, MultiState, multi_directory, verify_multi_directory, matches_username,
}
use pop3sf.Adapters.Directory.Access.{
  verify_multi_directory-refuses, login_multi_directory-gets_own,
}
use pop3sf.Tools.Directory.{change_user_password}
use pop3sf.Tools.Agreement.{verify-change_user_password}
use pop3sf.Tests.Samples.{sample_library, scramble}
use pop3sf.Tests.SampleFiles.{
  FileList, sample_files, sample-WriteLaws, sample-BcryptLaws, sample-RemoveLaws,
}

abbrev inbox : FileList
inbox =
    (text "b.txt", text "12")
    ∷ (text "notes.md", text "")
    ∷ (text "c.eml", text "1")
    ∷ (text "a.eml", text "34")
    ∷ []

abbrev entry : Text → ℕ → Bool → Entry ℕ
entry path epoch plain = record { path = path; last_modified_epoch = epoch; is_plaintext = plain }

abbrev inbox_index : List (Entry ℕ)
inbox_index =
    entry (text "c.eml") 1 false ∷ entry (text "a.eml") 2 false ∷ entry (text "b.txt") 2 true ∷ []

-- the messages of the directory inbox, as absolute paths
abbrev names : List Text
names = text "b.txt" ∷ text "notes.md" ∷ text "c.eml" ∷ text "a.eml" ∷ []

abbrev absolute_prefix : Text
absolute_prefix = text "/srv/inbox/"

abbrev absolute_inbox : FileList
absolute_inbox = map (λ entry. (absolute_prefix ++ entry.0, entry.1)) inbox

abbrev absolute_index : List (Entry ℕ)
absolute_index = map (λ (e : Entry ℕ). record e { path = absolute_prefix ++ e.path }) inbox_index

abbrev served_files : Files sample_library FileList
served_files = record sample_files {
  glob_all = λ directory f. map (λ name. (directory ++ text "/") ++ name) names;
  abspath = λ path f. text "/srv/" ++ path;
}

abbrev mailboxes : FileList → MultiState sample_library sample_files
mailboxes f = record { files = f; directory_path = text "mail"; message_index = []; own = none }

verify_multi_directory-refuses_example :
    verify_multi_directory sample_library sample_files (text "..") (text "pw") (mailboxes inbox)
    ≡ (ok false, mailboxes inbox)
unfolding text
verify_multi_directory-refuses_example =
    verify_multi_directory-refuses sample_library sample_files b'.' (text "..") (text "pw")
      (mailboxes inbox) (λ allowed. ground arith) (omega arith) refl

abbrev ann_path : Text
ann_path = text "mail/ann"

abbrev ann_files : FileList
ann_files = (text "mail/ann/.pop3sf_password_bcrypt", scramble (text "pw")) ∷ inbox

abbrev let_in : MultiState sample_library sample_files
let_in = record (mailboxes ann_files) { own = some ann_path }

verify-change_user_password_example :
    verify_multi_directory sample_library sample_files
      (text "ann")
      (text "pw")
      (mailboxes ann_files)
    ≡ (ok true, let_in)
unfolding text change_user_password matches_username drop_final_newline all_username_characters
    is_username_character set_password hash_password encode decode_utf8
verify-change_user_password_example =
    verify-change_user_password sample_library sample_files sample-BcryptLaws sample-WriteLaws []
      (text "ann") (text "pw") inbox (mailboxes ann_files) refl

abbrev logged_in : MultiState sample_library sample_files
logged_in = record let_in { message_index = map unmarked inbox_index }

login_multi_directory-gets_own_example :
    (matches_username (text "ann") ≡ true)
    × (sample_files.isfile (text "mail/ann/.pop3sf_password_bcrypt") ann_files ≡ true)
    × (hash : Text) × (entries : List (Entry ℕ)) × (sample_files.read_file
          (text "mail/ann/.pop3sf_password_bcrypt")
          ann_files
        ≡ ok hash)
    × (check_bcrypt_password sample_library (text "pw") (strip hash) ≡ ok true)
    × (generate_message_index_using_full_directory_path sample_library sample_files ann_path
          ann_files
        ≡ ok entries)
    × (logged_in.message_index ≡ map unmarked entries)
unfolding text directory_login_successful generate_multi_directory_index generate_directory_index
    generate_message_index_using_full_directory_path collect_entries sort_by text_eq entries_of
    ends_with
login_multi_directory-gets_own_example =
    login_multi_directory-gets_own sample_library sample_files (text "ann") (text "pw") false
      (mailboxes ann_files) let_in logged_in verify-change_user_password_example refl

-- Two of the messages are marked.
abbrev committing : MultiState sample_library sample_files
committing = record (mailboxes inbox) {
  message_index =
      record { item = entry (text "c.eml") 1 false; marked_as_deleted = true }
      ∷ unmarked (entry (text "a.eml") 2 false)
      ∷ record { item = entry (text "b.txt") 2 true; marked_as_deleted = true }
      ∷ [];
}

commit_deletions-HasCommitted_example :
    let adapter =
      directory_adapter sample_library sample_files (multi_directory sample_library sample_files) in
    let (r, s') = adapter.commit_deletions committing in
    HasCommitted sample_files committing.message_index (r, s'.files)
    × (IsMarked sample_files (text "a.eml") committing.message_index
        ⊎ IsSame sample_files (text "a.eml") committing.files s'.files)
    × (s'.message_index ≡ committing.message_index)
commit_deletions-HasCommitted_example =
    commit_deletions-HasCommitted sample_library sample_files
      (multi_directory sample_library sample_files) sample-RemoveLaws committing (text "a.eml")
