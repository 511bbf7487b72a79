-- ===== src/Tests/Delivery.antt =====
-- An email that the tool has written, in a sample file system.
use pop3sf.Text.Decimal.{to_decimal}
use pop3sf.Tools.{generate_filename}
use pop3sf.Adapters.Directory.Users.{is_username_character}
use pop3sf.Adapters.Directory.Users.{all_username_characters}
use pop3sf.Text.{drop_final_newline}
use pop3sf.Adapters.Directory.Users.{matches_username}
use pop3sf.Tools.Directory.{does_user_exist}
use pop3sf.Tools.Directory.{write_message_to_file}
use pop3sf.Prelude.{◌≡◌, refl, false, some, [], ◌∷◌}
use pop3sf.Text.{Text, text}
use pop3sf.Adapter.{ok}
use pop3sf.Adapters.Directory.{entries_of, directory_message_content}
use pop3sf.Adapters.Directory.Users.{MultiState}
use pop3sf.Tools.Directory.{Randomness, add_email_message}
use pop3sf.Tools.Delivery.{JoinLaws, ends_with-append, email_entry, content-add_email_message}
use pop3sf.Tests.Samples.{sample_library}
use pop3sf.Tests.SampleFiles.{sample_files, sample-WriteLaws}

sample-JoinLaws : JoinLaws sample_files
sample-JoinLaws = record {
  ends-join = λ suffix a b h. ends_with-append suffix a _ (ends_with-append suffix (text "/") b h);
}

abbrev random : Randomness
random = record { time_ns = 12; random_string = text "ab" }

abbrev path : Text
path = text "mail/ann/12_ab.eml"

-- The adapter for many users, with the email in its directory and in its index.
abbrev delivered : MultiState sample_library sample_files
delivered = record {
  files = (path, text "Hi\n") ∷ [];
  directory_path = text "mail";
  message_index = record { item = email_entry path 3; marked_as_deleted = false } ∷ [];
  own = some (text "mail/ann");
}

content-add_email_message_example :
    (entries_of sample_library sample_files path 3 ≡ email_entry path 3 ∷ [])
    × (directory_message_content sample_library sample_files 0 delivered
        ≡ (ok (text "Hi\n"), delivered))
unfolding text add_email_message write_message_to_file does_user_exist matches_username
    drop_final_newline all_username_characters is_username_character generate_filename to_decimal
content-add_email_message_example =
    content-add_email_message sample_library sample_files (text "mail") sample-JoinLaws
      sample-WriteLaws random (text "ann") (text "Hi\n") [] 3 0 false delivered
      (refl, (refl, (refl, tt))) refl refl
