-- ===== src/Tests/Unchanged.antt =====
-- Theorems about what commands leave as it is, and about the shared resources.
use pop3sf.Adapter.{default_login_successful}
use pop3sf.Adapter.{default_read_only_mode_allowed}
use pop3sf.Prelude.{ℕ, ◌≡◌, refl, true, false, none, List, [], ◌∷◌, map}
use pop3sf.Text.{Text, text, text_eq, strip, split}
use pop3sf.Settings.{defaults}
use pop3sf.Adapter.{ok, raised}
use pop3sf.Adapters.{Credentials, unmarked, assertion_error}
use pop3sf.Adapters.ListAdapter.{ListState}
use pop3sf.Adapters.Directory.{DirectoryState}
use pop3sf.Adapters.Directory.Users.{single_directory, multi_directory}
use pop3sf.Adapters.Directory.Unchanged.{directory_env, handle_lines-keeps_files}
use pop3sf.Client.{handle_lines}
use pop3sf.Session.{World, new_client_status}
use pop3sf.Helper.Inside.{ClosedUnderEntering}
use pop3sf.Commands.{handle_command}
use pop3sf.Commands.Access.{handle_command-before_login}
use pop3sf.Globals.{
  Access, setting, getting_logger, getting_exclusivity_ensurer, no_resources, set_resources,
  get_logger, get_exclusivity_ensurer, access_all, set_resources-once,
}
use pop3sf.Tests.Samples.{
  sample_library, sample_env, sample_mailbox, sample_unicode, sample_socket, sample_world,
  logged_in_status,
}
use pop3sf.Tests.SampleFiles.{FileList, sample_files}

abbrev inbox : FileList
inbox = (text "a.eml", text "34") ∷ (text "b.txt", text "1") ∷ []

-- A logged-in session with the two files as its messages.
abbrev reading : {U : Type 0} → U → World (DirectoryState ℕ FileList U)
reading own = record {
  status = logged_in_status false;
  adapter = record {
    files = inbox;
    directory_path = text "inbox";
    message_index = map unmarked (
        record { path = text "a.eml"; last_modified_epoch = 2; is_plaintext = false }
        ∷ record { path = text "b.txt"; last_modified_epoch = 1; is_plaintext = true }
        ∷ []);
    own = own;
  };
  clients = [];
  socket = sample_socket;
  sent = [];
  closed = false;
  slept = 0;
  timeout = none;
}

abbrev ann : Credentials
ann = record { username = text "ann"; password_bcrypt = text "pw" }

abbrev lines : List Text
lines = text "DELE 1" ∷ text "bogus" ∷ []

handle_lines-keeps_files_example :
    let single =
      directory_env sample_library sample_files defaults sample_unicode
        (single_directory sample_library sample_files) in
    let multi =
      directory_env sample_library sample_files defaults sample_unicode
        (multi_directory sample_library sample_files) in
    ((handle_lines single lines (reading ann)).1.adapter.files ≡ inbox)
    × ((handle_lines multi lines (reading none)).1.adapter.files ≡ inbox)
unfolding text_eq text strip split
handle_lines-keeps_files_example =
    let (single, multi) =
      handle_lines-keeps_files sample_library sample_files defaults sample_unicode lines
        (refl, (refl, tt)) in
    (single (reading ann), multi (reading none))

-- A client that has not logged in.
abbrev stranger : World ListState
stranger = record (sample_world false) {
  status =
      new_client_status (record { connection_id = 7; address = text "127.0.0.1"; port = 40000 });
}

sample-ClosedUnderEntering : ClosedUnderEntering sample_env.adapter (λ s. s ≡ sample_mailbox)
unfolding default_read_only_mode_allowed default_login_successful
sample-ClosedUnderEntering = record {
  mode = λ s h. h;
  verify = λ username password s h. h;
  login = λ username read_only s h. h;
}

handle_command-before_login_example :
    (handle_command sample_env (text "DELE") (text "1" ∷ []) stranger).1.adapter ≡ sample_mailbox
unfolding new_client_status
handle_command-before_login_example =
    handle_command-before_login sample_env (λ s. s ≡ sample_mailbox) sample-ClosedUnderEntering
      (text "DELE") (text "1" ∷ []) stranger refl refl

-- Loggers and ensurers as numbers.
abbrev accesses : List (Access ℕ ℕ)
accesses = getting_logger ∷ setting 3 4 ∷ getting_exclusivity_ensurer ∷ []

set_resources-once_example :
    let s = access_all accesses (set_resources 1 2 no_resources).1 in
    (get_logger s ≡ (ok 1, s))
    × (get_exclusivity_ensurer s ≡ (ok 2, s))
    × (set_resources 5 6 s ≡ (raised assertion_error, s))
set_resources-once_example = set_resources-once 1 5 2 6 accesses
