-- ===== src/Tests/Samples.antt =====
-- A server with one mailbox of two messages, over simple stand-ins for what the program calls.
use pop3sf.Prelude.{ℕ, ◌+◌, ◌%◌, Bool, true, false, none, some, [], ◌∷◌, map, length}
use pop3sf.Text.{text, text_eq}
use pop3sf.Text.Decimal.{Unicode, upper_ascii, decimal_ascii, to_decimal}
use pop3sf.Text.Encoding.{Bytes, ascii}
use pop3sf.Settings.{defaults}
use pop3sf.Adapter.{ok}
use pop3sf.Adapters.{Library, unmarked}
use pop3sf.Adapters.ListAdapter.{ListState, list_adapter}
use pop3sf.Session.{ClientStatus, World, Socket}
use pop3sf.Helper.{Env}

-- A stand-in for a hash: visible characters that depend on the password.
abbrev pub scramble : Bytes → Bytes
scramble = map (λ b. 0x21 + b % 90)

abbrev pub sample_library : Library
sample_library = record {
  Date = ℕ;
  sha256_hexdigest = λ bytes. to_decimal (length bytes);
  checkpw = λ password hash. ok (text_eq hash (scramble password));
  hashpw = λ password salt. scramble password;
  mime_text = λ body headers. body;
  strftime = to_decimal;
}

abbrev pub sample_unicode : Unicode
sample_unicode = record { upper = map upper_ascii; decimal = decimal_ascii }

abbrev pub sample_env : Env ListState
sample_env = record {
  settings = defaults;
  adapter = list_adapter sample_library;
  unicode = sample_unicode;
}

abbrev pub sample_mailbox : ListState
sample_mailbox = record {
  username = text "user";
  password = text "password";
  message_objects = unmarked (text "Hello World!") ∷ unmarked (text "Second") ∷ [];
}

abbrev pub sample_socket : Socket
sample_socket = record {
  recv_results = [];
  poll_results = [];
  send_results = [];
  close_result = ok tt;
}

-- The status of a client of connection 7 who is logged in as `user`, in this mode.
abbrev pub logged_in_status : Bool → ClientStatus
logged_in_status mode = record {
  connection_info = record { connection_id = 7; address = text "127.0.0.1"; port = 40000 };
  authenticated = true;
  username = some (text "user");
  authorization_state_username = none;
  read_only_mailbox_access = mode;
  encoding = ascii;
  custom_language = none;
  invalid_command_count = 0;
  invalid_password_count = 0;
}

abbrev pub sample_world : Bool → World ListState
sample_world mode = record {
  status = logged_in_status mode;
  adapter = sample_mailbox;
  clients = record { connection_id = 7; username = text "user"; read_only = mode } ∷ [];
  socket = sample_socket;
  sent = [];
  closed = false;
  slept = 0;
  timeout = none;
}
