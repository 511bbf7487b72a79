-- ===== src/Settings.antt =====
-- The options of src/pop3sf/Settings.py that the modelled code reads.
use pop3sf.Prelude.{ℕ, Bool, false, ℤ, pos, negsuc}

pub record Settings : Type 0 where
  pub client_timeout : ℕ
  pub max_concurrent_clients : ℤ
  pub max_invalid_commands_per_session : ℤ
  pub max_invalid_passwords_per_session : ℤ
  pub failed_login_delay : ℕ
  pub debug : Bool

-- The values in the file.
abbrev pub defaults : Settings
defaults = record {
  client_timeout = 600;
  max_concurrent_clients = pos 25;
  max_invalid_commands_per_session = negsuc 0;
  max_invalid_passwords_per_session = pos 3;
  failed_login_delay = 500;
  debug = false;
}
