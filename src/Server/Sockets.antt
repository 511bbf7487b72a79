-- ===== src/Server/Sockets.antt =====
-- src/pop3sf/ServerSocketInfoHolder.py, and what src/pop3sf/POP3SF.py makes of it.
use pop3sf.Prelude.{Bool, true, false, Option, none, some, if◌then◌else◌}
use pop3sf.Text.{Text}
use pop3sf.Adapter.{Result, ok, raised}
use pop3sf.Adapters.{assertion_error}

pub record ServerSocketInfo : Type 0 where
  pub listen_address : Text
  pub listen_port : Text
  pub use_tls : Bool
  pub tls_certificate_file : Option Text
  pub tls_private_key_file : Option Text

abbrev is_some : Option Text → Bool
is_some none = false
is_some (some t) = true

-- the assertions of `__init__`
unfoldable pub assertions_hold : Bool → Option Text → Option Text → Bool
assertions_hold true (some certificate) (some key) = true
assertions_hold false none none = true
assertions_hold _ _ _ = false

unfoldable pub new_info_holder :
    Text → Text → Bool → Option Text → Option Text → Result ServerSocketInfo
unfolding assertions_hold
new_info_holder address port use_tls certificate key =
    if assertions_hold use_tls certificate key
    then ok (record {
      listen_address = address;
      listen_port = port;
      use_tls = use_tls;
      tls_certificate_file = certificate;
      tls_private_key_file = key;
    })
    else raised assertion_error

unfoldable pub new_insecure_socket : Text → Text → Result ServerSocketInfo
unfolding new_info_holder
new_insecure_socket address port = new_info_holder address port false none none

unfoldable pub new_tls_socket : Text → Text → Text → Text → Result ServerSocketInfo
unfolding new_info_holder
new_tls_socket address port certificate key =
    new_info_holder address port true (some certificate) (some key)
