-- ===== src/Commands/Quiet.antt =====
-- What no command touches: the connection, the socket and what was sent.
use pop3sf.Prelude.{List}
use pop3sf.Text.{Text}
use pop3sf.Session.{World}
use pop3sf.Session.Keeps.{Preserves}
use pop3sf.Helper.{Env}
use pop3sf.Helper.Quiet.{IsQuiet, quiet-IsUnaffected, authentication-quiet}
use pop3sf.Commands.Effects.{handle_command-unaffected}
use pop3sf.Commands.{handle_command}

module _ {S : Type 0} (env : Env S) {P : World S → Type 0} (quiet : IsQuiet P) where
  -- No command changes what depends on the connection, the socket and the bytes sent alone.
  pub handle_command-quiet :
      (command : Text) (args : List Text) → Preserves P (handle_command env command args)
  handle_command-quiet =
      handle_command-unaffected env (quiet-IsUnaffected quiet) (authentication-quiet env quiet)
