-- ===== src/Commands/Resetting.antt =====
-- What RSET takes back of a session with ListAdapter.
use pop3sf.Prelude.{◌≡◌, true, false, List, [], ◌∷◌}
use pop3sf.Text.{Text}
use pop3sf.Text.Decimal.{Unicode}
use pop3sf.Adapters.{Library, Marked, unmark_all}
use pop3sf.Adapters.ListAdapter.{ListState, list_adapter}
use pop3sf.Settings.{Settings}
use pop3sf.Session.{World}
use pop3sf.Helper.{Env}
use pop3sf.Commands.{handle_command}

-- The world behind these commands, each of which ended in an answer or an exception.
abbrev pub after : {S : Type 0} → Env S → List (Text × List Text) → World S → World S
after env [] w = w
after env ((command, args) ∷ commands) w = after env commands (handle_command env command args w).1

module _ (library : Library) (settings : Settings) (unicode : Unicode) where
  abbrev pub list_env : Env ListState
  list_env = record { settings = settings; adapter = list_adapter library; unicode = unicode }

  -- A session that may mark messages, with these messages but for their marks.
  abbrev HasMessages : List (Marked Text) → World ListState → Type 0
  HasMessages original w =
      (w.status.authenticated ≡ true)
      × (w.status.read_only_mailbox_access ≡ false)
      × (unmark_all w.adapter.message_objects ≡ original)
