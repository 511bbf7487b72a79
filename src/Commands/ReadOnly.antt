-- ===== src/Commands/ReadOnly.antt =====
-- A session in the read-only mailbox access mode does not change the mailbox.
use pop3sf.Prelude.{refl, List}
use pop3sf.Text.{Text}
use pop3sf.Session.{World, ◌>>=◌}
use pop3sf.Session.Keeps.{if-at_true}
use pop3sf.Helper.{Env}
use pop3sf.Helper.ReadOnly.{
  ClosedUnderReading, IsReader, mark-IsReader, unmark-IsReader, commit-IsReader, reads-IsReader,
  modify-IsReader, mode-IsReader,
}
use pop3sf.Commands.Keeps.{EffectsKeep, transaction-Keeps}
use pop3sf.Commands.{
  handle_command, handle_transaction_state_command, handle_authorization_state_command,
}

module _ {S : Type 0} (env : Env S) (P : S → Type 0) (c : ClosedUnderReading env.adapter P) where
  effects-IsReader : EffectsKeep env (IsReader P)
  effects-IsReader = record {
    common = record {
      mode = mode-IsReader env c;
      counting = modify-IsReader _ (λ s. refl) (λ s. refl);
      language = modify-IsReader _ (λ s. refl) (λ s. refl);
    };
    reads = reads-IsReader env c;
    mark = mark-IsReader env;
    unmark = unmark-IsReader env;
  }

  -- Take any set of states of the adapter that its reading methods do not leave (those that give the
  -- mode, the number of messages, a message and a unique ID). No command of a session that is logged
  -- in and read-only leaves it either: the adapter's methods that delete are not called. The session
  -- stays logged in and read-only.
  pub handle_command-IsReader :
      (command : Text) (args : List Text) (w : World S)
      → IsReader P w
      → IsReader P (handle_command env command args w).1
  unfolding handle_command ◌>>=◌
  handle_command-IsReader command args w h =
      if-at_true (λ r. IsReader P r.1) (handle_transaction_state_command env command args)
        (handle_authorization_state_command env command args) w _ h.logged_in
        ((transaction-Keeps effects-IsReader command args (λ e. commit-IsReader env)).kept w h)
