-- ===== src/Commands/Login.antt =====
-- Who a session is logged in as.
use pop3sf.Prelude.{◌≡◌, refl, ◌∙◌, Bool, Option, none, some, List}
use pop3sf.Text.{Text}
use pop3sf.Session.{ClientStatus, World, modify, ◌>>=◌}
use pop3sf.Session.Keeps.{
  Preserves, Preserves-modify, preserving, if-at_true, if-at_false, Leads, Leads-keeps, Leads-later,
  Leads-first,
}
use pop3sf.Helper.{Env}
use pop3sf.Helper.Keeps.{IsAdapterFree, reads-free, mark-free, unmark-free, commit-free, call-free}
use pop3sf.Helper.Login.{
  IsLoggedInAs, IsAnonymous, IsConsistent, anonymous, logged_in, IsAnonymous-free,
  authentication-IsConsistent, verify-IsAnonymous,
}
use pop3sf.Commands.Effects.{EnteringEffectsKeep, quit-Keeps, xpro-Keeps, utf8-Keeps, user-Keeps}
use pop3sf.Commands.Keeps.{
  EffectsKeep, transaction-Keeps, invalid_command-Keeps, command_capa-Keeps, command_lang-Keeps,
}
use pop3sf.Commands.Answers.{get_or-All}
use pop3sf.Commands.Arguments.{Handler}
use pop3sf.Commands.Authorization.{invalid_command, command_pass, log_in, log_in_as}
use pop3sf.Commands.{
  handle_command, handle_transaction_state_command, handle_authorization_state_command,
  authorization_state_commands,
}

module _ {S : Type 0} (env : Env S) (user : Text) (mode : Bool) where
  free : IsAdapterFree (IsLoggedInAs {S = S} user mode)
  free = record {
    change = λ w s h. record {
      authenticated = h.authenticated;
      username = h.username;
      mode_is = h.mode_is;
      in_ensurer = h.in_ensurer;
    };
  }

  effects-IsLoggedInAs : EffectsKeep env (IsLoggedInAs user mode)
  effects-IsLoggedInAs = record {
    common = record {
      mode = call-free env free _;
      counting = Preserves-modify _ λ w h. same w _ refl refl refl refl h;
      language = Preserves-modify _ λ w h. same w _ refl refl refl refl h;
    };
    reads = reads-free env free;
    mark = mark-free env free;
    unmark = unmark-free env free;
  }
    where
      same :
          (w : World S) (s : ClientStatus)
          → s.authenticated ≡ w.status.authenticated
          → s.username ≡ w.status.username
          → s.read_only_mailbox_access ≡ w.status.read_only_mailbox_access
          → s.connection_info ≡ w.status.connection_info
          → IsLoggedInAs user mode w
          → IsLoggedInAs user mode (record w { status = s })
      same w s a u m c h = record {
        authenticated = rw a h.authenticated;
        username = rw u h.username;
        mode_is = rw m h.mode_is;
        in_ensurer = rw c h.in_ensurer;
      }

  -- Whatever command a logged-in session sends, it stays logged in under the same name, in the same
  -- mode, and registered with the ensurer.
  pub handle_command-IsLoggedInAs :
      (command : Text) (args : List Text) (w : World S)
      → IsLoggedInAs user mode w
      → IsLoggedInAs user mode (handle_command env command args w).1
  unfolding handle_command ◌>>=◌
  handle_command-IsLoggedInAs command args w h =
      if-at_true (λ r. IsLoggedInAs user mode r.1)
        (handle_transaction_state_command env command args)
        (handle_authorization_state_command env command args) w _ h.authenticated
        ((transaction-Keeps effects-IsLoggedInAs command args (λ e. commit-free env free)).kept w h)

module _ {S : Type 0} (env : Env S) where
  modify-IsAnonymous :
      (f : ClientStatus → ClientStatus)
      → ((s : ClientStatus) → (f s).authenticated ≡ s.authenticated)
      → ((s : ClientStatus) → (f s).username ≡ s.username)
      → Preserves (IsAnonymous {S = S}) (modify f)
  modify-IsAnonymous f a u = Preserves-modify f λ w h. record {
    authenticated = a w.status ∙ h.authenticated;
    username = u w.status ∙ h.username;
  }

  effects-IsAnonymous : EnteringEffectsKeep env IsAnonymous
  effects-IsAnonymous = record {
    common = record {
      mode = call-free env IsAnonymous-free _;
      counting = modify-IsAnonymous _ (λ s. refl) (λ s. refl);
      language = modify-IsAnonymous _ (λ s. refl) (λ s. refl);
    };
    read_only = modify-IsAnonymous _ (λ s. refl) (λ s. refl);
    encoding = modify-IsAnonymous _ (λ s. refl) (λ s. refl);
    username = λ t. modify-IsAnonymous _ (λ s. refl) (λ s. refl);
  }

  -- In an anonymous session the handler leaves it consistent.
  abbrev Leaves : Handler S → Type 0
  Leaves handler = (args : List Text) → Leads IsAnonymous IsConsistent (handler args)

  leaves :
      (handler : Handler S)
      → ((args : List Text) → Preserves IsAnonymous (handler args))
      → Leaves handler
  leaves handler k args = Leads-keeps (λ w. anonymous) (handler args) (k args)

  log_in-Leads :
      (username password : Text) → Leads IsAnonymous IsConsistent (log_in env username password)
  unfolding log_in
  log_in-Leads username password = Leads-later still _ _ (search preserving) λ _.
      Leads-later still _ _ (verify-IsAnonymous env username password) λ success.
        Leads-later still _ _ (search preserving)
          λ _. Leads-first _ _ (authentication-IsConsistent env username) λ _. search preserving
    where
      still : (w : World S) → IsAnonymous w → IsConsistent w
      still w = anonymous

  log_in_as-Leads :
      (username : Option Text) (password : Text)
      → Leads IsAnonymous IsConsistent (log_in_as env username password)
  unfolding log_in_as
  log_in_as-Leads none password = Leads-keeps (λ w. anonymous) _ (search preserving)
  log_in_as-Leads (some username) password = log_in-Leads username password

  pass-Leads : Leaves (command_pass env)
  unfolding command_pass
  pass-Leads args =
      Leads-later (λ w. anonymous) _ _ (search preserving) λ username. log_in_as-Leads username _

  authorization-Leads : (command : Text) → Leaves (handle_authorization_state_command env command)
  unfolding handle_authorization_state_command
  authorization-Leads command =
      get_or-All Leaves (authorization_state_commands env) command (invalid_command env)
        (
          leaves _ (command_capa-Keeps effects-IsAnonymous.common),
          (
            leaves _ (quit-Keeps effects-IsAnonymous),
            (
              leaves _ (xpro-Keeps effects-IsAnonymous),
              (
                leaves _ (utf8-Keeps effects-IsAnonymous),
                (
                  leaves _ (command_lang-Keeps effects-IsAnonymous.common),
                  (leaves _ (user-Keeps effects-IsAnonymous), (pass-Leads, tt)),
                ),
              ),
            ),
          ),
        )
        (leaves _ (invalid_command-Keeps effects-IsAnonymous.common))

  -- A session that is anonymous, or logged in and registered with the ensurer under its name and
  -- mode, is so after any command, also one that fails or whose adapter raises.
  pub handle_command-IsConsistent :
      (command : Text) (args : List Text) (w : World S)
      → IsConsistent w
      → IsConsistent (handle_command env command args w).1
  unfolding handle_command ◌>>=◌
  handle_command-IsConsistent command args w (anonymous h) =
      if-at_false (λ r. IsConsistent r.1) (handle_transaction_state_command env command args)
        (handle_authorization_state_command env command args) w _ h.authenticated
        ((authorization-Leads command args).at w h)
  handle_command-IsConsistent command args w (logged_in user mode h) =
      logged_in user mode (handle_command-IsLoggedInAs env user mode command args w h)
