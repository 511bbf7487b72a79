-- ===== src/Commands/Effects.antt =====
-- What all commands keep, in both states.
use pop3sf.Prelude.{◌≡◌, ℕ, refl, true, Option, none, some, List}
use pop3sf.Text.{Text, text, text_eq}
use pop3sf.Text.Encoding.{utf8}
use pop3sf.Session.{World, modify}
use pop3sf.Session.Keeps.{Preserves, Preserves-bind, Preserves-gets, Preserves-if, preserving}
use pop3sf.Helper.{
  commit_deletions, Env, read_only_mode_allowed, verify_login_credentials,
  authentication_successful,
}
use pop3sf.Helper.Keeps.{reads-free, mark-free, unmark-free, commit-free, call-free}
use pop3sf.Helper.Unaffected.{IsUnaffected, modify-unaffected, verify-unaffected}
use pop3sf.Commands.Keeps.{
  allowed-Keeps, CommonEffectsKeep, EffectsKeep, transaction-Keeps, check_argument_count-Keeps,
  invalid_command-Keeps, command_capa-Keeps, command_lang-Keeps,
}
use pop3sf.Commands.Answers.{get_or-All}
use pop3sf.Commands.Arguments.{Handler, check_argument_count}
use pop3sf.Commands.Authorization.{
  invalid_command, command_quit_in_authorization_state, command_xpro, command_utf8, command_user,
  command_pass, log_in, log_in_as,
}
use pop3sf.Commands.{
  authorization_state_commands, handle_authorization_state_command, handle_command,
}

-- The effects that commands of the authorization state have before logging in keep `P`.
pub record EnteringEffectsKeep {S : Type 0} (env : Env S) (P : World S → Type 0) : Type 0 where
  pub common : CommonEffectsKeep env P
  pub read_only : Preserves P (modify (λ s. record s { read_only_mailbox_access = true }))
  pub encoding : Preserves P (modify (λ s. record s { encoding = utf8 }))
  pub username :
      (t : Text) → Preserves P (modify (λ s. record s { authorization_state_username = some t }))

-- All effects that a command of the authorization state can have keep `P`.
pub record AuthorizationEffectsKeep {S : Type 0} (env : Env S) (P : World S → Type 0) : Type 0 where
  pub entering : EnteringEffectsKeep env P
  pub verify :
      (username password : Text) → Preserves P (verify_login_credentials env username password)
  pub authentication : (username : Text) → Preserves P (authentication_successful env username)

-- All effects that a command can have keep `P`, but for committing.
pub record AllEffectsKeep {S : Type 0} (env : Env S) (P : World S → Type 0) : Type 0 where
  pub authorization : AuthorizationEffectsKeep env P
  pub transaction : EffectsKeep env P

module _ {S : Type 0} {env : Env S} {P : World S → Type 0}
    (effects : EnteringEffectsKeep env P) where
  open effects use {common}

  check-Keeps :
      (expected : List ℕ) (args : List Text)
      → Preserves P (check_argument_count {S = S} expected args)
  check-Keeps = check_argument_count-Keeps common

  mode-Keeps : Preserves P (read_only_mode_allowed env)
  mode-Keeps = allowed-Keeps common

  read_only-Keeps : Preserves P (modify {S = S} (λ s. record s { read_only_mailbox_access = true }))
  read_only-Keeps = effects.read_only

  encoding-Keeps : Preserves P (modify {S = S} (λ s. record s { encoding = utf8 }))
  encoding-Keeps = effects.encoding

  username-Keeps :
      (t : Text)
      → Preserves P (modify {S = S} (λ s. record s { authorization_state_username = some t }))
  username-Keeps = effects.username

  ruleset login_rules =
      (preserving, check-Keeps, mode-Keeps, read_only-Keeps, encoding-Keeps, username-Keeps)

  abbrev HandlerKeeps : Handler S → Type 0
  HandlerKeeps handler = (args : List Text) → Preserves P (handler args)

  pub quit-Keeps : HandlerKeeps (command_quit_in_authorization_state env)
  unfolding command_quit_in_authorization_state
  quit-Keeps args = search login_rules

  pub xpro-Keeps : HandlerKeeps (command_xpro env)
  unfolding command_xpro
  xpro-Keeps args = search login_rules depth 9

  pub utf8-Keeps : HandlerKeeps (command_utf8 env)
  unfolding command_utf8
  utf8-Keeps args = search login_rules

  pub user-Keeps : HandlerKeeps (command_user env)
  unfolding command_user
  user-Keeps args = search login_rules

module _ {S : Type 0} {env : Env S} {P : World S → Type 0}
    (effects : AuthorizationEffectsKeep env P) where
  open effects use {entering}

  abbrev AllKeep : Handler S → Type 0
  AllKeep handler = (args : List Text) → Preserves P (handler args)

  log_in-Keeps : (username password : Text) → Preserves P (log_in env username password)
  unfolding log_in
  log_in-Keeps username password =
      search (preserving, effects.verify, effects.authentication) depth 12

  log_in_as-Keeps :
      (username : Option Text) (password : Text) → Preserves P (log_in_as env username password)
  unfolding log_in_as
  log_in_as-Keeps none password = search preserving
  log_in_as-Keeps (some username) password = log_in-Keeps username password

  pass-Keeps : AllKeep (command_pass env)
  unfolding command_pass
  pass-Keeps args = search (preserving, log_in_as-Keeps)

  -- A command of the authorization state keeps what its effects keep.
  pub authorization-Keeps :
      (command : Text) → AllKeep (handle_authorization_state_command env command)
  unfolding handle_authorization_state_command
  authorization-Keeps command =
      get_or-All AllKeep (authorization_state_commands env) command (invalid_command env)
        (
          command_capa-Keeps entering.common,
          (
            quit-Keeps entering,
            (
              xpro-Keeps entering,
              (
                utf8-Keeps entering,
                (command_lang-Keeps entering.common, (user-Keeps entering, (pass-Keeps, tt))),
              ),
            ),
          ),
        )
        (invalid_command-Keeps entering.common)

module _ {S : Type 0} {env : Env S} {P : World S → Type 0} (effects : AllEffectsKeep env P) where
  -- A command keeps what its effects keep; committing is one of QUIT alone.
  pub handle_command-Keeps :
      (command : Text) (args : List Text)
      → (text_eq (text "QUIT") command ≡ true → Preserves P (commit_deletions env))
      → Preserves P (handle_command env command args)
  unfolding handle_command
  handle_command-Keeps command args commit = Preserves-bind _ _ (Preserves-gets _) λ authenticated.
      Preserves-if authenticated _ _ (transaction-Keeps effects.transaction command args commit)
        (authorization-Keeps effects.authorization command args)

-- What is unaffected by most methods is kept by the commands if logging in keeps it.
pub unaffected-AllEffectsKeep :
    {S : Type 0} (env : Env S) {P : World S → Type 0}
    → IsUnaffected P
    → ((username : Text) → Preserves P (authentication_successful env username))
    → AllEffectsKeep env P
unaffected-AllEffectsKeep {S} env {P} unaffected authentication =
    let common : CommonEffectsKeep env P = record {
      mode = call-free env unaffected.adapter _;
      counting = modify-unaffected unaffected _ (λ s. refl);
      language = modify-unaffected unaffected _ (λ s. refl);
    } in
    record {
      authorization = record {
        entering = record {
          common = common;
          read_only = modify-unaffected unaffected _ (λ s. refl);
          encoding = modify-unaffected unaffected _ (λ s. refl);
          username = λ t. modify-unaffected unaffected _ (λ s. refl);
        };
        verify = verify-unaffected env unaffected;
        authentication = authentication;
      };
      transaction = record {
        common = common;
        reads = reads-free env unaffected.adapter;
        mark = mark-free env unaffected.adapter;
        unmark = unmark-free env unaffected.adapter;
      };
    }

-- A command keeps what is unaffected by most methods, if logging in keeps it.
pub handle_command-unaffected :
    {S : Type 0} (env : Env S) {P : World S → Type 0}
    → IsUnaffected P
    → ((username : Text) → Preserves P (authentication_successful env username))
    → (command : Text) (args : List Text) → Preserves P (handle_command env command args)
handle_command-unaffected env unaffected authentication command args =
    handle_command-Keeps (unaffected-AllEffectsKeep env unaffected authentication) command args
      (λ e. commit-free env unaffected.adapter)
