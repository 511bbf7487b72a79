-- ===== src/Commands/Access.antt =====
-- Which of the adapter's methods the commands call before logging in, and without QUIT.
use pop3sf.Prelude.{◌≡◌, false, List}
use pop3sf.Text.{Text, text, text_eq}
use pop3sf.Session.{World, ◌>>=◌}
use pop3sf.Session.Keeps.{if-at_false}
use pop3sf.Helper.{Env}
use pop3sf.Helper.Inside.{
  ClosedUnderEntering, ClosedUnderMarking, IsInside, call-IsInside, modify-IsInside,
  verify-IsInside, authentication-IsInside, mark-IsInside, unmark-IsInside, reads-IsInside,
}
use pop3sf.Commands.Keeps.{CommonEffectsKeep}
use pop3sf.Commands.Effects.{
  AuthorizationEffectsKeep, AllEffectsKeep, authorization-Keeps, handle_command-Keeps,
}
use pop3sf.Commands.{
  handle_command, handle_transaction_state_command, handle_authorization_state_command,
}

module _ {S : Type 0} (env : Env S) (P : S → Type 0)
    (entering : ClosedUnderEntering env.adapter P) where
  common-IsInside : CommonEffectsKeep env (IsInside P)
  common-IsInside = record {
    mode = call-IsInside _ entering.mode;
    counting = modify-IsInside _;
    language = modify-IsInside _;
  }

  authorization-IsInside : AuthorizationEffectsKeep env (IsInside P)
  authorization-IsInside = record {
    entering = record {
      common = common-IsInside;
      read_only = modify-IsInside _;
      encoding = modify-IsInside _;
      username = λ t. modify-IsInside _;
    };
    verify = verify-IsInside env entering;
    authentication = authentication-IsInside env entering;
  }

  -- Take any set of states of the adapter that the methods for logging in do not leave: those that give
  -- the mode, verify a password and are told of a login. No command of a session that has not logged in
  -- leaves it: no method on messages is called.
  pub handle_command-before_login :
      (command : Text) (args : List Text) (w : World S)
      → w.status.authenticated ≡ false
      → P w.adapter
      → P (handle_command env command args w).1.adapter
  unfolding handle_command ◌>>=◌
  handle_command-before_login command args w anonymous h =
      if-at_false (λ r. P r.1.adapter) (handle_transaction_state_command env command args)
        (handle_authorization_state_command env command args) w _ anonymous
        ((authorization-Keeps authorization-IsInside command args).kept w
          (record { inside = h })).inside

  module _ (marking : ClosedUnderMarking env.adapter P) where
    effects-IsInside : AllEffectsKeep env (IsInside P)
    effects-IsInside = record {
      authorization = authorization-IsInside;
      transaction = record {
        common = common-IsInside;
        reads = reads-IsInside env marking;
        mark = mark-IsInside env marking;
        unmark = unmark-IsInside env marking;
      };
    }

    -- Take any set of states of the adapter that its methods for logging in and its methods on messages,
    -- other than the one that commits deletions, do not leave. No command but QUIT leaves it, in whatever
    -- state the session is.
    pub handle_command-without_quit :
        (command : Text) (args : List Text)
        → text_eq (text "QUIT") command ≡ false
        → (w : World S) → P w.adapter
        → P (handle_command env command args w).1.adapter
    handle_command-without_quit command args other w h =
        ((handle_command-Keeps effects-IsInside command args (λ e. absurd cc)).kept w
          (record { inside = h })).inside
