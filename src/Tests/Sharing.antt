-- ===== src/Tests/Sharing.antt =====
-- A theorem about clients that share the ensurer, at the sample server.
use pop3sf.Session.{◌>>=◌}
use pop3sf.Commands.{handle_authorization_state_command}
use pop3sf.Commands.Arguments.{get_or, check_argument_count, mem_count}
use pop3sf.Text.{text_eq, join}
use pop3sf.Commands.Authorization.{command_xpro, command_user, command_pass, log_in_as, log_in}
use pop3sf.Helper.{
  read_only_mode_allowed, verify_login_credentials, authentication_successful, login_successful,
}
use pop3sf.Adapter.{default_read_only_mode_allowed, default_login_successful}
use pop3sf.Ensurer.{add_client, any_conflict, conflicts}
use pop3sf.Prelude.{◌≡◌, refl, ℕ, true, none, List, [], ◌∷◌, arith, ◌==◌}
use pop3sf.Text.{Text, text}
use pop3sf.Adapters.ListAdapter.{ListState}
use pop3sf.Session.{World, ConnectionInfo, new_client_status}
use pop3sf.Ensurer.{no_clients}
use pop3sf.Commands.{handle_command}
use pop3sf.Client.Sharing.{
  SharedServer, ReachShared, start, later, connected, commanded, connect, run, sees,
}
use pop3sf.Client.Sharing.Reading.{ReachShared-reading}
use pop3sf.Tests.Samples.{sample_env, sample_world}

abbrev info : ℕ → ConnectionInfo
info i = record { connection_id = i; address = text "127.0.0.1"; port = 40000 }

abbrev fresh : ℕ → World ListState
fresh i = record (sample_world true) { status = new_client_status (info i) }

-- A client that asks for the read-only mode and logs in, beside what is there.
abbrev after : World ListState → Text → List Text → SharedServer ListState → World ListState
after w command args s = (handle_command sample_env command args (sees w s.clients)).1

abbrev before_login : SharedServer ListState
before_login = record { clients = no_clients; threads = λ i. none }

module _ (i : ℕ) (s : SharedServer ListState) where
  abbrev joined : SharedServer ListState
  joined = connect sample_env i (fresh i) s

  abbrev first : World ListState
  first = after (fresh i) (text "XPRO") [] joined

  abbrev reading : SharedServer ListState
  reading = run sample_env i (fresh i) (text "XPRO") [] joined

  abbrev second : World ListState
  second = after first (text "USER") (text "user" ∷ []) reading

  abbrev named : SharedServer ListState
  named = run sample_env i first (text "USER") (text "user" ∷ []) reading

  abbrev third : World ListState
  third = after second (text "PASS") (text "password" ∷ []) named

  abbrev inside : SharedServer ListState
  inside = run sample_env i second (text "PASS") (text "password" ∷ []) named

  inside-reached :
      s.threads i ≡ none
      → (i == i) ≡ true
      → ReachShared sample_env s
      → ReachShared sample_env inside
  inside-reached free same reached =
      later
        (later
          (later (later reached (connected i (fresh i) (info i) free refl refl refl))
            (commanded i (fresh i) (text "XPRO") [] (rw same refl) refl))
          (commanded i first (text "USER") (text "user" ∷ []) (rw same refl) refl))
        (commanded i second (text "PASS") (text "password" ∷ []) (rw same refl) refl)

abbrev both_inside : SharedServer ListState
both_inside = inside 2 (inside 1 before_login)

both_inside-reached : ReachShared sample_env both_inside
both_inside-reached =
    inside-reached 2 (inside 1 before_login) refl refl
      (inside-reached 1 before_login refl refl start)

ReachShared-reading_example :
    ((third 1 before_login).status.read_only_mailbox_access ≡ true)
    × ((third 2 (inside 1 before_login)).status.read_only_mailbox_access ≡ true)
unfolding handle_command ◌>>=◌ new_client_status handle_authorization_state_command get_or text_eq
    text command_xpro check_argument_count read_only_mode_allowed default_read_only_mode_allowed
    command_user command_pass log_in_as log_in join verify_login_credentials mem_count add_client
    any_conflict conflicts authentication_successful login_successful default_login_successful
ReachShared-reading_example =
    ReachShared-reading sample_env both_inside-reached 1 2 (third 1 before_login)
      (third 2 (inside 1 before_login)) (omega arith) refl refl refl refl refl
