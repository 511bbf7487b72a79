-- ===== src/Commands/Authorization.antt =====
-- src/pop3sf/ClientCommandHandler.py: invalid commands, and the commands of the authorization state
-- (CAPA and LANG serve in both states).
use pop3sf.Prelude.{
  Option, ◌+◌, true, false, not, ◌||◌, none, some, List, [], ◌∷◌, ◌++◌, if◌then◌else◌, exceeds,
  is_negative,
}
use pop3sf.Text.{Text, crlf, space, text, text_eq, join}
use pop3sf.Text.Encoding.{utf8}
use pop3sf.Response.{
  auth, x_pop3sf_read_only, ok_response, ok_multiline, err_response,
  close_connection_after_sending_data,
}
use pop3sf.Session.{Exec, gets, modify, ◌>>=◌, ◌>>◌}
use pop3sf.Helper.{
  Env, respond, when, read_only_mode_allowed, verify_login_credentials, authentication_successful,
}
use pop3sf.Commands.Arguments.{Handler, arg, check_argument_count}

abbrev capabilities : List Text
capabilities =
    text "USER"
    ∷ text "TOP"
    ∷ text "UIDL"
    ∷ text "RESP-CODES"
    ∷ text "AUTH-RESP-CODE"
    ∷ text "UTF8 USER"
    ∷ text "LANG"
    ∷ text "IMPLEMENTATION POP3SF"
    ∷ []

module _ {S : Type 0} (env : Env S) where
  open env use {settings}

  unfoldable pub count_invalid_command : Exec S Unit
  count_invalid_command = do
    modify (λ s. record s { invalid_command_count = s.invalid_command_count + 1 })
    count ← gets (λ s. s.invalid_command_count)
    when (exceeds count settings.max_invalid_commands_per_session) (
        respond (
          close_connection_after_sending_data
            (err_response (text "Too many invalid commands") none)))

  unfoldable pub invalid_command : Handler S
  invalid_command args = do
    when (not (is_negative settings.max_invalid_commands_per_session)) count_invalid_command
    respond (err_response (text "Invalid command") none)

  unfoldable pub command_capa : Handler S
  command_capa args = do
    check_argument_count (0 ∷ []) args
    allowed ← read_only_mode_allowed env
    respond (
        ok_multiline (text "Listing all capabilities")
          (join crlf
            (if allowed then capabilities ++ text "X-POP3SF-READ-ONLY" ∷ [] else capabilities))
          false)

  unfoldable pub command_quit_in_authorization_state : Handler S
  command_quit_in_authorization_state args = do
    check_argument_count (0 ∷ []) args
    respond (
        close_connection_after_sending_data
          (ok_response (text "Session is ending (nobody was logged in)")))

  unfoldable pub command_xpro : Handler S
  command_xpro args = do
    check_argument_count (0 ∷ []) args
    allowed ← read_only_mode_allowed env
    when (not allowed) (
        respond (
          err_response (text "Read-only mailbox access mode is not allowed")
            (some x_pop3sf_read_only)))
    modify (λ s. record s { read_only_mailbox_access = true })
    respond (ok_response (text "Mailbox access mode switched to read-only"))

  unfoldable pub command_utf8 : Handler S
  command_utf8 args = do
    check_argument_count (0 ∷ []) args
    modify (λ s. record s { encoding = utf8 })
    respond (ok_response (text "UTF-8 support was enabled for this connection"))

  -- the test on `len(args)` is the match
  unfoldable pub select_language : Handler S
  select_language [] =
      respond (ok_multiline (text "Listing all languages") (text "en English") false)
  select_language (tag ∷ args) = do
    when (text_eq tag (text "*") || text_eq tag (text "en")) (do
      modify (λ s. record s { custom_language = some (text "en") })
      respond (ok_response (text "The response text language was changed to English")))
    respond (err_response (text "Invalid language tag") none)

  unfoldable pub command_lang : Handler S
  command_lang args = do check_argument_count (0 ∷ 1 ∷ []) args; select_language args

  unfoldable pub command_user : Handler S
  command_user args = do
    check_argument_count (1 ∷ []) args
    modify (λ s. record s { authorization_state_username = some (arg args 0) })
    respond (ok_response (text "Username accepted"))

  -- `_command_pass` behind the test on the username
  unfoldable pub log_in : Text → Text → Exec S Unit
  log_in username password = do
    when (text_eq password []) (respond (err_response (text "Empty password") (some auth)))
    success ← verify_login_credentials env username password
    when (not success) (respond (err_response (text "Incorrect username or password") (some auth)))
    authentication_successful env username
    read_only ← gets (λ s. s.read_only_mailbox_access)
    respond (
        ok_response
          (text "User successfully logged in" ++ (if read_only then text " (read-only)" else [])))

  -- the test on the username
  unfoldable pub log_in_as : Option Text → Text → Exec S Unit
  log_in_as none password =
      respond (err_response (text "No username was sent using the USER command") (some auth))
  log_in_as (some username) password = log_in username password

  unfoldable pub command_pass : Handler S
  command_pass args = do
    username ← gets (λ s. s.authorization_state_username)
    log_in_as username (join (space ∷ []) args)
