-- ===== src/Commands.antt =====
-- src/pop3sf/ClientCommandHandler.py: which handler answers a command. A handler answers by raising a
-- `SendDataToClientException`, as in the source; the handlers are in the modules below.
pub mod Arguments
pub mod Authorization
pub mod Transaction
pub mod Answers
pub mod Keeps
pub mod ReadOnly
pub mod Login
pub mod Effects
pub mod Quiet
pub mod Exceptions
pub mod Access
pub mod Numbers
pub mod Listing
pub mod Deleting
pub mod Resetting
pub mod Top
pub mod UniqueIds
use pop3sf.Prelude.{
  ℕ, zero, suc, ◌+◌, Bool, true, false, not, ◌&&◌, ◌||◌, Option, none, some, List, [], ◌∷◌, ◌++◌,
  length, map, leb, ◌==◌, if◌then◌else◌, ℤ, pos, negsuc, pred_ℤ, exceeds, is_negative,
}
use pop3sf.Text.{Text, crlf, space, text, text_eq, join, convert_index_to_message_number}
use pop3sf.Text.Decimal.{int, to_decimal}
use pop3sf.Text.Encoding.{utf8}
use pop3sf.Session.{gets, ◌>>=◌}
use pop3sf.Helper.{Env}
use pop3sf.Commands.Arguments.{Handler, get_or}
use pop3sf.Commands.Authorization.{
  invalid_command, command_capa, command_quit_in_authorization_state, command_xpro, command_utf8,
  command_lang, command_user, command_pass,
}
use pop3sf.Commands.Transaction.{
  command_noop, command_quit_in_transaction_state, command_stat, command_list, command_uidl,
  command_retr, command_top, command_dele, command_rset,
}

module _ {S : Type 0} (env : Env S) where
  abbrev pub authorization_state_commands : List (Text × Handler S)
  authorization_state_commands =
      (text "CAPA", command_capa env)
      ∷ (text "QUIT", command_quit_in_authorization_state env)
      ∷ (text "XPRO", command_xpro env)
      ∷ (text "UTF8", command_utf8 env)
      ∷ (text "LANG", command_lang env)
      ∷ (text "USER", command_user env)
      ∷ (text "PASS", command_pass env)
      ∷ []

  abbrev pub transaction_state_commands : List (Text × Handler S)
  transaction_state_commands =
      (text "CAPA", command_capa env)
      ∷ (text "LANG", command_lang env)
      ∷ (text "NOOP", command_noop env)
      ∷ (text "QUIT", command_quit_in_transaction_state env)
      ∷ (text "STAT", command_stat env)
      ∷ (text "LIST", command_list env)
      ∷ (text "UIDL", command_uidl env)
      ∷ (text "RETR", command_retr env)
      ∷ (text "TOP", command_top env)
      ∷ (text "DELE", command_dele env)
      ∷ (text "RSET", command_rset env)
      ∷ []

  unfoldable pub handle_authorization_state_command : Text → Handler S
  handle_authorization_state_command command =
      get_or authorization_state_commands command (invalid_command env)

  unfoldable pub handle_transaction_state_command : Text → Handler S
  handle_transaction_state_command command =
      get_or transaction_state_commands command (invalid_command env)

  unfoldable pub handle_command : Text → Handler S
  handle_command command args = do
    authenticated ← gets (λ s. s.authenticated)
    if authenticated
        then handle_transaction_state_command command args
        else handle_authorization_state_command command args
