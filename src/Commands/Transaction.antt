-- ===== src/Commands/Transaction.antt =====
-- src/pop3sf/ClientCommandHandler.py: the commands of the transaction state.
use mathlib.Core.List.{foldl}
use pop3sf.Prelude.{◌+◌, false, [], ◌∷◌, map, ◌==◌}
use pop3sf.Text.{crlf, text, join, convert_index_to_message_number}
use pop3sf.Text.Decimal.{to_decimal}
use pop3sf.Response.{
  ok_response, ok_human_unreadable, ok_multiline, close_connection_after_sending_data,
}
use pop3sf.Session.{◌>>=◌, ◌>>◌}
use pop3sf.Helper.{
  Env, respond, get_undeleted_message_count, get_message_content,
  get_headers_and_first_n_lines_of_a_message, mark_message_as_deleted,
  unmark_messages_marked_as_deleted, commit_deletions, get_message_size,
  get_all_undeleted_messages_sizes, get_message_unique_id, get_all_undeleted_messages_unique_ids,
}
use pop3sf.Commands.Arguments.{
  Handler, arg, two_fields, check_argument_count, parse_message_number_argument_to_index,
  parse_number_of_lines_argument,
}

module _ {S : Type 0} (env : Env S) where
  unfoldable pub command_quit_in_transaction_state : Handler S
  command_quit_in_transaction_state args = do
    check_argument_count (0 ∷ []) args
    commit_deletions env
    respond (
        close_connection_after_sending_data
          (ok_response (text "Session is ending (an user was logged in)")))

  unfoldable pub command_noop : Handler S
  command_noop args = do
    check_argument_count (0 ∷ []) args
    respond (ok_response (text "Nothing happened"))

  unfoldable pub command_stat : Handler S
  command_stat args = do
    check_argument_count (0 ∷ []) args
    message_count ← get_undeleted_message_count env
    sizes ← get_all_undeleted_messages_sizes env
    respond (
        ok_human_unreadable (
          two_fields (to_decimal message_count)
            (to_decimal (foldl (λ carry item. carry + item.1) 0 sizes))))

  unfoldable pub list_sizes : Handler S
  list_sizes [] = do
    sizes ← get_all_undeleted_messages_sizes env
    respond (
        ok_multiline (text "Listing all messages' sizes")
          (join crlf (map (λ e. two_fields (to_decimal e.0) (to_decimal e.1)) sizes)) false)
  list_sizes (message_number ∷ args) = do
    index ← parse_message_number_argument_to_index env message_number
    message_size ← get_message_size env index
    respond (
        ok_human_unreadable (
          two_fields (to_decimal (convert_index_to_message_number index))
            (to_decimal message_size)))

  unfoldable pub command_list : Handler S
  command_list args = do check_argument_count (0 ∷ 1 ∷ []) args; list_sizes args

  unfoldable pub list_unique_ids : Handler S
  list_unique_ids [] = do
    unique_ids ← get_all_undeleted_messages_unique_ids env
    respond (
        ok_multiline (text "Listing all messages' unique IDs")
          (join crlf (map (λ e. two_fields (to_decimal e.0) e.1) unique_ids)) false)
  list_unique_ids (message_number ∷ args) = do
    index ← parse_message_number_argument_to_index env message_number
    unique_id ← get_message_unique_id env index
    respond (
        ok_human_unreadable
          (two_fields (to_decimal (convert_index_to_message_number index)) unique_id))

  unfoldable pub command_uidl : Handler S
  command_uidl args = do check_argument_count (0 ∷ 1 ∷ []) args; list_unique_ids args

  unfoldable pub command_retr : Handler S
  command_retr args = do
    check_argument_count (1 ∷ []) args
    index ← parse_message_number_argument_to_index env (arg args 0)
    message_content ← get_message_content env index
    respond (ok_multiline (text "Sending the message's content") message_content false)

  unfoldable pub command_top : Handler S
  command_top args = do
    check_argument_count (2 ∷ []) args
    index ← parse_message_number_argument_to_index env (arg args 0)
    n ← parse_number_of_lines_argument env (arg args 1)
    content ← get_headers_and_first_n_lines_of_a_message env index n
    respond (ok_multiline (text "Sending the message's partial content") content (n == 0))

  unfoldable pub command_dele : Handler S
  command_dele args = do
    check_argument_count (1 ∷ []) args
    index ← parse_message_number_argument_to_index env (arg args 0)
    mark_message_as_deleted env index
    respond (ok_response (text "The message was marked as deleted"))

  unfoldable pub command_rset : Handler S
  command_rset args = do
    check_argument_count (0 ∷ []) args
    unmark_messages_marked_as_deleted env
    respond (ok_response (text "Messages marked as deleted were unmarked"))
