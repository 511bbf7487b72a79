-- ===== src/Commands/Exceptions.antt =====
-- What the handlers raise: an answer, or what a method of the adapter raised.
use pop3sf.Prelude.{◌≡◌, refl, ◌⊎◌, ℕ, ℤ, pos, negsuc, Option, none, some, List, [], ◌∷◌}
use pop3sf.Text.{Text}
use pop3sf.Text.Decimal.{int}
use pop3sf.Response.{Response}
use pop3sf.Adapter.{Exception, send_data, Result, ok, raised}
use pop3sf.Session.{World}
use pop3sf.Session.Answers.{
  Answers, Answers-bind, Answers-gets, Answers-if, IsRaisedIn, IsAnswerOr, answering,
}
use pop3sf.Helper.{Env}
use pop3sf.Helper.Answers.{RaisesOnly, helper_answers, marked-Answers}
use pop3sf.Commands.Arguments.{
  Handler, check_argument_count, check_not_deleted, check_index, check_number,
  parse_message_number_argument_to_index, check_lines, parse_number_of_lines_argument,
}
use pop3sf.Commands.Authorization.{
  count_invalid_command, invalid_command, command_capa, command_quit_in_authorization_state,
  command_xpro, command_utf8, command_lang, command_user, command_pass, select_language, log_in,
  log_in_as,
}
use pop3sf.Commands.Transaction.{
  command_noop, command_quit_in_transaction_state, command_stat, command_list, command_uidl,
  command_retr, command_top, command_dele, command_rset, list_sizes, list_unique_ids,
}
use pop3sf.Commands.{
  authorization_state_commands, transaction_state_commands, handle_command,
  handle_authorization_state_command, handle_transaction_state_command,
}
use pop3sf.Commands.Answers.{get_or-All, handle_command-Raises}

module _ {S : Type 0} (env : Env S) {Q : Exception → Type 0} (only : RaisesOnly Q env.adapter) where
  check_count-Answers :
      (expected : List ℕ) (args : List Text)
      → Answers Q (check_argument_count {S = S} expected args)
  unfolding check_argument_count
  check_count-Answers expected args = search answering

  check_not_deleted-Answers : (i : ℕ) → Answers Q (check_not_deleted env i)
  unfolding check_not_deleted
  check_not_deleted-Answers i = search (answering, marked-Answers)

  check_index-Answers : (n : ℤ) → Answers Q (check_index env n)
  unfolding check_index
  check_index-Answers (negsuc n) = search answering
  check_index-Answers (pos i) = search (helper_answers, check_not_deleted-Answers)

  check_number-Answers : (n : Option ℤ) → Answers Q (check_number env n)
  unfolding check_number
  check_number-Answers none = search answering
  check_number-Answers (some n) = search check_index-Answers

  parse_number-Answers : (t : Text) → Answers Q (parse_message_number_argument_to_index env t)
  unfolding parse_message_number_argument_to_index
  parse_number-Answers t = check_number-Answers (int env.unicode t)

  check_lines-Answers : (n : Option ℤ) → Answers Q (check_lines env n)
  unfolding check_lines
  check_lines-Answers none = search answering
  check_lines-Answers (some (negsuc n)) = search answering
  check_lines-Answers (some (pos n)) = search answering

  parse_lines-Answers : (t : Text) → Answers Q (parse_number_of_lines_argument env t)
  unfolding parse_number_of_lines_argument
  parse_lines-Answers t = check_lines-Answers (int env.unicode t)

  count_invalid_command-Answers : Answers Q (count_invalid_command env)
  unfolding count_invalid_command
  count_invalid_command-Answers = search answering

  abbrev Handles : Handler S → Type 0
  Handles handler = (args : List Text) → Answers Q (handler args)

  ruleset handling =
      (helper_answers, check_count-Answers, parse_number-Answers, parse_lines-Answers)

  invalid_command-Handles : Handles (invalid_command env)
  unfolding invalid_command
  invalid_command-Handles args = search (handling, count_invalid_command-Answers)

  command_capa-Handles : Handles (command_capa env)
  unfolding command_capa
  command_capa-Handles args = search handling

  command_quit_in_authorization_state-Handles : Handles (command_quit_in_authorization_state env)
  unfolding command_quit_in_authorization_state
  command_quit_in_authorization_state-Handles args = search handling

  command_xpro-Handles : Handles (command_xpro env)
  unfolding command_xpro
  command_xpro-Handles args = search handling

  command_utf8-Handles : Handles (command_utf8 env)
  unfolding command_utf8
  command_utf8-Handles args = search handling

  select_language-Handles : Handles (select_language env)
  unfolding select_language
  select_language-Handles [] = search handling
  select_language-Handles (tag ∷ args) = search handling

  command_lang-Handles : Handles (command_lang env)
  unfolding command_lang
  command_lang-Handles args = search (handling, select_language-Handles)

  command_user-Handles : Handles (command_user env)
  unfolding command_user
  command_user-Handles args = search handling

  log_in-Handles : (username password : Text) → Answers Q (log_in env username password)
  unfolding log_in
  log_in-Handles username password = search handling depth 9

  log_in_as-Handles :
      (username : Option Text) (password : Text) → Answers Q (log_in_as env username password)
  unfolding log_in_as
  log_in_as-Handles none password = search handling
  log_in_as-Handles (some username) password = log_in-Handles username password

  command_pass-Handles : Handles (command_pass env)
  unfolding command_pass
  command_pass-Handles args = search (handling, log_in_as-Handles)

  command_stat-Handles : Handles (command_stat env)
  unfolding command_stat
  command_stat-Handles args = search handling depth 9

  list_sizes-Handles : Handles (list_sizes env)
  unfolding list_sizes
  list_sizes-Handles [] = search handling
  list_sizes-Handles (n ∷ args) = search handling

  list_unique_ids-Handles : Handles (list_unique_ids env)
  unfolding list_unique_ids
  list_unique_ids-Handles [] = search handling
  list_unique_ids-Handles (n ∷ args) = search handling

  command_list-Handles : Handles (command_list env)
  unfolding command_list
  command_list-Handles args = search (handling, list_sizes-Handles)

  command_uidl-Handles : Handles (command_uidl env)
  unfolding command_uidl
  command_uidl-Handles args = search (handling, list_unique_ids-Handles)

  command_retr-Handles : Handles (command_retr env)
  unfolding command_retr
  command_retr-Handles args = search handling

  command_top-Handles : Handles (command_top env)
  unfolding command_top
  command_top-Handles args = search handling depth 9

  command_dele-Handles : Handles (command_dele env)
  unfolding command_dele
  command_dele-Handles args = search handling

  command_rset-Handles : Handles (command_rset env)
  unfolding command_rset
  command_rset-Handles args = search handling

  command_noop-Handles : Handles (command_noop env)
  unfolding command_noop
  command_noop-Handles args = search handling

  command_quit_in_transaction_state-Handles : Handles (command_quit_in_transaction_state env)
  unfolding command_quit_in_transaction_state
  command_quit_in_transaction_state-Handles args = search handling

  authorization-Handles :
      (command : Text) → Handles (handle_authorization_state_command env command)
  unfolding handle_authorization_state_command
  authorization-Handles command =
      get_or-All Handles (authorization_state_commands env) command (invalid_command env)
        (
          command_capa-Handles,
          (
            command_quit_in_authorization_state-Handles,
            (
              command_xpro-Handles,
              (
                command_utf8-Handles,
                (command_lang-Handles, (command_user-Handles, (command_pass-Handles, tt))),
              ),
            ),
          ),
        )
        invalid_command-Handles

  transaction-Handles : (command : Text) → Handles (handle_transaction_state_command env command)
  unfolding handle_transaction_state_command
  transaction-Handles command =
      get_or-All Handles (transaction_state_commands env) command (invalid_command env)
        (
          command_capa-Handles,
          (
            command_lang-Handles,
            (
              command_noop-Handles,
              (
                command_quit_in_transaction_state-Handles,
                (
                  command_stat-Handles,
                  (
                    command_list-Handles,
                    (
                      command_uidl-Handles,
                      (
                        command_retr-Handles,
                        (command_top-Handles, (command_dele-Handles, (command_rset-Handles, tt))),
                      ),
                    ),
                  ),
                ),
              ),
            ),
          ),
        )
        invalid_command-Handles

  handle_command-Handles :
      (command : Text) (args : List Text) → Answers Q (handle_command env command args)
  unfolding handle_command
  handle_command-Handles command args = Answers-bind _ _ (Answers-gets _) λ authenticated.
      Answers-if authenticated _ _ (transaction-Handles command args)
        (authorization-Handles command args)

IsRaisedIn-raised :
    {A : Type 0} (Q : Exception → Type 0) (r : Result A)
    → IsRaisedIn Q r
    → (e : Exception) × (r ≡ raised e)
    → (e : Exception) × (r ≡ raised e) × Q e
IsRaisedIn-raised Q (ok a) h k = cc
IsRaisedIn-raised Q (raised e) h k = (e, refl, h)

-- If the adapter's methods raise, in every state, only exceptions of some kind, then, whatever the
-- command, its arguments and the state, the command handler never returns: it ends with an answer
-- for the client, or it raises an exception of that kind.
pub handle_command-answers :
    {S : Type 0} (env : Env S) (Q : Exception → Type 0)
    → RaisesOnly Q env.adapter
    → (command : Text) (args : List Text) (w : World S)
    → (e : Exception) × ((handle_command env command args w).0 ≡ raised e)
      × (((r : Response) × (e ≡ send_data r)) ⊎ Q e)
handle_command-answers env Q only command args w =
    IsRaisedIn-raised (IsAnswerOr Q) (handle_command env command args w).0
      ((handle_command-Handles env only command args).at w)
      (handle_command-Raises env command args w)
