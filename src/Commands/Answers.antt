-- ===== src/Commands/Answers.antt =====
-- Every handler answers by raising.
use pop3sf.Prelude.{
  inl, inr, Bool-cases, ◌≡◌, ◌≡◌, Bool, true, false, List, [], ◌∷◌, All, Option, none, some,
  if◌then◌else◌,
}
use pop3sf.Text.{text_eq, Text, text_eq}
use pop3sf.Adapter.{Exception, raised}
use pop3sf.Session.{World}
use pop3sf.Session.Raises.{Raises, raises_rules}
use pop3sf.Helper.{Env}
use pop3sf.Commands.Arguments.{Handler, get_or}
use pop3sf.Commands.Authorization.{
  invalid_command, command_capa, command_quit_in_authorization_state, command_xpro, command_utf8,
  command_lang, command_user, command_pass, select_language, log_in, log_in_as,
}
use pop3sf.Commands.Transaction.{
  command_noop, command_quit_in_transaction_state, command_stat, command_list, command_uidl,
  command_retr, command_top, command_dele, command_rset, list_sizes, list_unique_ids,
}
use pop3sf.Commands.{
  authorization_state_commands, transaction_state_commands, handle_command,
  handle_authorization_state_command, handle_transaction_state_command,
}

-- What holds of all values of a table and of the default holds of what is looked up.
pub get_or-All {ℓ κ} :
    {A : Type ℓ} (P : A → Type κ) (entries : List (Text × A)) (key : Text) (default : A)
    → All (λ e. P e.1) entries
    → P default
    → P (get_or entries key default)
unfolding get_or
get_or-All P [] key default h d = d
get_or-All P ((k, v) ∷ entries) key default h d =
    if_All (text_eq k key) h.0 (get_or-All P entries key default h.1 d)
  where
    if_All :
        (b : Bool)
        → P v
        → P (get_or entries key default)
        → P (if b then v else get_or entries key default)
    if_All true x y = x
    if_All false x y = y

-- The same, where a value's property may use that its key is the one looked up.
pub get_or-All_found {ℓ κ} :
    {A : Type ℓ} (P : A → Type κ) (entries : List (Text × A)) (key : Text) (default : A)
    → All (λ e. text_eq e.0 key ≡ true → P e.1) entries
    → P default
    → P (get_or entries key default)
unfolding get_or
get_or-All_found P [] key default h d = d
get_or-All_found P ((k, v) ∷ entries) key default h d = elim (Bool-cases (text_eq k key)) [
  | inl e ↦ rw e (h.0 e)
  | inr e ↦ rw e (get_or-All_found P entries key default h.1 d)
]

module _ {S : Type 0} (env : Env S) where
  abbrev Answers : Handler S → Type 0
  Answers handler = (args : List Text) → Raises (handler args)

  invalid_command-Raises : Answers (invalid_command env)
  unfolding invalid_command
  invalid_command-Raises args = search raises_rules

  command_capa-Raises : Answers (command_capa env)
  unfolding command_capa
  command_capa-Raises args = search raises_rules

  command_quit_in_authorization_state-Raises : Answers (command_quit_in_authorization_state env)
  unfolding command_quit_in_authorization_state
  command_quit_in_authorization_state-Raises args = search raises_rules

  command_xpro-Raises : Answers (command_xpro env)
  unfolding command_xpro
  command_xpro-Raises args = search raises_rules

  command_utf8-Raises : Answers (command_utf8 env)
  unfolding command_utf8
  command_utf8-Raises args = search raises_rules

  select_language-Raises : Answers (select_language env)
  unfolding select_language
  select_language-Raises [] = search raises_rules
  select_language-Raises (tag ∷ args) = search raises_rules

  command_lang-Raises : Answers (command_lang env)
  unfolding command_lang
  command_lang-Raises args = search (raises_rules, select_language-Raises)

  command_user-Raises : Answers (command_user env)
  unfolding command_user
  command_user-Raises args = search raises_rules

  log_in-Raises : (username password : Text) → Raises (log_in env username password)
  unfolding log_in
  log_in-Raises username password = search raises_rules depth 9

  log_in_as-Raises :
      (username : Option Text) (password : Text) → Raises (log_in_as env username password)
  unfolding log_in_as
  log_in_as-Raises none password = search raises_rules
  log_in_as-Raises (some username) password = log_in-Raises username password

  command_pass-Raises : Answers (command_pass env)
  unfolding command_pass
  command_pass-Raises args = search (raises_rules, log_in_as-Raises)

  command_stat-Raises : Answers (command_stat env)
  unfolding command_stat
  command_stat-Raises args = search raises_rules depth 9

  list_sizes-Raises : Answers (list_sizes env)
  unfolding list_sizes
  list_sizes-Raises [] = search raises_rules
  list_sizes-Raises (n ∷ args) = search raises_rules

  list_unique_ids-Raises : Answers (list_unique_ids env)
  unfolding list_unique_ids
  list_unique_ids-Raises [] = search raises_rules
  list_unique_ids-Raises (n ∷ args) = search raises_rules

  command_list-Raises : Answers (command_list env)
  unfolding command_list
  command_list-Raises args = search (raises_rules, list_sizes-Raises)

  command_uidl-Raises : Answers (command_uidl env)
  unfolding command_uidl
  command_uidl-Raises args = search (raises_rules, list_unique_ids-Raises)

  command_retr-Raises : Answers (command_retr env)
  unfolding command_retr
  command_retr-Raises args = search raises_rules

  command_top-Raises : Answers (command_top env)
  unfolding command_top
  command_top-Raises args = search raises_rules depth 9

  command_dele-Raises : Answers (command_dele env)
  unfolding command_dele
  command_dele-Raises args = search raises_rules

  command_rset-Raises : Answers (command_rset env)
  unfolding command_rset
  command_rset-Raises args = search raises_rules

  command_noop-Raises : Answers (command_noop env)
  unfolding command_noop
  command_noop-Raises args = search raises_rules

  command_quit_in_transaction_state-Raises : Answers (command_quit_in_transaction_state env)
  unfolding command_quit_in_transaction_state
  command_quit_in_transaction_state-Raises args = search raises_rules

  authorization-Answers :
      (command : Text) → Answers (handle_authorization_state_command env command)
  unfolding handle_authorization_state_command
  authorization-Answers command =
      get_or-All Answers (authorization_state_commands env) command (invalid_command env)
        (
          command_capa-Raises,
          (
            command_quit_in_authorization_state-Raises,
            (
              command_xpro-Raises,
              (
                command_utf8-Raises,
                (command_lang-Raises, (command_user-Raises, (command_pass-Raises, tt))),
              ),
            ),
          ),
        )
        invalid_command-Raises

  transaction-Answers : (command : Text) → Answers (handle_transaction_state_command env command)
  unfolding handle_transaction_state_command
  transaction-Answers command =
      get_or-All Answers (transaction_state_commands env) command (invalid_command env)
        (
          command_capa-Raises,
          (
            command_lang-Raises,
            (
              command_noop-Raises,
              (
                command_quit_in_transaction_state-Raises,
                (
                  command_stat-Raises,
                  (
                    command_list-Raises,
                    (
                      command_uidl-Raises,
                      (
                        command_retr-Raises,
                        (command_top-Raises, (command_dele-Raises, (command_rset-Raises, tt))),
                      ),
                    ),
                  ),
                ),
              ),
            ),
          ),
        )
        invalid_command-Raises

  -- Whatever the command, its arguments and the state, the command handler never returns: it raises.
  pub handle_command-Raises :
      (command : Text) (args : List Text) (w : World S)
      → (e : Exception) × ((handle_command env command args w).0 ≡ raised e)
  unfolding handle_command
  handle_command-Raises command args =
      let always : Raises (handle_command env command args) =
        search (raises_rules, authorization-Answers, transaction-Answers) in
      always.at
