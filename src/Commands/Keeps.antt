-- ===== src/Commands/Keeps.antt =====
-- What the commands of the transaction state leave as it was.
use pop3sf.Prelude.{◌≡◌, true, ℕ, ◌+◌, ℤ, pos, negsuc, Option, none, some, List, [], ◌∷◌}
use pop3sf.Text.{Text, text, text_eq}
use pop3sf.Text.Decimal.{int}
use pop3sf.Session.{World, modify, call}
use pop3sf.Session.Keeps.{Preserves, Preserves-bind, Preserves-raise, preserving}
use pop3sf.Helper.{
  read_only_mode_allowed, Env, mark_message_as_deleted, unmark_messages_marked_as_deleted,
  commit_deletions,
}
use pop3sf.Helper.Keeps.{read_only_mode_allowed-Keeps, ReadsKeep, reading_rules}
use pop3sf.Commands.Arguments.{
  Handler, check_argument_count, check_not_deleted, check_index, check_number,
  parse_message_number_argument_to_index, check_lines, parse_number_of_lines_argument,
}
use pop3sf.Commands.Authorization.{
  count_invalid_command, invalid_command, command_capa, select_language, command_lang,
}
use pop3sf.Commands.Transaction.{
  command_noop, command_quit_in_transaction_state, command_stat, command_list, command_uidl,
  command_retr, command_top, command_dele, command_rset, list_sizes, list_unique_ids,
}
use pop3sf.Commands.{transaction_state_commands, handle_transaction_state_command}
use pop3sf.Commands.Answers.{get_or-All_found}

-- The effects that commands of both states can have keep `P`.
pub record CommonEffectsKeep {S : Type 0} (env : Env S) (P : World S → Type 0) : Type 0 where
  pub mode : Preserves P (call env.adapter.read_only_mode_allowed)
  pub counting :
      Preserves P (modify (λ s. record s { invalid_command_count = s.invalid_command_count + 1 }))
  pub language : Preserves P (modify (λ s. record s { custom_language = some (text "en") }))

-- All effects that a command of the transaction state can have keep `P`, but for committing.
pub record EffectsKeep {S : Type 0} (env : Env S) (P : World S → Type 0) : Type 0 where
  pub common : CommonEffectsKeep env P
  pub reads : ReadsKeep env P
  pub mark : (i : ℕ) → Preserves P (mark_message_as_deleted env i)
  pub unmark : Preserves P (unmark_messages_marked_as_deleted env)

module _ {S : Type 0} {env : Env S} {P : World S → Type 0} (effects : CommonEffectsKeep env P) where
  pub check_argument_count-Keeps :
      (expected : List ℕ) (args : List Text) → Preserves P (check_argument_count expected args)
  unfolding check_argument_count
  check_argument_count-Keeps expected args = search preserving

  counting-Keeps :
      Preserves P (modify (λ s. record s { invalid_command_count = s.invalid_command_count + 1 }))
  counting-Keeps = effects.counting

  language-Keeps : Preserves P (modify (λ s. record s { custom_language = some (text "en") }))
  language-Keeps = effects.language

  pub allowed-Keeps : Preserves P (read_only_mode_allowed env)
  allowed-Keeps = read_only_mode_allowed-Keeps env effects.mode

  ruleset common_rules =
      (preserving, allowed-Keeps, check_argument_count-Keeps, counting-Keeps, language-Keeps)

  count_invalid_command-Keeps : Preserves P (count_invalid_command env)
  unfolding count_invalid_command
  count_invalid_command-Keeps = search common_rules

  pub invalid_command-Keeps : (args : List Text) → Preserves P (invalid_command env args)
  unfolding invalid_command
  invalid_command-Keeps args = search (common_rules, count_invalid_command-Keeps)

  pub command_capa-Keeps : (args : List Text) → Preserves P (command_capa env args)
  unfolding command_capa
  command_capa-Keeps args = search common_rules

  select_language-Keeps : (args : List Text) → Preserves P (select_language env args)
  unfolding select_language
  select_language-Keeps [] = search common_rules
  select_language-Keeps (tag ∷ args) = search common_rules

  pub command_lang-Keeps : (args : List Text) → Preserves P (command_lang env args)
  unfolding command_lang
  command_lang-Keeps args = search (common_rules, select_language-Keeps)

module _ {S : Type 0} {env : Env S} {P : World S → Type 0} (effects : EffectsKeep env P) where
  open effects use {common, reads, mark, unmark}

  check_count-Keeps :
      (expected : List ℕ) (args : List Text)
      → Preserves P (check_argument_count {S = S} expected args)
  check_count-Keeps = check_argument_count-Keeps common

  check_not_deleted-Keeps : (i : ℕ) → Preserves P (check_not_deleted env i)
  unfolding check_not_deleted
  check_not_deleted-Keeps i = search (preserving, reads.marked)

  check_index-Keeps : (n : ℤ) → Preserves P (check_index env n)
  unfolding check_index
  check_index-Keeps (negsuc n) = search preserving
  check_index-Keeps (pos i) = search (reading_rules, check_not_deleted-Keeps)

  check_number-Keeps : (n : Option ℤ) → Preserves P (check_number env n)
  unfolding check_number
  check_number-Keeps none = search preserving
  check_number-Keeps (some n) = search check_index-Keeps

  parse_number-Keeps : (t : Text) → Preserves P (parse_message_number_argument_to_index env t)
  unfolding parse_message_number_argument_to_index
  parse_number-Keeps t = check_number-Keeps (int env.unicode t)

  check_lines-Keeps : (n : Option ℤ) → Preserves P (check_lines env n)
  unfolding check_lines
  check_lines-Keeps none = search preserving
  check_lines-Keeps (some (negsuc n)) = search preserving
  check_lines-Keeps (some (pos n)) = search preserving

  parse_lines-Keeps : (t : Text) → Preserves P (parse_number_of_lines_argument env t)
  unfolding parse_number_of_lines_argument
  parse_lines-Keeps t = check_lines-Keeps (int env.unicode t)

  unmark-Keeps : Preserves P (unmark_messages_marked_as_deleted env)
  unmark-Keeps = unmark

  abbrev HandlerKeeps : Handler S → Type 0
  HandlerKeeps handler = (args : List Text) → Preserves P (handler args)

  ruleset command_rules =
      (reading_rules, check_count-Keeps, parse_number-Keeps, parse_lines-Keeps, unmark-Keeps)

  list_sizes-Keeps : HandlerKeeps (list_sizes env)
  unfolding list_sizes
  list_sizes-Keeps [] = search command_rules
  list_sizes-Keeps (n ∷ args) = search command_rules

  list_unique_ids-Keeps : HandlerKeeps (list_unique_ids env)
  unfolding list_unique_ids
  list_unique_ids-Keeps [] = search command_rules
  list_unique_ids-Keeps (n ∷ args) = search command_rules

  command_noop-Keeps : HandlerKeeps (command_noop env)
  unfolding command_noop
  command_noop-Keeps args = search command_rules

  command_quit_in_transaction_state-Keeps :
      Preserves P (commit_deletions env) → HandlerKeeps (command_quit_in_transaction_state env)
  unfolding command_quit_in_transaction_state
  command_quit_in_transaction_state-Keeps commit args =
      Preserves-bind _ _ (check_count-Keeps _ args)
        λ a. Preserves-bind _ _ commit λ b. Preserves-raise _

  command_stat-Keeps : HandlerKeeps (command_stat env)
  unfolding command_stat
  command_stat-Keeps args = search command_rules

  command_list-Keeps : HandlerKeeps (command_list env)
  unfolding command_list
  command_list-Keeps args = search (command_rules, list_sizes-Keeps)

  command_uidl-Keeps : HandlerKeeps (command_uidl env)
  unfolding command_uidl
  command_uidl-Keeps args = search (command_rules, list_unique_ids-Keeps)

  command_retr-Keeps : HandlerKeeps (command_retr env)
  unfolding command_retr
  command_retr-Keeps args = search command_rules

  command_top-Keeps : HandlerKeeps (command_top env)
  unfolding command_top
  command_top-Keeps args = search command_rules depth 9

  command_dele-Keeps : HandlerKeeps (command_dele env)
  unfolding command_dele
  command_dele-Keeps args = search (command_rules, mark)

  command_rset-Keeps : HandlerKeeps (command_rset env)
  unfolding command_rset
  command_rset-Keeps args = search command_rules

  -- A command of the transaction state keeps what its effects keep; committing is one of QUIT alone.
  pub transaction-Keeps :
      (command : Text) (args : List Text)
      → (text_eq (text "QUIT") command ≡ true → Preserves P (commit_deletions env))
      → Preserves P (handle_transaction_state_command env command args)
  unfolding handle_transaction_state_command
  transaction-Keeps command args commit =
      get_or-All_found HandlerKeeps (transaction_state_commands env) command (invalid_command env)
        (
          λ e. command_capa-Keeps common,
          (
            λ e. command_lang-Keeps common,
            (
              λ e. command_noop-Keeps,
              (
                λ e. command_quit_in_transaction_state-Keeps (commit e),
                (
                  λ e. command_stat-Keeps,
                  (
                    λ e. command_list-Keeps,
                    (
                      λ e. command_uidl-Keeps,
                      (
                        λ e. command_retr-Keeps,
                        (
                          λ e. command_top-Keeps,
                          (λ e. command_dele-Keeps, (λ e. command_rset-Keeps, tt)),
                        ),
                      ),
                    ),
                  ),
                ),
              ),
            ),
          ),
        )
        (invalid_command-Keeps common) args
