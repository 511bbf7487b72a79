-- ===== src/Commands/Arguments.antt =====
-- src/pop3sf/ClientCommandHandler.py: the checks on the arguments of a command.
use pop3sf.Prelude.{
  Option, ℕ, zero, suc, Bool, true, false, not, none, some, List, [], ◌∷◌, ◌++◌, length, leb, ◌==◌,
  if◌then◌else◌, ℤ, pos, negsuc, pred_ℤ,
}
use pop3sf.Text.{Text, space, text, text_eq}
use pop3sf.Text.Decimal.{int}
use pop3sf.Response.{err_response}
use pop3sf.Session.{Exec, pure, ◌>>=◌}
use pop3sf.Helper.{Env, respond, when, get_message_count, is_message_marked_as_deleted}

-- `len(args) in expected`
unfoldable pub mem_count : ℕ → List ℕ → Bool
mem_count n [] = false
mem_count n (k ∷ ks) = if n == k then true else mem_count n ks

-- `d.get(key, default)`
unfoldable pub get_or {ℓ} : {A : Type ℓ} → List (Text × A) → Text → A → A
get_or [] key default = default
get_or ((k, v) ∷ entries) key default = if text_eq k key then v else get_or entries key default

-- `args[i]`, which the checks of the argument count make good
abbrev pub arg : List Text → ℕ → Text
arg [] i = []
arg (a ∷ args) zero = a
arg (a ∷ args) (suc i) = arg args i

-- "{} {}".format(a, b)
unfoldable pub two_fields : Text → Text → Text
two_fields a b = a ++ (space ∷ b)

abbrev pub Handler : Type 0 → Type 0
Handler S = List Text → Exec S Unit

unfoldable pub check_argument_count : {S : Type 0} → List ℕ → List Text → Exec S Unit
unfolding mem_count
check_argument_count expected args =
    when (not (mem_count (length args) expected))
      (respond (err_response (text "Invalid argument count") none))

module _ {S : Type 0} (env : Env S) where
  open env use {unicode}

  unfoldable pub check_not_deleted : ℕ → Exec S ℕ
  check_not_deleted index = do
    deleted ← is_message_marked_as_deleted env index
    if deleted
        then respond (err_response (text "Invalid message number (message marked as deleted)") none)
        else pure index

  -- the checks on the index; the test `index < 0` is the match
  unfoldable pub check_index : ℤ → Exec S ℕ
  check_index (negsuc n) =
      respond (err_response (text "Invalid message number (out of range)") none)
  check_index (pos index) = do
    count ← get_message_count env
    if leb count index
        then respond (err_response (text "Invalid message number (out of range)") none)
        else check_not_deleted index

  -- behind the conversion, where `none` is the `ValueError`
  unfoldable pub check_number : Option ℤ → Exec S ℕ
  check_number none =
      respond (err_response (text "Invalid message number (must be an integer)") none)
  check_number (some n) = check_index (pred_ℤ n)

  unfoldable pub parse_message_number_argument_to_index : Text → Exec S ℕ
  parse_message_number_argument_to_index message_number = check_number (int unicode message_number)

  unfoldable pub check_lines : Option ℤ → Exec S ℕ
  check_lines none =
      respond (err_response (text "Invalid number of lines (must be an integer)") none)
  check_lines (some (negsuc n)) =
      respond (err_response (text "Invalid number of lines (out of range)") none)
  check_lines (some (pos n)) = pure n

  unfoldable pub parse_number_of_lines_argument : Text → Exec S ℕ
  parse_number_of_lines_argument number_of_lines = check_lines (int unicode number_of_lines)
