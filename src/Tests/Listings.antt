-- ===== src/Tests/Listings.antt =====
-- Theorems about STAT, LIST, TOP, DELE and RSET at the sample mailbox.
use pop3sf.Text.{split_lines_without_discarding_empty_lines}
use pop3sf.Helper.{requested_lines}
use pop3sf.Text.{strip}
use pop3sf.Prelude.{
  none, ◌++◌, ℕ, zero, suc, ◌<◌, ◌≡◌, ◌↔◌, refl, true, false, some, List, [], length, ◌∷◌, pos,
  arith,
}
use pop3sf.Text.{Text, text, join, canonicalize_newlines}
use pop3sf.Text.Decimal.{AgreesOnAscii, to_decimal, to_decimal, int}
use pop3sf.Text.Encoding.{ascii, encode}
use pop3sf.Response.{ok_human_unreadable, ok_multiline, ok_response}
use pop3sf.Adapter.{ok, raised, send_data}
use pop3sf.Adapters.ListAdapter.{ListState}
use pop3sf.Adapters.Shown.{mailbox_of, list_adapter-Shows, list_adapter-Marks}
use pop3sf.Helper.Listing.{Marks, Mailbox, Shows, seen, with_mark}
use pop3sf.Commands.Arguments.{two_fields, mem_count, parse_message_number_argument_to_index}
use pop3sf.Commands.Transaction.{command_stat, command_list, command_dele, command_top}
use pop3sf.Commands.Listing.{
  command_stat-command_list, parse_message_number_argument_to_index-accepts,
}
use pop3sf.Commands.Numbers.{parse_message_number_argument_to_index-to_decimal}
use pop3sf.Commands.Deleting.{command_dele-marks}
use pop3sf.Commands.Top.{IsTop, top_answer, command_top-read}
use pop3sf.Response.{compose, first_line}
use pop3sf.Response.Framing.{delivered}
use pop3sf.Response.Reader.{read_multiline}
use pop3sf.Adapters.{unmarked}
use pop3sf.Tests.Samples.{sample_env, sample_world, sample_mailbox, sample_library}

abbrev shown : Mailbox
shown = mailbox_of sample_mailbox

sample-Shows : Shows sample_env.adapter ascii sample_mailbox shown
sample-Shows = list_adapter-Shows sample_library ascii sample_mailbox

sample-encodes :
    (i : ℕ)
    → i < 2
    → seen shown false i ≡ false
    → encode ascii (canonicalize_newlines (shown.content i)) ≡ some (shown.content i)
unfolding encode canonicalize_newlines text
sample-encodes zero l e = refl
sample-encodes (suc zero) l e = refl
sample-encodes (suc (suc i)) l e = absurd (omega (arith, l))

command_stat-command_list_example :
    (command_stat sample_env [] (sample_world false)
      ≡ (raised (send_data (ok_human_unreadable (text "2 18"))), sample_world false))
    × (command_list sample_env [] (sample_world false) ≡ (
      raised (
          send_data (ok_multiline (text "Listing all messages' sizes") (text "1 12\r\n2 6") false)),
      sample_world false,
    ))
unfolding text two_fields join to_decimal
command_stat-command_list_example =
    command_stat-command_list sample_env shown (sample_world false) sample-Shows shown.content
      sample-encodes

parse_message_number_argument_to_index-accepts_example :
    (parse_message_number_argument_to_index sample_env (text "2") (sample_world false)
      ≡ (ok 1, sample_world false))
    ↔ (int sample_env.unicode (text "2") ≡ some (pos 2)) × (mem_count 1 (0 ∷ 1 ∷ []) ≡ true)
parse_message_number_argument_to_index-accepts_example =
    parse_message_number_argument_to_index-accepts sample_env shown (sample_world false)
      sample-Shows (text "2") 1

command_dele-marks_example :
    (s' : ListState) × (command_dele sample_env (text "2" ∷ []) (sample_world false) ≡ (
      raised (send_data (ok_response (text "The message was marked as deleted"))),
      record (sample_world false) { adapter = s' },
    ))
    × Shows sample_env.adapter ascii s' (with_mark 1 shown)
unfolding int strip text mem_count
command_dele-marks_example =
    command_dele-marks sample_env shown (sample_world false)
      (list_adapter-Marks sample_library ascii) sample-Shows refl (text "2") 1 refl refl

-- A message is marked, an impossible number refused, and another message marked.
abbrev deleting : List (Text × List Text)
deleting =
    (text "DELE", text "1" ∷ [])
    ∷ (text "DELE", text "7" ∷ [])
    ∷ (text "STAT", [])
    ∷ (text "DELE", text "2" ∷ [])
    ∷ []

list_adapter-Marks_example : Marks sample_env.adapter ascii
list_adapter-Marks_example = list_adapter-Marks sample_library ascii

-- A message whose second line behind the headers is empty.
abbrev gapped : ListState
gapped = record sample_mailbox { message_objects = unmarked (text "A: b\n\nx\n\ny\n") ∷ [] }

-- The empty line, the last of two that were asked for, does not reach the client.
command_top-read_example :
    (lines : List Text) × IsTop 2
      (split_lines_without_discarding_empty_lines (text "A: b\n\nx\n\ny\n"))
      lines
    × (command_top sample_env
          (text "1" ∷ text "2" ∷ [])
          (record (sample_world false) { adapter = gapped })
        ≡ (
          raised (send_data (top_answer 2 lines)),
          record (sample_world false) { adapter = gapped },
        ))
    × (read_multiline
          (suc (length (delivered false lines)))
          (compose (top_answer 2 lines) none ++ text "+OK")
        ≡ some (first_line (top_answer 2 []) none, delivered false lines, text "+OK"))
unfolding int strip text mem_count first_line ok_multiline read_multiline requested_lines
    split_lines_without_discarding_empty_lines
command_top-read_example =
    command_top-read sample_env (mailbox_of gapped)
      (record (sample_world false) { adapter = gapped })
      (list_adapter-Shows sample_library ascii gapped) (text "1") (text "2") 0 2 none (text "+OK")
      refl refl refl (omega arith)

sample-AgreesOnAscii : AgreesOnAscii sample_env.unicode
sample-AgreesOnAscii = record { upper_agrees = λ s h. refl; decimal_agrees = λ c h. refl }

parse_message_number_argument_to_index-to_decimal_example :
    parse_message_number_argument_to_index sample_env (to_decimal 2) (sample_world false)
    ≡ (ok 1, sample_world false)
unfolding mem_count
parse_message_number_argument_to_index-to_decimal_example =
    parse_message_number_argument_to_index-to_decimal sample_env shown (sample_world false)
      sample-Shows sample-AgreesOnAscii 1 refl
