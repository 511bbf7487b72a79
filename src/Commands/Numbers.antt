-- ===== src/Commands/Numbers.antt =====
-- The numbers that the listings print, as arguments of a command.
use pop3sf.Prelude.{ℕ, ◌+◌, ◌≡◌, ap, ◌∙◌, true, some, pos, arith}
use pop3sf.Text.Decimal.{AgreesOnAscii, to_decimal}
use pop3sf.Text.Numbers.{int-to_decimal}
use pop3sf.Adapter.{ok}
use pop3sf.Session.{World}
use pop3sf.Helper.{Env}
use pop3sf.Helper.Listing.{Mailbox, Shows, visible}
use pop3sf.Commands.Arguments.{mem_count, parse_message_number_argument_to_index}
use pop3sf.Commands.Listing.{parse_message_number_argument_to_index-accepts}

-- If the adapter shows a mailbox, and the Unicode database agrees with ASCII, the number that LIST prints
-- for a message, sent back as an argument, is taken as that message, without any change.
pub parse_message_number_argument_to_index-to_decimal :
    {S : Type 0} (env : Env S) (mailbox : Mailbox) (w : World S)
    → Shows env.adapter w.status.encoding w.adapter mailbox
    → AgreesOnAscii env.unicode
    → (index : ℕ) → mem_count index (visible mailbox w.status.read_only_mailbox_access) ≡ true
    → parse_message_number_argument_to_index env (to_decimal (index + 1)) w ≡ (ok index, w)
parse_message_number_argument_to_index-to_decimal env mailbox w shows agrees index listed =
    let (there, back) =
      parse_message_number_argument_to_index-accepts env mailbox w shows (to_decimal (index + 1))
        index in
    back
      (int-to_decimal env.unicode agrees (index + 1) ∙ ap (λ n. some (pos n)) (omega arith), listed)
