-- ===== src/Tests/Answers.antt =====
-- Theorems about texts and answers at concrete inputs.
use pop3sf.Prelude.{◌≡◌, refl, true, false, none, some, [], ◌∷◌, arith}
use pop3sf.Text.{
  Text, ends_with, text, join, split_lines_without_discarding_empty_lines, split_from,
}
use pop3sf.Response.{Response, first_line, build_message}
use pop3sf.Response.Reader.{read_multiline}
use pop3sf.Response.Received.{build_message-read}
use pop3sf.Text.Encoding.{Bytes, ascii, encode, decode_utf8}

abbrev retrieved : Response
retrieved = record {
  success = true;
  pop3_response_code = none;
  message = text "Sending";
  is_message_human_readable = true;
  message_multiline = some (text ".Hello\n\n.\nBye");
  force_add_crlf = false;
  should_close = false;
}

-- the bytes of the answer, all of them ASCII
abbrev retrieved_bytes : Bytes
retrieved_bytes = text "+OK Sending\r\n..Hello\r\n\r\n..\r\nBye\r\n.\r\n"

build_message-read_example :
    (s : Text) × (decode_utf8 retrieved_bytes ≡ some s)
    × (read_multiline 5 s
        ≡ some (text "+OK Sending", text ".Hello" ∷ [] ∷ text "." ∷ text "Bye" ∷ [], []))
unfolding build_message encode first_line text split_from split_lines_without_discarding_empty_lines
    ends_with join
build_message-read_example =
    build_message-read retrieved none ascii (text ".Hello\n\n.\nBye") retrieved_bytes refl
      (omega arith) refl
