-- ===== src/Response.antt =====
-- What the server answers: src/pop3sf/SendDataToClientException.py and
-- src/pop3sf/POP3ResponseCodes.py.
pub mod Reader
pub mod Received
pub mod Framing
use pop3sf.Prelude.{
  ℕ, Bool, true, false, not, ◌||◌, Option, none, some, List, [], ◌∷◌, ◌++◌, map, ◌==◌,
  if◌then◌else◌,
}
use pop3sf.Text.{
  Text, text, crlf, dot, space, ends_with, join, split_lines_without_discarding_empty_lines,
}
use pop3sf.Text.Encoding.{Bytes, Encoding, encode}

pub data Code : Type 0 where
  in_use sys_temp sys_perm auth utf8_code x_pop3sf_read_only : Code

unfoldable pub code_value : Code → Text
unfolding text
code_value in_use = text "IN-USE"
code_value sys_temp = text "SYS/TEMP"
code_value sys_perm = text "SYS/PERM"
code_value auth = text "AUTH"
code_value utf8_code = text "UTF8"
code_value x_pop3sf_read_only = text "X-POP3SF-READ-ONLY"

-- The data that a `SendDataToClientException` carries.
pub record Response : Type 0 where
  pub success : Bool
  pub pop3_response_code : Option Code
  pub message : Text
  pub is_message_human_readable : Bool
  pub message_multiline : Option Text
  pub force_add_crlf : Bool
  pub should_close : Bool

unfoldable pub ok_response : Text → Response
ok_response human_readable_message = record {
  success = true;
  pop3_response_code = none;
  message = human_readable_message;
  is_message_human_readable = true;
  message_multiline = none;
  force_add_crlf = false;
  should_close = false;
}

unfoldable pub ok_human_unreadable : Text → Response
unfolding ok_response
ok_human_unreadable m = record (ok_response m) { is_message_human_readable = false }

unfoldable pub ok_multiline : Text → Text → Bool → Response
unfolding ok_response
ok_multiline m message_multiline force = record (ok_response m) {
  message_multiline = some message_multiline;
  force_add_crlf = force;
}

unfoldable pub err_response : Text → Option Code → Response
err_response human_readable_message code = record {
  success = false;
  pop3_response_code = code;
  message = human_readable_message;
  is_message_human_readable = true;
  message_multiline = none;
  force_add_crlf = false;
  should_close = false;
}

unfoldable pub err_internal : Response
unfolding err_response
err_internal = err_response (text "Internal server error") (some sys_temp)

unfoldable pub err_read_only_mailbox_access : Response
unfolding err_response
err_read_only_mailbox_access =
    err_response (text "The mailbox access mode is set to read-only") (some x_pop3sf_read_only)

unfoldable pub close_connection_after_sending_data : Response → Response
close_connection_after_sending_data r = record r { should_close = true }

abbrev status_indicator : Bool → Text
status_indicator true = text "+OK "
status_indicator false = text "-ERR "

abbrev code_part : Option Code → Text
code_part none = []
code_part (some c) = text "[" ++ code_value c ++ text "] "

abbrev language_part : Option Text → Bool → Text
language_part none readable = []
language_part (some language) readable = if readable then language ++ space ∷ [] else []

unfoldable pub first_line : Response → Option Text → Text
unfolding code_value
first_line r language =
    status_indicator r.success
    ++ code_part r.pop3_response_code
    ++ language_part language r.is_message_human_readable
    ++ r.message

unfoldable pub compose_the_first_line_of_the_message : Response → Option Text → Text
unfolding first_line
compose_the_first_line_of_the_message r language = first_line r language ++ crlf

-- byte-stuffing of one line
unfoldable pub stuff : Text → Text
stuff [] = []
stuff (c ∷ cs) = if c == dot then dot ∷ c ∷ cs else c ∷ cs

unfoldable pub compose_next_lines_of_a_multiline_message : Text → Text
unfolding stuff
compose_next_lines_of_a_multiline_message message_multiline =
    join crlf (map stuff (split_lines_without_discarding_empty_lines message_multiline))

-- The end of a multi-line message: a line break if it is missing or wanted, and the final dot.
unfoldable pub terminate : Bool → Text → Text
terminate force s = (if force || not (ends_with crlf s) then s ++ crlf else s) ++ dot ∷ crlf

unfoldable pub compose : Response → Option Text → Text
unfolding compose_the_first_line_of_the_message compose_next_lines_of_a_multiline_message terminate
compose r language = elim r.message_multiline [
  | none ↦ compose_the_first_line_of_the_message r language
  | some body ↦ terminate r.force_add_crlf (
      compose_the_first_line_of_the_message r language
      ++ compose_next_lines_of_a_multiline_message body)
]

-- `build_message`, for a session in this language and encoding; `none` is a `UnicodeEncodeError`.
unfoldable pub build_message : Response → Option Text → Encoding → Option Bytes
unfolding compose
build_message r language encoding = encode encoding (compose r language)
