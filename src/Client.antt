-- ===== src/Client.antt =====
-- src/pop3sf/ClientHandler.py: one client's thread.
pub mod Receiver
pub mod Keeps
pub mod Sharing
pub mod Unbuilt
pub mod WithoutQuit
pub mod Lifecycle
pub mod Ending
use pop3sf.Prelude.{
  ℕ, zero, suc, not, Bool, true, false, Option, none, some, List, [], ◌∷◌, map, if◌then◌else◌,
}
use pop3sf.Text.{Text, text, text_eq, strip, split, take_lines}
use pop3sf.Text.Encoding.{Bytes}
use pop3sf.Response.{Response, utf8_code, ok_response, err_response, build_message}
use pop3sf.Adapter.{
  Exception, send_data, close_connection, adapter_close_connection, os_error, runtime_error,
  unicode_encode_error, other_exception, Result, ok, raised,
}
use pop3sf.Session.{
  ClientStatus, Exec, pure, raise, lift, gets, send, set_timeout, close, update_clients, try_with,
  ◌>>=◌, ◌>>◌,
}
use pop3sf.Ensurer.{remove_client}
use pop3sf.Helper.{Env, respond, when, connection_opened, connection_closed}
use pop3sf.Commands.{handle_command}
use pop3sf.Client.Receiver.{receive_into}

unfoldable pub not_encodable : Response
not_encodable =
    err_response
      (text "The sent data contains a non-ASCII character (the UTF-8 mode is not enabled)")
      (some utf8_code)

module _ {S : Type 0} (env : Env S) where
  open env use {unicode, settings}

  -- the first word is the command; `[]` is the `IndexError` of `pop(0)`
  split_command : List Text → Exec S (Text × List Text)
  split_command [] = raise (other_exception 0)
  split_command (command ∷ args) = pure (unicode.upper command, args)

  pub parse_command : Text → Exec S (Text × List Text)
  parse_command line = do
    let stripped = strip line
    when (text_eq stripped []) (respond (err_response (text "Empty command") none))
    split_command (map strip (split stripped))

  or_raise : Option Bytes → Exec S Bytes
  or_raise none = raise unicode_encode_error
  or_raise (some bytes) = pure bytes

  -- what `build_message` gave, or on a `UnicodeEncodeError` what it gives for the other answer
  replace_unencodable : ClientStatus → Option Bytes → Exec S Bytes
  replace_unencodable s (some bytes) = pure bytes
  replace_unencodable s none = or_raise (build_message not_encodable s.custom_language s.encoding)

  build_or_replace : Response → ClientStatus → Exec S Bytes
  build_or_replace data_container s =
      replace_unencodable s (build_message data_container s.custom_language s.encoding)

  pub encode_and_send_data_to_client : Response → Exec S Unit
  encode_and_send_data_to_client data_container = do
    status ← gets (λ s. s)
    sent_bytes ← build_or_replace data_container status
    send sent_bytes
    when data_container.should_close (raise close_connection)

  pub send_greeting_to_client : Exec S Unit
  send_greeting_to_client =
      encode_and_send_data_to_client (ok_response (text "The POP3 server is ready (POP3SF)"))

  -- what follows the `try` block
  pub answer : Result (Unit {0}) → Exec S Unit
  answer (ok a) = raise runtime_error
  answer (raised (send_data r)) = encode_and_send_data_to_client r
  answer (raised e) = raise e

  -- the `try` block
  pub run_command : Text → Exec S Unit
  run_command line = do (command, args) ← parse_command line; handle_command env command args

  pub parse_line_and_call_command_handler : Text → Exec S Unit
  parse_line_and_call_command_handler line = try_with (run_command line) answer

  -- `for line in ...`, over the lines that are complete
  pub handle_lines : List Text → Exec S Unit
  handle_lines [] = pure tt
  handle_lines (line ∷ lines) = do parse_line_and_call_command_handler line; handle_lines lines

  -- The loop over the lines of `_line_receiver_generator`, with fuel: `pure tt` means that it ran out,
  -- which takes more rounds than `recv` has answers.
  pub receive_lines : ℕ → Text → Exec S Unit
  receive_lines zero buffer = pure tt
  receive_lines (suc fuel) buffer = do
    let (lines, left) = take_lines buffer
    handle_lines lines
    buffer' ← receive_into left
    receive_lines fuel buffer'

  pub handle_client : ℕ → Exec S Unit
  handle_client fuel = do send_greeting_to_client; receive_lines fuel []

  -- `__init__`
  pub construct_handler : Exec S Unit
  construct_handler = set_timeout settings.client_timeout

  -- `isinstance(e, class_)` for one of `_EXPECTED_EXCEPTIONS`
  abbrev is_expected : Exception → Bool
  is_expected close_connection = true
  is_expected adapter_close_connection = true
  is_expected os_error = true
  is_expected _ = false

  pub handle_exception_in_client_handler_initializer : Exception → Exec S Unit
  handle_exception_in_client_handler_initializer e =
      if not settings.debug then pure tt else if is_expected e then pure tt else raise e

  pub except : Result (Unit {0}) → Exec S Unit
  except (ok a) = pure a
  except (raised e) = handle_exception_in_client_handler_initializer e

  -- whether `client_status` is not `None`
  abbrev is_ok : Result (Unit {0}) → Bool
  is_ok (ok a) = true
  is_ok (raised e) = false

  -- `except OSError: pass`
  ignore_os_error : Result (Unit {0}) → Exec S Unit
  ignore_os_error (raised os_error) = pure tt
  ignore_os_error r = lift r

  -- `try: m finally: last`; what `last` raises comes first
  finally : Exec S Unit → Exec S Unit → Exec S Unit
  finally m last = try_with m λ r. do last; lift r

  -- the `finally` block: the socket, the adapter if there is a status, and the ensurer
  clean_up : Bool → Exec S Unit
  clean_up has_status = do
    try_with close ignore_os_error
    connection_id ← gets (λ s. s.connection_info.connection_id)
    finally (try_with (when has_status (connection_closed env)) except)
        (update_clients (λ clients. (remove_client connection_id clients, tt)))

  -- The thread of a client, in a world with a new status; `constructed` is what constructing the status
  -- gave, which raises what `Settings.get_adapter` raises.
  pub initialize_client_handler : ℕ → Result (Unit {0}) → Exec S Unit
  initialize_client_handler fuel constructed =
      finally
        (try_with
          (do lift constructed; connection_opened env; construct_handler; handle_client fuel)
          except)
        (clean_up (is_ok constructed))
