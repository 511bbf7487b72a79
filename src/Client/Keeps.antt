-- ===== src/Client/Keeps.antt =====
-- What a client's thread keeps, if the commands and the calls on the socket keep it:
-- src/pop3sf/ClientHandler.py.
use pop3sf.Prelude.{refl, All, ℕ, List, [], ◌∷◌, zero, suc, Option, none, some}
use pop3sf.Text.{Text}
use pop3sf.Text.Encoding.{Bytes}
use pop3sf.Response.{Response}
use pop3sf.Adapter.{
  Result, ok, raised, Exception, os_error, send_data, close_connection, adapter_close_connection,
  runtime_error, unicode_encode_error, other_exception,
}
use pop3sf.Session.{
  World, ClientStatus, PollResult, nothing, readable, unexpected, Exec, lift, send, recv, polled,
  try_with, ◌>>=◌, ◌>>◌,
}
use pop3sf.Session.Keeps.{Preserves, Preserves-bind, preserving}
use pop3sf.Helper.{Env, connection_opened}
use pop3sf.Helper.Keeps.{call-free}
use pop3sf.Helper.Quiet.{IsQuiet, free}
use pop3sf.Session.Sockets.{coming_polls-Preserves, lift-Preserves, try_with-Preserves}
use pop3sf.Commands.{handle_command}
use pop3sf.Commands.Quiet.{handle_command-quiet}
use pop3sf.Client.Receiver.{
  receive_data_from_socket, receive_more, receive_all_buffered_data_from_socket, append_decoded,
  receive_into,
}
use pop3sf.Client.{
  construct_handler, split_command, parse_command, or_raise, replace_unencodable, build_or_replace,
  encode_and_send_data_to_client, send_greeting_to_client, answer, run_command,
  parse_line_and_call_command_handler, handle_lines, receive_lines, handle_client,
  handle_exception_in_client_handler_initializer, except,
}

-- The calls on the connection, but for `close`, keep `P`.
pub record ConnectionKeeps {S : Type 0} (P : World S → Type 0) : Type 0 where
  pub sending : (bytes : Bytes) → Preserves P (send bytes)
  pub receiving : Preserves P recv
  pub polling : (rest : List PollResult) → Preserves P (polled rest)

module _ {S : Type 0} (env : Env S) {P : World S → Type 0} (connection : ConnectionKeeps P) where
  open connection use {sending, receiving, polling}

  abbrev Keeps : {A : Type 0} → Exec S A → Type 0
  Keeps m = Preserves P m

  ruleset client_rules = (preserving, try_with-Preserves, lift-Preserves, coming_polls-Preserves)

  recv-Keeps : Keeps recv
  recv-Keeps = receiving

  polled-Keeps : (rest : List PollResult) → Keeps (polled rest)
  polled-Keeps = polling

  send-Keeps : (bytes : Bytes) → Keeps (send bytes)
  send-Keeps = sending

  receive_data-Keeps : Keeps receive_data_from_socket
  unfolding receive_data_from_socket
  receive_data-Keeps = search (client_rules, recv-Keeps)

  pub receive_more-Keeps :
      (polls : List PollResult) (received : Bytes) → Keeps (receive_more polls received)
  unfolding receive_more
  receive_more-Keeps [] received = search (client_rules, polled-Keeps)
  receive_more-Keeps (nothing ∷ polls) received = search (client_rules, polled-Keeps)
  receive_more-Keeps (unexpected ∷ polls) received = search (client_rules, polled-Keeps)
  receive_more-Keeps (readable ∷ polls) received =
      search (client_rules, polled-Keeps, receive_data-Keeps, receive_more-Keeps polls) depth 9

  receive_all-Keeps : Keeps receive_all_buffered_data_from_socket
  unfolding receive_all_buffered_data_from_socket
  receive_all-Keeps = search (client_rules, receive_data-Keeps, receive_more-Keeps)

  pub append-Keeps : (buffer : Text) (decoded : Option Text) → Keeps (append_decoded buffer decoded)
  unfolding append_decoded
  append-Keeps buffer none = search client_rules
  append-Keeps buffer (some decoded) = search client_rules

  pub receive_into-Keeps : (buffer : Text) → Keeps (receive_into buffer)
  unfolding receive_into
  receive_into-Keeps buffer = search (client_rules, receive_all-Keeps, append-Keeps)

  or_raise-Keeps : (bytes : Option Bytes) → Keeps (or_raise env bytes)
  unfolding or_raise
  or_raise-Keeps none = search client_rules
  or_raise-Keeps (some bytes) = search client_rules

  replace-Keeps :
      (status : ClientStatus) (bytes : Option Bytes) → Keeps (replace_unencodable env status bytes)
  unfolding replace_unencodable
  replace-Keeps status none = or_raise-Keeps _
  replace-Keeps status (some bytes) = search client_rules

  build-Keeps :
      (answer : Response) (status : ClientStatus) → Keeps (build_or_replace env answer status)
  unfolding build_or_replace
  build-Keeps answer status = replace-Keeps status _

  encode_and_send-Keeps : (answer : Response) → Keeps (encode_and_send_data_to_client env answer)
  unfolding encode_and_send_data_to_client
  encode_and_send-Keeps answer = search (client_rules, build-Keeps, send-Keeps) depth 12

  answer-Keeps : (result : Result (Unit {0})) → Keeps (answer env result)
  unfolding answer
  answer-Keeps (ok a) = search client_rules
  answer-Keeps (raised (send_data d)) = encode_and_send-Keeps d
  answer-Keeps (raised close_connection) = search client_rules
  answer-Keeps (raised adapter_close_connection) = search client_rules
  answer-Keeps (raised os_error) = search client_rules
  answer-Keeps (raised runtime_error) = search client_rules
  answer-Keeps (raised unicode_encode_error) = search client_rules
  answer-Keeps (raised (other_exception n)) = search client_rules

  split-Keeps : (words : List Text) → Keeps (split_command env words)
  unfolding split_command
  split-Keeps [] = search client_rules
  split-Keeps (word ∷ words) = search client_rules

  pub parse-Keeps : (line : Text) → Keeps (parse_command env line)
  unfolding parse_command
  parse-Keeps line = search (client_rules, split-Keeps)

  line-Keeps :
      (line : Text)
      → Keeps (run_command env line)
      → Keeps (parse_line_and_call_command_handler env line)
  unfolding parse_line_and_call_command_handler
  line-Keeps line run = try_with-Preserves _ _ run answer-Keeps

  -- Lines whose commands all keep `P`, keep it.
  pub handle_lines-Keeps :
      (lines : List Text)
      → All (λ line. Keeps (run_command env line)) lines
      → Keeps (handle_lines env lines)
  unfolding handle_lines
  handle_lines-Keeps [] h = search client_rules
  handle_lines-Keeps (line ∷ lines) h =
      Preserves-bind _ _ (line-Keeps line h.0) (λ a. handle_lines-Keeps lines h.1)

  pub greeting-Keeps : Keeps (send_greeting_to_client env)
  unfolding send_greeting_to_client
  greeting-Keeps = encode_and_send-Keeps _

  exception-Keeps : (e : Exception) → Keeps (handle_exception_in_client_handler_initializer env e)
  unfolding handle_exception_in_client_handler_initializer
  exception-Keeps e = search client_rules

  except-Keeps : (result : Result (Unit {0})) → Keeps (except env result)
  unfolding except
  except-Keeps (ok a) = search client_rules
  except-Keeps (raised e) = exception-Keeps e

module _ {S : Type 0} (env : Env S) {P : World S → Type 0} (connection : ConnectionKeeps P)
    (quiet : IsQuiet P) where
  abbrev AllKeep : {A : Type 0} → Exec S A → Type 0
  AllKeep m = Preserves P m

  commands-Keeps : (command : Text) (args : List Text) → AllKeep (handle_command env command args)
  commands-Keeps = handle_command-quiet env quiet

  run-Keeps : (line : Text) → AllKeep (run_command env line)
  unfolding run_command
  run-Keeps line = search (client_rules, parse-Keeps, commands-Keeps)

  pub lines-Keeps : (lines : List Text) → AllKeep (handle_lines env lines)
  unfolding handle_lines
  lines-Keeps [] = search client_rules
  lines-Keeps (line ∷ lines) =
      Preserves-bind _ _ (line-Keeps env connection line (run-Keeps line)) (λ a. lines-Keeps lines)

  receive-Keeps : (fuel : ℕ) (buffer : Text) → AllKeep (receive_lines env fuel buffer)
  unfolding receive_lines
  receive-Keeps zero buffer = search client_rules
  receive-Keeps (suc fuel) buffer =
      search (client_rules, lines-Keeps, receive_into-Keeps, receive-Keeps fuel)

  pub client-Keeps : (fuel : ℕ) → AllKeep (handle_client env fuel)
  unfolding handle_client
  client-Keeps fuel = search (client_rules, greeting-Keeps, receive-Keeps)

  connection_opened-Keeps : AllKeep (connection_opened env)
  unfolding connection_opened
  connection_opened-Keeps = search (client_rules, call-free env (free quiet))

  construct-Keeps : AllKeep (construct_handler env)
  unfolding construct_handler ◌>>=◌
  construct-Keeps = record { kept = λ w. quiet.change w _ refl refl refl refl }

  pub body-Keeps :
      (fuel : ℕ) (constructed : Result (Unit {0}))
      → AllKeep (
          try_with
            (do
              lift constructed
              connection_opened env
              construct_handler env
              handle_client env fuel)
            (except env))
  body-Keeps fuel constructed =
      search (client_rules, connection_opened-Keeps, construct-Keeps, client-Keeps, except-Keeps)
        depth 12
