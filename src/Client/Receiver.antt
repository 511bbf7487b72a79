-- ===== src/Client/Receiver.antt =====
-- src/pop3sf/ClientHandler.py: reading from the client's socket.
use pop3sf.Prelude.{
  ℕ, Bool, true, false, Option, none, some, List, [], ◌∷◌, ◌++◌, length, ltb, if◌then◌else◌,
}
use pop3sf.Text.{Text}
use pop3sf.Text.Encoding.{Bytes, decode_utf8}
use pop3sf.Adapter.{close_connection}
use pop3sf.Session.{
  PollResult, nothing, readable, unexpected, Exec, pure, raise, recv, coming_polls, polled, ◌>>=◌,
  ◌>>◌,
}

abbrev pub receive_buffer_max_size : ℕ
receive_buffer_max_size = 262144

abbrev is_empty : Bytes → Bool
is_empty [] = true
is_empty (b ∷ bs) = false

module _ {S : Type 0} where
  unfoldable pub receive_data_from_socket : Exec S Bytes
  receive_data_from_socket = do
    received_data ← recv
    if is_empty received_data then raise close_connection else pure received_data

  -- The loop of `_receive_all_buffered_data_from_socket`, over the answers that `poll` will give.
  unfoldable pub receive_more : List PollResult → Bytes → Exec S Bytes
  receive_more [] received_data = do polled []; pure received_data
  receive_more (nothing ∷ polls) received_data = do polled polls; pure received_data
  receive_more (unexpected ∷ polls) received_data = do polled polls; raise close_connection
  receive_more (readable ∷ polls) received_data = do
    polled polls
    more ← receive_data_from_socket
    if ltb receive_buffer_max_size (length (received_data ++ more))
        then raise close_connection
        else receive_more polls (received_data ++ more)

  unfoldable pub receive_all_buffered_data_from_socket : Exec S Bytes
  receive_all_buffered_data_from_socket = do
    received_data ← receive_data_from_socket
    polls ← coming_polls
    receive_more polls received_data

  -- the `try` block around `decode` and the test of the buffer's size
  unfoldable pub append_decoded : Text → Option Text → Exec S Text
  append_decoded buffer none = raise close_connection
  append_decoded buffer (some decoded) =
      if ltb receive_buffer_max_size (length (buffer ++ decoded))
      then raise close_connection
      else pure (buffer ++ decoded)

  -- the part of `_line_receiver_generator` behind the lines: the buffer with what was received
  unfoldable pub receive_into : Text → Exec S Text
  receive_into buffer = do
    received_data ← receive_all_buffered_data_from_socket
    append_decoded buffer (decode_utf8 received_data)
