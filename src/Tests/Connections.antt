-- ===== src/Tests/Connections.antt =====
-- Theorems about a client's thread and its lines at the sample server.
use pop3sf.Prelude.{◌≡◌, refl, arith, false, List, [], ◌∷◌, ◌++◌}
use pop3sf.Text.{cr, lf, text, take_lines}
use pop3sf.Text.Chunks.{take_lines-append, take_lines-cut_crlf}
use pop3sf.Adapter.{Exception, ok, raised, os_error, adapter_close_connection}
use pop3sf.Adapters.ListAdapter.{ListState}
use pop3sf.Session.{World}
use pop3sf.Client.{handle_client, initialize_client_handler}
use pop3sf.Client.Lifecycle.{HasLeft, initialize_client_handler-HasLeft}
use pop3sf.Client.Unbuilt.{get_adapter, initialize_client_handler-untouched}
use pop3sf.Client.Ending.{handle_client-raises}
use pop3sf.Locking.{Locked}
use pop3sf.Locking.Bracketing.{MethodCall, mark_message_as_deleted, get_message_count}
use pop3sf.Tests.Samples.{sample_mailbox, sample_env, sample_world, sample_socket}

-- A client that sends two commands in three pieces, and whose socket cannot be closed properly.
abbrev talking : World ListState
talking = record (sample_world false) {
  socket = record sample_socket {
    recv_results = ok (text "NOOP\r\nSTA") ∷ ok (text "T\r\n") ∷ ok (text "QUIT\r\n") ∷ [];
    close_result = raised os_error;
  };
}

initialize_client_handler-HasLeft_example :
    HasLeft 7 (initialize_client_handler sample_env 4 (ok tt) talking).1
initialize_client_handler-HasLeft_example =
    initialize_client_handler-HasLeft sample_env 4 (ok tt) talking refl

handle_client-raises_example : (e : Exception) × ((handle_client sample_env 4 talking).0 ≡ raised e)
handle_client-raises_example = handle_client-raises sample_env 4 talking (omega arith)

take_lines-append_example :
    let (lines, left) = take_lines (text "NOOP\nST") in
    let (more_lines, rest) = take_lines (left ++ text "AT\n") in
    take_lines (text "NOOP\nST" ++ text "AT\n") ≡ (lines ++ more_lines, rest)
unfolding text
take_lines-append_example =
    take_lines-append (text "NOOP\nST") (text "AT\n") (λ ends rest starts. cc)

take_lines-cut_crlf_example :
    let (lines, left) = take_lines (text "NOOP" ++ cr ∷ []) in
    let (more_lines, rest) = take_lines (text "STAT\r\n") in
    (take_lines ((text "NOOP" ++ cr ∷ []) ++ lf ∷ text "STAT\r\n") ≡ (lines ++ more_lines, rest))
    × (take_lines (left ++ lf ∷ text "STAT\r\n") ≡ ([] ∷ more_lines, rest))
take_lines-cut_crlf_example = take_lines-cut_crlf (text "NOOP") (text "STAT\r\n")

abbrev unlocked : Locked ListState
unlocked = record { adapter = sample_mailbox; calls = [] }

abbrev methods : List MethodCall
methods = mark_message_as_deleted 0 ∷ mark_message_as_deleted 9 ∷ get_message_count ∷ []

initialize_client_handler-untouched_example :
    let w = (initialize_client_handler sample_env 4 get_adapter talking).1 in
    (w.adapter ≡ sample_mailbox)
    × (w.sent ≡ [])
    × (w.socket.recv_results ≡ talking.socket.recv_results)
unfolding get_adapter
initialize_client_handler-untouched_example =
    initialize_client_handler-untouched sample_env 4 adapter_close_connection talking
