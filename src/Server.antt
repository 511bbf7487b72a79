-- ===== src/Server.antt =====
-- src/pop3sf/POP3SF.py: accepting connections and starting a thread for each. What the operating system
-- answers (polls, accepted connections, which threads live) is a script.
pub mod Sockets
pub mod Startup
pub mod Keeps
pub mod Threads
pub mod Numbers
pub mod Failure
pub mod Main
use pop3sf.Prelude.{
  ℕ, ◌+◌, Bool, true, false, not, Option, none, some, List, [], ◌∷◌, ◌++◌, length, select, ◌==◌, ℤ,
  pos, negsuc, ltb, if◌then◌else◌,
}
use pop3sf.Text.{Text}
use pop3sf.Adapter.{Exception, os_error, runtime_error, Result, ok, raised, Action}
use pop3sf.Adapter.Actions.{pure, raise, lift, gets, modify, ◌>>=◌, ◌>>◌}
use pop3sf.Session.{ConnectionInfo}
use pop3sf.Settings.{Settings}

-- The attributes, the sockets as file descriptors and the threads as the connections that they serve;
-- then what the server did: the threads that it started, the connections that it closed at once,
-- whether it closed its sockets, and how often it asked which threads live.
pub record Server : Type 0 where
  pub threads : List ConnectionInfo
  pub server_sockets : List ℕ
  pub continue_polling_for_new_connections : Bool
  pub next_connection_id : ℕ
  pub started : List ConnectionInfo
  pub turned_away : List ConnectionInfo
  pub closed : Bool
  pub time : ℕ

-- `__init__`, behind the creation of the sockets
abbrev pub new_server : List ℕ → Server
new_server server_sockets = record {
  threads = [];
  server_sockets = server_sockets;
  continue_polling_for_new_connections = true;
  next_connection_id = 1;
  started = [];
  turned_away = [];
  closed = false;
  time = 0;
}

-- What `accept` gives: a socket from an address, whose `close` will end in this way; an
-- `ssl.SSLError`; or another exception.
pub data Accepted : Type 0 where
  connected : Text → ℕ → Result (Unit {0}) → Accepted
  ssl_error : Accepted
  failed : Exception → Accepted

-- An event on a descriptor: whether it is `POLLIN`, and what `accept` will give then.
pub record Event : Type 0 where
  pub fd : ℕ
  pub is_pollin : Bool
  pub accepted : Accepted

-- What `poll` gives: a `KeyboardInterrupt`, or events.
pub data Polled : Type 0 where
  interrupted : Polled
  events : List Event → Polled

-- `n < limit`, for a count `n`
abbrev pub is_below : ℕ → ℤ → Bool
is_below n (pos m) = ltb n m
is_below n (negsuc m) = false

module _ (settings : Settings) (is_alive : ℕ → ConnectionInfo → Bool) where
  unfoldable pub check_if_another_client_can_be_connected : Action Server Bool
  check_if_another_client_can_be_connected = do
    time ← gets (λ s. s.time)
    modify (λ s. record s { threads = select (is_alive time) s.threads; time = s.time + 1 })
    count ← gets (λ s. length s.threads)
    pure (is_below count settings.max_concurrent_clients)

  -- `except OSError: pass`
  unfoldable pub closing : Result (Unit {0}) → Action Server Unit
  closing (raised os_error) = pure tt
  closing r = lift r

  unfoldable pub turn_away : ConnectionInfo → Result (Unit {0}) → Action Server Unit
  unfolding closing
  turn_away connection_info close_result = do
    modify (λ s. record s { turned_away = s.turned_away ++ connection_info ∷ [] })
    closing close_result

  unfoldable pub start_thread : ConnectionInfo → Action Server Unit
  start_thread connection_info = modify (λ s. record s {
    started = s.started ++ connection_info ∷ [];
    threads = s.threads ++ connection_info ∷ [];
  })

  unfoldable pub start_per_client_thread : ConnectionInfo → Result (Unit {0}) → Action Server Unit
  unfolding check_if_another_client_can_be_connected turn_away start_thread
  start_per_client_thread connection_info close_result = do
    can_connect ← check_if_another_client_can_be_connected
    if not can_connect then turn_away connection_info close_result else start_thread connection_info

  unfoldable pub accept_client_connection_on_a_server_socket : Accepted → Action Server Unit
  unfolding start_per_client_thread
  accept_client_connection_on_a_server_socket ssl_error = pure tt
  accept_client_connection_on_a_server_socket (failed e) = raise e
  accept_client_connection_on_a_server_socket (connected address port close_result) = do
    id ← gets (λ s. s.next_connection_id)
    start_per_client_thread (record { connection_id = id; address = address; port = port })
        close_result
    modify (λ s. record s { next_connection_id = s.next_connection_id + 1 })

  unfoldable pub find_server_socket_by_polled_fd : ℕ → List ℕ → Result ℕ
  find_server_socket_by_polled_fd fd [] = raised runtime_error
  find_server_socket_by_polled_fd fd (server_socket ∷ server_sockets) =
      if fd == server_socket
      then ok server_socket
      else find_server_socket_by_polled_fd fd server_sockets

  unfoldable pub handle_event : Event → Action Server Unit
  handle_event event = if not event.is_pollin then raise runtime_error else do
    server_sockets ← gets (λ s. s.server_sockets)
    server_socket ← lift (find_server_socket_by_polled_fd event.fd server_sockets)
    accept_client_connection_on_a_server_socket event.accepted

  unfoldable pub handle_events : List Event → Action Server Unit
  unfolding handle_event
  handle_events [] = pure tt
  handle_events (event ∷ rest) = do handle_event event; handle_events rest

  unfoldable pub poll_server_sockets : Polled → Action Server Unit
  unfolding handle_events
  poll_server_sockets interrupted =
      modify (λ s. record s { continue_polling_for_new_connections = false })
  poll_server_sockets (events poll_events) = handle_events poll_events

  unfoldable pub close_server_sockets : Action Server Unit
  close_server_sockets = modify (λ s. record s { closed = true })

  -- The loop over what `poll` will give; behind the last answer it still waits. The flag is the test
  -- of the loop.
  unfoldable pub server_loop : List Polled → Bool → Action Server Unit
  server_loop polls false = close_server_sockets
  server_loop [] true = pure tt
  server_loop (polled ∷ polls) true = do
    poll_server_sockets polled
    continue ← gets (λ s. s.continue_polling_for_new_connections)
    server_loop polls continue

  -- `start_server_loop`, without its log messages
  unfoldable pub start_server_loop : List Polled → Action Server Unit
  unfolding server_loop
  start_server_loop polls = do
    continue ← gets (λ s. s.continue_polling_for_new_connections)
    server_loop polls continue
