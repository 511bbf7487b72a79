-- ===== src/Tests/Servers.antt =====
-- Theorems about the server at sample connections.
use pop3sf.Server.{close_server_sockets}
use pop3sf.Server.{accept_client_connection_on_a_server_socket}
use pop3sf.Server.{find_server_socket_by_polled_fd}
use pop3sf.Server.{poll_server_sockets}
use pop3sf.Prelude.{ℕ, ◌≤◌, ◌<◌, refl, arith, Bool, true, List, [], ◌∷◌, length, select, ltb, inr}
use pop3sf.Prelude.Sort.{Pairwise}
use pop3sf.Text.{text}
use pop3sf.Adapter.{os_error, raised}
use pop3sf.Session.{ConnectionInfo}
use pop3sf.Settings.{Settings, defaults}
use pop3sf.Server.{
  Server, new_server, Accepted, connected, ssl_error, failed, Event, Polled, interrupted, events,
  start_server_loop,
}
use pop3sf.Server.Threads.{start_server_loop-bounded}
use pop3sf.Server.Numbers.{start_server_loop-ascending}
use pop3sf.Server.Failure.{raises, HasEnded, start_server_loop-ends}
use pop3sf.Prelude.{pos}

-- A server for one client at a time, whose threads live until the fourth time that it asks.
abbrev small : Settings
small = record defaults { max_concurrent_clients = pos 1 }

abbrev is_alive : ℕ → ConnectionInfo → Bool
is_alive t c = ltb t 3

abbrev connection : Accepted
connection = connected (text "127.0.0.1") 40000 (raised os_error)

abbrev event : Accepted → Event
event a = record { fd = 3; is_pollin = true; accepted = a }

abbrev polls : List Polled
polls =
    events (event connection ∷ event connection ∷ event ssl_error ∷ [])
    ∷ events (event connection ∷ event connection ∷ [])
    ∷ interrupted
    ∷ []

abbrev finished : Server
finished = (start_server_loop small is_alive polls (new_server (3 ∷ []))).1

start_server_loop-bounded_example : length (select (is_alive 4) finished.started) ≤ 1
unfolding start_server_loop poll_server_sockets find_server_socket_by_polled_fd
    accept_client_connection_on_a_server_socket close_server_sockets
start_server_loop-bounded_example =
    start_server_loop-bounded small is_alive polls (3 ∷ []) 4 (λ t u c le alive. ground arith)
      (omega arith)

start_server_loop-ascending_example :
    Pairwise (λ (c d : ConnectionInfo). c.connection_id < d.connection_id) finished.started
start_server_loop-ascending_example = start_server_loop-ascending small is_alive polls (3 ∷ [])

-- Two clients come and one of them is turned away; then `accept` fails.
start_server_loop-ends_example : HasEnded (raises os_error) (
    start_server_loop small is_alive
      (events (event connection ∷ event connection ∷ [])
        ∷ events (event (failed os_error) ∷ event connection ∷ [])
        ∷ interrupted
        ∷ [])
      (new_server (3 ∷ [])))
start_server_loop-ends_example =
    start_server_loop-ends small is_alive (3 ∷ [])
      (events (event connection ∷ event connection ∷ [])
        ∷ events (event (failed os_error) ∷ event connection ∷ [])
        ∷ interrupted
        ∷ [])
      ((inr refl, (inr refl, tt)), ((tt, (inr refl, tt)), (tt, tt)))
