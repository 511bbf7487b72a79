-- ===== src/Server/Keeps.antt =====
-- What a run of the server leaves true.
use pop3sf.Prelude.{ℕ, ◌≡◌, refl, Bool, true, false, not, List, [], ◌∷◌, if◌then◌else◌}
use pop3sf.Adapter.{
  os_error, send_data, close_connection, adapter_close_connection, runtime_error,
  unicode_encode_error, other_exception, Result, ok, raised, Action,
}
use pop3sf.Adapter.Actions.{and_then, ◌>>=◌}
use pop3sf.Session.{ConnectionInfo}
use pop3sf.Settings.{Settings}
use pop3sf.Server.{
  Server, Accepted, Event, Polled, interrupted, events, closing,
  accept_client_connection_on_a_server_socket, find_server_socket_by_polled_fd, handle_event,
  handle_events, poll_server_sockets, close_server_sockets, server_loop, start_server_loop,
}

-- What a step leaves true, whether it returns or raises.
abbrev pub Keeps : {A : Type 0} → (Server → Type 0) → Action Server A → Type 0
Keeps P m = (s : Server) → P s → P (m s).1

module _ {A B : Type 0} (P : Server → Type 0) where
  Keeps-and_then :
      (r : Result A) (f : A → Action Server B) (s : Server)
      → ((a : A) → Keeps P (f a))
      → P s
      → P (and_then r f s).1
  Keeps-and_then (ok a) f s h p = h a s p
  Keeps-and_then (raised e) f s h p = p

  pub Keeps-bind :
      (m : Action Server A) (f : A → Action Server B)
      → Keeps P m
      → ((a : A) → Keeps P (f a))
      → Keeps P (m >>= f)
  Keeps-bind m f k h s p = Keeps-and_then (m s).0 f (m s).1 h (k s p)

module _ {A : Type 0} (P : Server → Type 0) where
  Keeps-if :
      (test : Bool) (m n : Action Server A)
      → Keeps P m
      → Keeps P n
      → Keeps P (if test then m else n)
  Keeps-if true m n h k = h
  Keeps-if false m n h k = k

-- Handling polls keeps what accepting a connection keeps, and what does not depend on whether the
-- server goes on and whether its sockets are closed.
module _ (settings : Settings) (is_alive : ℕ → ConnectionInfo → Bool) (P : Server → Type 0)
    (accepting : (a : Accepted)
      → Keeps P (accept_client_connection_on_a_server_socket settings is_alive a))
    (flags : (s : Server) (going closed : Bool)
      → P s
      → P (record s { continue_polling_for_new_connections = going; closed = closed })) where
  event-Keeps : (event : Event) → Keeps P (handle_event settings is_alive event)
  unfolding handle_event
  event-Keeps event =
      Keeps-if P (not event.is_pollin) _ _ (λ s p. p)
        (λ s p.
          Keeps-and_then P
            (find_server_socket_by_polled_fd settings is_alive event.fd s.server_sockets) _ s
            (λ a. accepting event.accepted) p)

  events-Keeps : (es : List Event) → Keeps P (handle_events settings is_alive es)
  unfolding handle_events
  events-Keeps [] s p = p
  events-Keeps (event ∷ es) s p =
      Keeps-bind P (handle_event settings is_alive event) _ (event-Keeps event)
        (λ a. events-Keeps es) s p

  poll-Keeps : (polled : Polled) → Keeps P (poll_server_sockets settings is_alive polled)
  unfolding poll_server_sockets
  poll-Keeps interrupted s p = flags s false s.closed p
  poll-Keeps (events es) s p = events-Keeps es s p

  loop-Keeps : (polls : List Polled) (go : Bool) → Keeps P (server_loop settings is_alive polls go)
  unfolding server_loop close_server_sockets
  loop-Keeps polls false s p = flags s s.continue_polling_for_new_connections true p
  loop-Keeps [] true s p = p
  loop-Keeps (polled ∷ polls) true s p =
      Keeps-bind P (poll_server_sockets settings is_alive polled) _ (poll-Keeps polled)
        (λ a t. loop-Keeps polls t.continue_polling_for_new_connections t) s p

  pub start-Keeps : (polls : List Polled) → Keeps P (start_server_loop settings is_alive polls)
  unfolding start_server_loop
  start-Keeps polls s = loop-Keeps polls s.continue_polling_for_new_connections s

module _ (settings : Settings) (is_alive : ℕ → ConnectionInfo → Bool) where
  pub closing-state : (r : Result (Unit {0})) (s : Server) → (closing settings is_alive r s).1 ≡ s
  unfolding closing
  closing-state (ok a) s = refl
  closing-state (raised close_connection) s = refl
  closing-state (raised adapter_close_connection) s = refl
  closing-state (raised os_error) s = refl
  closing-state (raised runtime_error) s = refl
  closing-state (raised unicode_encode_error) s = refl
  closing-state (raised (send_data d)) s = refl
  closing-state (raised (other_exception n)) s = refl
