-- ===== src/Server/Failure.antt =====
-- How the server's loop ends.
use pop3sf.Prelude.{
  ℕ, ◌+◌, ◌≡◌, refl, sym, subst, Bool, true, false, not, ◌||◌, ◌⊎◌, inl, inr, Option, none, some,
  List, [], ◌∷◌, All, ◌==◌, Bool-cases, arith, if◌then◌else◌,
}
use pop3sf.Adapter.{Exception, os_error, runtime_error, Result, ok, raised, Action}
use pop3sf.Adapter.Actions.{and_then, modify, ◌>>=◌}
use pop3sf.Session.{ConnectionInfo}
use pop3sf.Settings.{Settings}
use pop3sf.Server.{
  Server, new_server, Accepted, connected, ssl_error, failed, Event, Polled, interrupted, events,
  check_if_another_client_can_be_connected, start_per_client_thread, start_thread, turn_away,
  closing, accept_client_connection_on_a_server_socket, find_server_socket_by_polled_fd,
  handle_event, handle_events, poll_server_sockets, close_server_sockets, server_loop,
  start_server_loop,
}

-- `n in numbers`
abbrev pub is_one_of : ℕ → List ℕ → Bool
is_one_of n [] = false
is_one_of n (m ∷ numbers) = n == m || is_one_of n numbers

-- The exception that an event on one of these sockets brings about, if any.
abbrev pub accept_failure : Accepted → Option Exception
accept_failure (failed e) = some e
accept_failure ssl_error = none
accept_failure (connected address port close_result) = none

abbrev pub event_failure : List ℕ → Event → Option Exception
event_failure sockets event =
    if event.is_pollin
    then (if is_one_of event.fd sockets then accept_failure event.accepted else some runtime_error)
    else some runtime_error

abbrev pub or_else : Option Exception → Option Exception → Option Exception
or_else none f = f
or_else (some e) f = some e

abbrev pub first_failure : List ℕ → List Event → Option Exception
first_failure sockets [] = none
first_failure sockets (event ∷ rest) =
    or_else (event_failure sockets event) (first_failure sockets rest)

-- The end of a run: it waits for the next poll, it returned, or an exception left it.
pub data Ending : Type 0 where
  waits returns : Ending
  raises : Exception → Ending

abbrev pub ends_with_failure : Option Exception → Ending → Ending
ends_with_failure none later = later
ends_with_failure (some e) later = raises e

abbrev pub ending : List ℕ → List Polled → Ending
ending sockets [] = waits
ending sockets (interrupted ∷ polls) = returns
ending sockets (events es ∷ polls) =
    ends_with_failure (first_failure sockets es) (ending sockets polls)

-- `close` of a connection that is turned away raises nothing but an `OSError`.
abbrev pub IsQuiet : Result (Unit {0}) → Type 0
IsQuiet r = (r ≡ ok tt) ⊎ (r ≡ raised os_error)

abbrev IsQuietAccept : Accepted → Type 0
IsQuietAccept (failed e) = Unit
IsQuietAccept ssl_error = Unit
IsQuietAccept (connected address port r) = IsQuiet r

abbrev pub ClosesQuietly : Polled → Type 0
ClosesQuietly interrupted = Unit
ClosesQuietly (events es) = All (λ event. IsQuietAccept event.accepted) es

abbrev pub HasEnded : Ending → Result (Unit {0}) × Server → Type 0
HasEnded waits (r, s) = (r ≡ ok tt) × (s.closed ≡ false)
HasEnded returns (r, s) = (r ≡ ok tt) × (s.closed ≡ true)
HasEnded (raises e) (r, s) = (r ≡ raised e) × (s.closed ≡ false)

abbrev outcome : Option Exception → Result (Unit {0})
outcome none = ok tt
outcome (some e) = raised e

module _ (sockets : List ℕ) where
  abbrev IsGoing : Server → Type 0
  IsGoing s =
      (s.server_sockets ≡ sockets)
      × (s.continue_polling_for_new_connections ≡ true)
      × (s.closed ≡ false)

  abbrev Leaves : Option Exception → Result (Unit {0}) × Server → Type 0
  Leaves failure (r, s) = (r ≡ outcome failure) × IsGoing s

module _ (settings : Settings) (is_alive : ℕ → ConnectionInfo → Bool) (sockets : List ℕ) where
  connect-Leaves :
      (can_connect : Bool) (c : ConnectionInfo) (r : Result Unit) (s : Server)
      → IsQuiet r
      → IsGoing sockets s
      → Leaves sockets none (
          ((if not can_connect
                then turn_away settings is_alive c r
                else start_thread settings is_alive c)
              >>= λ _. modify (λ t. record t { next_connection_id = t.next_connection_id + 1 }))
            s)
  unfolding turn_away start_thread closing
  connect-Leaves true c r s q h = (refl, h)
  connect-Leaves false c r s (inl q) h = rw q (refl, h)
  connect-Leaves false c r s (inr q) h = rw q (refl, h)

  accept-Leaves :
      (a : Accepted) (s : Server)
      → IsQuietAccept a
      → IsGoing sockets s
      → Leaves sockets
          (accept_failure a)
          (accept_client_connection_on_a_server_socket settings is_alive a s)
  unfolding accept_client_connection_on_a_server_socket start_per_client_thread
      check_if_another_client_can_be_connected
  accept-Leaves ssl_error s q h = (refl, h)
  accept-Leaves (failed e) s q h = (refl, h)
  accept-Leaves (connected address port r) s q h = connect-Leaves _ _ r _ q h

  find-one :
      (fd : ℕ) (ss : List ℕ)
      → find_server_socket_by_polled_fd settings is_alive fd ss
        ≡ (if is_one_of fd ss then ok fd else raised runtime_error)
  unfolding find_server_socket_by_polled_fd
  find-one fd [] = refl
  find-one fd (s ∷ ss) = ground (arith, find-one fd ss)

  find-going :
      (fd : ℕ) (s : Server)
      → IsGoing sockets s
      → find_server_socket_by_polled_fd settings is_alive fd s.server_sockets
        ≡ (if is_one_of fd sockets then ok fd else raised runtime_error)
  find-going fd s h = rw h.0 (find-one fd sockets)

  event-Leaves :
      (event : Event) (s : Server)
      → IsQuietAccept event.accepted
      → IsGoing sockets s
      → Leaves sockets (event_failure sockets event) (handle_event settings is_alive event s)
  unfolding handle_event
  event-Leaves event s q h = elim (Bool-cases event.is_pollin) [
    | inl p ↦ elim (Bool-cases (is_one_of event.fd sockets)) [
      | inl one ↦ rw (p, find-going event.fd s h, one) (accept-Leaves event.accepted s q h)
      | inr one ↦ rw (p, find-going event.fd s h, one) (refl, h)
    ]
    | inr p ↦ rw p (refl, h)
  ]

  then-Leaves :
      (f g : Option Exception) (r : Result Unit) (n : Action Server Unit) (s : Server)
      → Leaves sockets f (r, s)
      → ((t : Server) → IsGoing sockets t → Leaves sockets g (n t))
      → Leaves sockets (or_else f g) (and_then r (λ _. n) s)
  then-Leaves none g r n s h k = rw h.0 (k s h.1)
  then-Leaves (some e) g r n s h k = rw h.0 (refl, h.1)

  events-Leaves :
      (es : List Event) (s : Server)
      → All (λ event. IsQuietAccept event.accepted) es
      → IsGoing sockets s
      → Leaves sockets (first_failure sockets es) (handle_events settings is_alive es s)
  unfolding handle_events
  events-Leaves [] s q h = (refl, h)
  events-Leaves (event ∷ es) s q h =
      then-Leaves _ _ _ (handle_events settings is_alive es) _ (event-Leaves event s q.0 h)
        (λ t. events-Leaves es t q.1)

  round-HasEnded :
      (f : Option Exception) (later : Ending) (r : Result Unit) (n : Action Server Unit)
      (s : Server)
      → Leaves sockets f (r, s)
      → ((t : Server) → IsGoing sockets t → HasEnded later (n t))
      → HasEnded (ends_with_failure f later) (and_then r (λ _. n) s)
  round-HasEnded none later r n s h k = rw h.0 (k s h.1)
  round-HasEnded (some e) later r n s h k = rw h.0 (refl, h.1.2)

  start-HasEnded :
      (polls : List Polled) (later : Ending) (s : Server)
      → IsGoing sockets s
      → HasEnded later (server_loop settings is_alive polls true s)
      → HasEnded later (start_server_loop settings is_alive polls s)
  unfolding start_server_loop
  start-HasEnded polls later s h k =
      subst (λ go. HasEnded later (server_loop settings is_alive polls go s)) (sym h.1) k

  loop-HasEnded :
      (polls : List Polled) (s : Server)
      → All ClosesQuietly polls
      → IsGoing sockets s
      → HasEnded (ending sockets polls) (server_loop settings is_alive polls true s)
  unfolding start_server_loop server_loop poll_server_sockets close_server_sockets
  loop-HasEnded [] s q h = (refl, h.2)
  loop-HasEnded (interrupted ∷ polls) s q h = (refl, refl)
  loop-HasEnded (events es ∷ polls) s q h =
      round-HasEnded (first_failure sockets es) (ending sockets polls)
        (handle_events settings is_alive es s).0 (start_server_loop settings is_alive polls)
        (handle_events settings is_alive es s).1 (events-Leaves es s q.0 h)
        (λ t g. start-HasEnded polls (ending sockets polls) t g (loop-HasEnded polls t q.1 g))

module _ (settings : Settings) (is_alive : ℕ → ConnectionInfo → Bool) where
  -- If closing a connection that is turned away raises at most an `OSError`, the first keyboard
  -- interrupt, or the first event that fails, decides how the server ends, whatever its limits are and
  -- whichever threads live. An event fails with what `accept` raised, other than an `SSLError`, or
  -- with a `RuntimeError` if it is not `POLLIN` or on no socket of the server. An interrupt makes the
  -- server close its sockets and return; an event that fails makes it raise with its sockets open;
  -- and without either it goes on waiting.
  pub start_server_loop-ends :
      (sockets : List ℕ) (polls : List Polled)
      → All ClosesQuietly polls
      → HasEnded
          (ending sockets polls)
          (start_server_loop settings is_alive polls (new_server sockets))
  start_server_loop-ends sockets polls q =
      start-HasEnded settings is_alive sockets polls (ending sockets polls) (new_server sockets)
        (refl, refl, refl)
        (loop-HasEnded settings is_alive sockets polls (new_server sockets) q (refl, refl, refl))
