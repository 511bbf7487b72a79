-- ===== src/Client/Ending.antt =====
-- That the loop over the client's lines ends: each round takes an answer of `recv`, and where the
-- client has closed its side, the first read without bytes closes the connection.
use pop3sf.Prelude.{ℕ, zero, suc, ◌≤◌, ◌<◌, ◌≡◌, refl, sym, subst, List, [], length, arith}
use pop3sf.Text.{Text}
use pop3sf.Adapter.{Exception, raised, close_connection}
use pop3sf.Session.{World, Socket, ◌>>=◌}
use pop3sf.Session.Keeps.{Preserves-bind, preserving, Leads, Leads-first, Leads-keeps}
use pop3sf.Session.Raises.{Ends, Ends-later, Ends-first}
use pop3sf.Session.Sockets.{
  HasAtMost, recv-Leads, recv-at_most, send-at_most, polled-at_most, recv-at_end,
  coming_polls-Preserves,
}
use pop3sf.Helper.{Env}
use pop3sf.Helper.Quiet.{IsQuiet}
use pop3sf.Client.{handle_lines, receive_lines, handle_client}
use pop3sf.Client.Receiver.{
  receive_into, receive_all_buffered_data_from_socket, receive_data_from_socket,
}
use pop3sf.Client.Keeps.{
  ConnectionKeeps, lines-Keeps, receive_more-Keeps, append-Keeps, greeting-Keeps,
}

module _ {S : Type 0} (n : ℕ) where
  at_most-quiet : IsQuiet {S = S} (HasAtMost n)
  at_most-quiet = record {
    change = λ v w i s t c. subst (λ (k : Socket). length k.recv_results ≤ n) (sym s);
  }

  at_most-ConnectionKeeps : ConnectionKeeps {S = S} (HasAtMost n)
  at_most-ConnectionKeeps = record {
    sending = send-at_most n;
    receiving = recv-at_most n;
    polling = polled-at_most n;
  }

  -- A round of the loop takes an answer of `recv`.
  data-Leads : Leads {S = S} (HasAtMost (suc n)) (HasAtMost n) receive_data_from_socket
  unfolding receive_data_from_socket
  data-Leads = Leads-first _ _ (recv-Leads n) (λ received. search preserving)

module _ {S : Type 0} (env : Env S) (n : ℕ) where
  all-Leads : Leads {S = S} (HasAtMost (suc n)) (HasAtMost n) receive_all_buffered_data_from_socket
  unfolding receive_all_buffered_data_from_socket
  all-Leads = Leads-first _ _ (data-Leads n) λ received.
      Preserves-bind _ _ coming_polls-Preserves
        λ polls. receive_more-Keeps env (at_most-ConnectionKeeps n) polls received

  into-Leads :
      (buffer : Text) → Leads {S = S} (HasAtMost (suc n)) (HasAtMost n) (receive_into buffer)
  unfolding receive_into
  into-Leads buffer =
      Leads-first _ _ all-Leads λ received. append-Keeps env (at_most-ConnectionKeeps n) buffer _

module _ {S : Type 0} where
  -- A read that gives no bytes closes the connection.
  data-Ends : Ends {S = S} (HasAtMost 0) receive_data_from_socket
  unfolding receive_data_from_socket ◌>>=◌
  data-Ends = record { at = λ w h. (close_connection, rw (recv-at_end w h) refl) }

  into-Ends : (buffer : Text) → Ends {S = S} (HasAtMost 0) (receive_into buffer)
  unfolding receive_into receive_all_buffered_data_from_socket
  into-Ends buffer = Ends-first _ _ (Ends-first _ _ data-Ends)

module _ {S : Type 0} (env : Env S) where
  lines-Leads :
      (n : ℕ) (lines : List Text) → Leads (HasAtMost n) (HasAtMost n) (handle_lines env lines)
  lines-Leads n lines =
      Leads-keeps (λ w h. h) _ (lines-Keeps env (at_most-ConnectionKeeps n) (at_most-quiet n) lines)

  receive_lines-Ends :
      (n : ℕ) (buffer : Text) → Ends (HasAtMost n) (receive_lines env (suc n) buffer)
  unfolding receive_lines
  receive_lines-Ends zero buffer =
      Ends-later _ _ (lines-Leads 0 _) λ a. Ends-first _ _ (into-Ends _)
  receive_lines-Ends (suc n) buffer =
      Ends-later _ _ (lines-Leads (suc n) _)
        λ a. Ends-later _ _ (into-Leads env n _) λ buffer'. receive_lines-Ends n buffer'

  client-Ends : (n : ℕ) → Ends (HasAtMost n) (handle_client env (suc n))
  unfolding handle_client
  client-Ends n =
      Ends-later _ _ (Leads-keeps (λ w h. h) _ (greeting-Keeps env (at_most-ConnectionKeeps n)))
        (λ a. receive_lines-Ends n [])

  -- Serving a client never returns, and it ends, with an exception, with more fuel than `recv` has
  -- answers.
  pub handle_client-raises :
      (fuel : ℕ) (w : World S)
      → length w.socket.recv_results < fuel
      → (e : Exception) × ((handle_client env fuel w).0 ≡ raised e)
  handle_client-raises zero w h = absurd (omega (arith, h))
  handle_client-raises (suc fuel) w h = (client-Ends fuel).at w (omega arith)
