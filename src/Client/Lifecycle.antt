-- ===== src/Client/Lifecycle.antt =====
-- How a client's thread ends: the `finally` block of `initialize_client_handler`.
use pop3sf.Prelude.{
  Bool, ℕ, ◌≡◌, refl, sym, subst, ap, ◌∙◌, true, not, List, [], ◌∷◌, arith, ◌==◌, All,
}
use pop3sf.Adapter.{
  Result, ok, raised, Exception, os_error, send_data, close_connection, adapter_close_connection,
  runtime_error, unicode_encode_error, other_exception,
}
use pop3sf.Ensurer.{Client, remove_client}
use pop3sf.Session.{
  World, Socket, ClientStatus, ConnectionInfo, Exec, lift, update_clients, try_with, ◌>>=◌, ◌>>◌,
}
use pop3sf.Session.Keeps.{Preserves, preserving}
use pop3sf.Helper.{when, Env, connection_opened, connection_closed}
use pop3sf.Helper.Keeps.{call-free}
use pop3sf.Helper.Quiet.{IsQuiet, free}
use pop3sf.Session.Sockets.{
  IsOffline, send-offline, recv-offline, polled-offline, try_with-Preserves,
}
use pop3sf.Client.Keeps.{ConnectionKeeps, body-Keeps}
use pop3sf.Client.{
  construct_handler, handle_client, handle_exception_in_client_handler_initializer, except,
  ignore_os_error, finally, is_ok, clean_up, initialize_client_handler,
}

-- The connection is `id`, and closing the socket will give `r`.
record IsOpened {S : Type 0} (id : ℕ) (r : Result (Unit {0})) (w : World S) : Type 0 where
  id_eq : w.status.connection_info.connection_id ≡ id
  close_eq : w.socket.close_result ≡ r

-- The socket is closed.
abbrev IsClosed : {S : Type 0} → World S → Type 0
IsClosed w = w.closed ≡ true

-- `close` succeeds, or raises an `OSError`.
abbrev pub IsIgnored : Result (Unit {0}) → Type 0
IsIgnored (ok a) = Unit
IsIgnored (raised e) = e ≡ os_error

-- The socket is closed, and the ensurer has no client of the connection `id`.
abbrev pub HasLeft : {S : Type 0} → ℕ → World S → Type 0
HasLeft id w =
    (w.closed ≡ true) × All (λ (c : Client). not (id == c.connection_id) ≡ true) w.clients

remove-All :
    (id : ℕ) (cs : List Client)
    → All (λ (c : Client). not (id == c.connection_id) ≡ true) (remove_client id cs)
unfolding remove_client
remove-All id [] = tt
remove-All id (c ∷ cs) = ground (arith, remove-All id cs)

module _ {S : Type 0} where
  IsClosed-quiet : IsQuiet {S = S} IsClosed
  IsClosed-quiet = record { change = λ v w i s t c h. c ∙ h }

module _ {S : Type 0} (id : ℕ) (r : Result (Unit {0})) where
  IsOpened-quiet : IsQuiet {S = S} (IsOpened id r)
  IsOpened-quiet = record {
    change = λ v w i s t c h. record {
      id_eq = ap (λ (j : ConnectionInfo). j.connection_id) i ∙ h.id_eq;
      close_eq = ap (λ (k : Socket). k.close_result) s ∙ h.close_eq;
    };
  }

  IsOpened-offline : IsOffline {S = S} (IsOpened id r)
  IsOpened-offline = record {
    change = λ v w same c clients closed h. record {
      id_eq = ap (λ (j : ClientStatus). j.connection_info.connection_id) same ∙ h.id_eq;
      close_eq = c ∙ h.close_eq;
    };
  }

  IsOpened-ConnectionKeeps : ConnectionKeeps {S = S} (IsOpened id r)
  IsOpened-ConnectionKeeps = record {
    sending = send-offline IsOpened-offline;
    receiving = recv-offline IsOpened-offline;
    polling = polled-offline IsOpened-offline;
  }

module _ {S : Type 0} (env : Env S) where
  ignore-ok :
      (r : Result (Unit {0})) → IsIgnored r → (w : World S) → ignore_os_error env r w ≡ (ok tt, w)
  unfolding ignore_os_error ◌>>=◌
  ignore-ok (ok a) h w = refl
  ignore-ok (raised close_connection) h w = cc
  ignore-ok (raised adapter_close_connection) h w = cc
  ignore-ok (raised os_error) h w = refl
  ignore-ok (raised runtime_error) h w = cc
  ignore-ok (raised unicode_encode_error) h w = cc
  ignore-ok (raised (send_data d)) h w = cc
  ignore-ok (raised (other_exception n)) h w = cc

  -- the adapter's and the ensurer's part of the `finally` block
  leave : Bool → ℕ → Exec S Unit
  leave has_status connection_id =
      finally env (try_with (when has_status (connection_closed env)) (except env))
        (update_clients (λ clients. (remove_client connection_id clients, tt)))

  -- the `finally` block, with the socket to be closed
  clean_up-leave :
      (has_status : Bool) (w : World S)
      → IsIgnored w.socket.close_result
      → clean_up env has_status w
        ≡ leave has_status w.status.connection_info.connection_id (record w { closed = true })
  unfolding clean_up leave ◌>>=◌
  clean_up-leave has_status w ignored =
      rw (ignore-ok w.socket.close_result ignored (record w { closed = true }))

  exception-IsClosed :
      (e : Exception) → Preserves IsClosed (handle_exception_in_client_handler_initializer env e)
  unfolding handle_exception_in_client_handler_initializer
  exception-IsClosed e = search preserving

  except-IsClosed : (result : Result (Unit {0})) → Preserves IsClosed (except env result)
  unfolding except
  except-IsClosed (ok a) = search preserving
  except-IsClosed (raised e) = exception-IsClosed e

  closing-IsClosed : Preserves IsClosed (connection_closed env)
  unfolding connection_closed
  closing-IsClosed = call-free env (free IsClosed-quiet) _

  told-IsClosed : (has_status : Bool) → Preserves IsClosed (when has_status (connection_closed env))
  told-IsClosed has_status = search (preserving, closing-IsClosed)

  leave-HasLeft :
      (has_status : Bool) (id : ℕ) (w : World S) → IsClosed w → HasLeft id (leave has_status id w).1
  unfolding leave finally ◌>>=◌
  leave-HasLeft has_status id w closed = (
    (try_with-Preserves (when has_status (connection_closed env)) (except env)
          (told-IsClosed has_status) except-IsClosed).kept
        w closed,
    remove-All id _,
  )

  clean_up-HasLeft :
      (has_status : Bool) (id : ℕ) (r : Result (Unit {0})) (w : World S)
      → IsIgnored r
      → IsOpened id r w
      → HasLeft id (clean_up env has_status w).1
  clean_up-HasLeft has_status id r w ignored opened =
      let ignored' = subst IsIgnored (sym opened.close_eq) ignored in
      let left =
        leave-HasLeft has_status w.status.connection_info.connection_id (record w { closed = true })
          refl in
      subst (λ (i : ℕ). HasLeft i (clean_up env has_status w).1) opened.id_eq
        (subst
          (λ (x : Result (Unit {0}) × World S). HasLeft w.status.connection_info.connection_id x.1)
          (sym (clean_up-leave has_status w ignored')) left)

  lift-world :
      (r : Result (Unit {0})) (x : Result (Unit {0})) (w : World S) → ((lift x >> lift r) w).1 ≡ w
  unfolding ◌>>=◌
  lift-world r (ok a) w = refl
  lift-world r (raised e) w = refl

  -- `try: m finally: last` ends in the state that `last` leaves.
  finally-world : (m last : Exec S Unit) (w : World S) → (finally env m last w).1 ≡ (last (m w).1).1
  unfolding finally ◌>>=◌
  finally-world m last w = lift-world (m w).0 (last (m w).1).0 (last (m w).1).1

  -- However a client's thread ends, also if constructing the status raised, and with whatever exception
  -- of the adapter, the socket is closed and the ensurer has no client of the connection, if closing the
  -- socket raises at most an `OSError`.
  pub initialize_client_handler-HasLeft :
      (fuel : ℕ) (constructed : Result (Unit {0})) (w : World S)
      → IsIgnored w.socket.close_result
      → HasLeft w.status.connection_info.connection_id
          (initialize_client_handler env fuel constructed w).1
  unfolding initialize_client_handler
  initialize_client_handler-HasLeft fuel constructed w ignored =
      let id = w.status.connection_info.connection_id in
      let body : Exec S Unit =
        try_with
          (do
            lift constructed
            connection_opened env
            construct_handler env
            handle_client env fuel)
          (except env) in
      let opened =
        (body-Keeps env (IsOpened-ConnectionKeeps id w.socket.close_result)
            (IsOpened-quiet id w.socket.close_result) fuel constructed).kept
          w (record { id_eq = refl; close_eq = refl }) in
      subst (HasLeft id) (sym (finally-world body (clean_up env (is_ok env constructed)) w))
        (clean_up-HasLeft (is_ok env constructed) id _ (body w).1 ignored opened)
