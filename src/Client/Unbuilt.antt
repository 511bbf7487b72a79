-- ===== src/Client/Unbuilt.antt =====
-- A client's thread without a status: src/pop3sf/ClientHandler.py and the adapter that
-- src/pop3sf/Settings.py chooses when it is not edited.
use pop3sf.Prelude.{ℕ, ◌≡◌, refl, false, List}
use pop3sf.Text.Encoding.{Bytes}
use pop3sf.Adapter.{
  Exception, send_data, close_connection, adapter_close_connection, os_error, runtime_error,
  unicode_encode_error, other_exception, Result, ok, raised,
}
use pop3sf.Ensurer.{Client}
use pop3sf.Session.{World, Exec, close, update_clients, lift, ◌>>=◌, ◌>>◌}
use pop3sf.Session.Keeps.{Preserves, Preserves-update_clients, preserving}
use pop3sf.Session.Sockets.{lift-Preserves, try_with-Preserves}
use pop3sf.Helper.{Env, connection_opened}
use pop3sf.Client.{
  construct_handler, handle_client, handle_exception_in_client_handler_initializer, except,
  ignore_os_error, finally, clean_up, initialize_client_handler,
}

-- `Settings.get_adapter` as it stands
unfoldable pub get_adapter : {A : Type 0} → Result A
get_adapter = raised adapter_close_connection

-- The adapter is in the state `s`, the bytes `b` were sent, and the client can still send what is in `k`.
record IsUntouched {S : Type 0} (s : S) (b : Bytes) (r : List (Result Bytes)) (w : World S)
    : Type 0 where
  adapter_is : w.adapter ≡ s
  sent_is : w.sent ≡ b
  received_is : w.socket.recv_results ≡ r

module _ {S : Type 0} (env : Env S) (s : S) (b : Bytes) (r : List (Result Bytes)) where
  abbrev Keeps : {A : Type 0} → Exec S A → Type 0
  Keeps m = Preserves (IsUntouched s b r) m

  close-Keeps : Keeps close
  unfolding ◌>>=◌
  close-Keeps = record {
    kept = λ w h. record {
      adapter_is = h.adapter_is;
      sent_is = h.sent_is;
      received_is = h.received_is;
    };
  }

  clients-Keeps : {A : Type 0} (f : List Client → List Client × A) → Keeps (update_clients f)
  clients-Keeps f =
      Preserves-update_clients f λ w h. record {
        adapter_is = h.adapter_is;
        sent_is = h.sent_is;
        received_is = h.received_is;
      }

  ignore-Keeps : (x : Result (Unit {0})) → Keeps (ignore_os_error env x)
  unfolding ignore_os_error
  ignore-Keeps (ok a) = lift-Preserves _
  ignore-Keeps (raised close_connection) = lift-Preserves _
  ignore-Keeps (raised adapter_close_connection) = lift-Preserves _
  ignore-Keeps (raised os_error) = search preserving
  ignore-Keeps (raised runtime_error) = lift-Preserves _
  ignore-Keeps (raised unicode_encode_error) = lift-Preserves _
  ignore-Keeps (raised (send_data d)) = lift-Preserves _
  ignore-Keeps (raised (other_exception n)) = lift-Preserves _

  exception-Keeps : (e : Exception) → Keeps (handle_exception_in_client_handler_initializer env e)
  unfolding handle_exception_in_client_handler_initializer
  exception-Keeps e = search preserving

  except-Keeps : (x : Result (Unit {0})) → Keeps (except env x)
  unfolding except
  except-Keeps (ok a) = search preserving
  except-Keeps (raised e) = exception-Keeps e

  ruleset unbuilt_rules = (
    preserving, try_with-Preserves, lift-Preserves, close-Keeps, clients-Keeps, ignore-Keeps,
    except-Keeps,
  )

  finally-Keeps : (m last : Exec S Unit) → Keeps m → Keeps last → Keeps (finally env m last)
  unfolding finally
  finally-Keeps m last h k = search unbuilt_rules

  clean_up-Keeps : Keeps (clean_up env false)
  unfolding clean_up
  clean_up-Keeps = search (unbuilt_rules, finally-Keeps) depth 9

  raised-Keeps :
      (fuel : ℕ) (e : Exception)
      → Keeps (do
        lift {A = Unit {0}} (raised e)
        connection_opened env
        construct_handler env
        handle_client env fuel)
  unfolding ◌>>=◌
  raised-Keeps fuel e = record { kept = λ w h. h }

  unbuilt-Keeps : (fuel : ℕ) (e : Exception) → Keeps (initialize_client_handler env fuel (raised e))
  unfolding initialize_client_handler
  unbuilt-Keeps fuel e = search (unbuilt_rules, finally-Keeps, raised-Keeps, clean_up-Keeps)

-- If constructing a client's status raises, as it does with the settings as they stand, then its thread
-- calls no method of an adapter, and neither sends anything nor receives anything.
pub initialize_client_handler-untouched :
    {S : Type 0} (env : Env S) (fuel : ℕ) (e : Exception) (w : World S)
    → let w' = (initialize_client_handler env fuel (raised e) w).1 in
      (w'.adapter ≡ w.adapter)
      × (w'.sent ≡ w.sent)
      × (w'.socket.recv_results ≡ w.socket.recv_results)
initialize_client_handler-untouched env fuel e w =
    let h =
      (unbuilt-Keeps env w.adapter w.sent w.socket.recv_results fuel e).kept w
        (record { adapter_is = refl; sent_is = refl; received_is = refl }) in
    (h.adapter_is, h.sent_is, h.received_is)
