-- ===== src/Helper/Quiet.antt =====
-- What the methods of `AdapterHelperWrapper` never touch: the connection, the socket, what was sent.
use pop3sf.Prelude.{◌≡◌, refl, List}
use pop3sf.Text.{Text}
use pop3sf.Ensurer.{Client}
use pop3sf.Session.{World, update_clients}
use pop3sf.Session.Keeps.{Preserves, Preserves-update_clients, preserving}
use pop3sf.Helper.{Env, authentication_successful}
use pop3sf.Helper.Keeps.{IsAdapterFree}
use pop3sf.Helper.Unaffected.{IsUnaffected, entered-unaffected, login-unaffected}

-- A property that depends on the connection, the socket and the bytes sent alone.
pub record IsQuiet {S : Type 0} (P : World S → Type 0) : Type 0 where
  pub change :
      (v w : World S)
      → w.status.connection_info ≡ v.status.connection_info
      → w.socket ≡ v.socket
      → w.sent ≡ v.sent
      → w.closed ≡ v.closed
      → P v
      → P w

module _ {S : Type 0} {P : World S → Type 0} (quiet : IsQuiet P) where
  pub free : IsAdapterFree P
  free = record { change = λ w s. quiet.change w _ refl refl refl refl }

  pub quiet-IsUnaffected : IsUnaffected P
  quiet-IsUnaffected = record {
    adapter = free;
    status = λ w s same. quiet.change w _ same refl refl refl;
    slept = λ w n. quiet.change w _ refl refl refl refl;
  }

  clients-quiet : {A : Type 0} (f : List Client → List Client × A) → Preserves P (update_clients f)
  clients-quiet f = Preserves-update_clients f λ w. quiet.change w _ refl refl refl refl

module _ {S : Type 0} (env : Env S) {P : World S → Type 0} (quiet : IsQuiet P) where
  pub authentication-quiet :
      (username : Text) → Preserves P (authentication_successful env username)
  unfolding authentication_successful
  authentication-quiet username =
      search
        (
          preserving,
          clients-quiet quiet,
          entered-unaffected env (quiet-IsUnaffected quiet),
          login-unaffected env (quiet-IsUnaffected quiet),
        )
        depth 12
