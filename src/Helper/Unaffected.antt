-- ===== src/Helper/Unaffected.antt =====
-- What depends neither on the adapter, nor on the time slept, nor on attributes of the status other than
-- the connection: most methods of `AdapterHelperWrapper` keep it.
use pop3sf.Prelude.{ℕ, ◌+◌, ◌≡◌, refl, some, none, true}
use pop3sf.Text.{Text}
use pop3sf.Session.{ClientStatus, World, modify, sleep}
use pop3sf.Session.Keeps.{Preserves, Preserves-modify, Preserves-sleep, preserving}
use pop3sf.Helper.{
  Env, login_successful, verify_login_credentials, perform_invalid_password_punishments,
}
use pop3sf.Helper.Keeps.{IsAdapterFree, call-free}

pub record IsUnaffected {S : Type 0} (P : World S → Type 0) : Type 0 where
  pub adapter : IsAdapterFree P
  pub status :
      (w : World S) (s : ClientStatus)
      → s.connection_info ≡ w.status.connection_info
      → P w
      → P (record w { status = s })
  pub slept : (w : World S) (n : ℕ) → P w → P (record w { slept = n })

module _ {S : Type 0} {P : World S → Type 0} (unaffected : IsUnaffected P) where
  pub modify-unaffected :
      (f : ClientStatus → ClientStatus)
      → ((s : ClientStatus) → (f s).connection_info ≡ s.connection_info)
      → Preserves P (modify f)
  modify-unaffected f same =
      Preserves-modify f λ w. unaffected.status w (f w.status) (same w.status)

  sleep-unaffected : (n : ℕ) → Preserves P (sleep n)
  sleep-unaffected n = Preserves-sleep n λ w. unaffected.slept w (w.slept + n)

module _ {S : Type 0} (env : Env S) {P : World S → Type 0} (unaffected : IsUnaffected P) where
  counting-unaffected :
      Preserves P
        (modify {S = S} (λ s. record s { invalid_password_count = s.invalid_password_count + 1 }))
  counting-unaffected = modify-unaffected unaffected _ (λ s. refl)

  punishments-unaffected : Preserves P (perform_invalid_password_punishments env)
  unfolding perform_invalid_password_punishments
  punishments-unaffected =
      search (preserving, sleep-unaffected unaffected, counting-unaffected) depth 9

  pub verify-unaffected :
      (username password : Text) → Preserves P (verify_login_credentials env username password)
  unfolding verify_login_credentials
  verify-unaffected username password =
      search (preserving, call-free env unaffected.adapter, punishments-unaffected)

  pub login-unaffected : (username : Text) → Preserves P (login_successful env username)
  unfolding login_successful
  login-unaffected username = search (preserving, call-free env unaffected.adapter)

  pub entered-unaffected :
      (user : Text)
      → Preserves P (
          modify {S = S} (λ s. record s {
            authenticated = true;
            username = some user;
            authorization_state_username = none;
          }))
  entered-unaffected user = modify-unaffected unaffected _ (λ s. refl)
