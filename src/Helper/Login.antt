-- ===== src/Helper/Login.antt =====
-- Who a session is logged in as, and the step that logs it in.
use pop3sf.Prelude.{
  ℕ, ◌+◌, ◌≡◌, refl, inl, inr, Bool, true, false, not, ◌&&◌, ◌||◌, none, some, List, [], ◌∷◌, ◌++◌,
  arith, Bool-cases, ◌==◌, if◌then◌else◌,
}
use pop3sf.Text.{Text, text_eq}
use pop3sf.Text.Words.{text_eq_refl}
use pop3sf.Ensurer.{Client, any_conflict, add_client}
use pop3sf.Session.{World, modify, sleep, ◌>>=◌}
use pop3sf.Session.Keeps.{Preserves, Preserves-modify, Preserves-sleep, preserving, Leads}
use pop3sf.Helper.{
  Env, authentication_successful, login_successful, verify_login_credentials,
  perform_invalid_password_punishments,
}
use pop3sf.Helper.Keeps.{IsAdapterFree, call-free}

-- The ensurer has a session of this connection, user and mode.
abbrev pub registered : ℕ → Text → Bool → List Client → Bool
registered id user mode [] = false
registered id user mode (c ∷ cs) =
    (id == c.connection_id
      && text_eq user c.username
      && (if mode then c.read_only else not c.read_only))
    || registered id user mode cs

pub record IsLoggedInAs {S : Type 0} (user : Text) (mode : Bool) (w : World S) : Type 0 where
  pub authenticated : w.status.authenticated ≡ true
  pub username : w.status.username ≡ some user
  pub mode_is : w.status.read_only_mailbox_access ≡ mode
  pub in_ensurer : registered w.status.connection_info.connection_id user mode w.clients ≡ true

pub record IsAnonymous {S : Type 0} (w : World S) : Type 0 where
  pub authenticated : w.status.authenticated ≡ false
  pub username : w.status.username ≡ none

-- A session is anonymous, or logged in and registered with the ensurer under its name and mode.
pub data IsConsistent {S : Type 0} (w : World S) : Type 0 where
  anonymous : IsAnonymous w → IsConsistent w
  logged_in : (user : Text) (mode : Bool) → IsLoggedInAs user mode w → IsConsistent w

registered-append :
    (id : ℕ) (user : Text) (mode : Bool) (cs : List Client)
    → registered id user mode
        (cs ++ record { connection_id = id; username = user; read_only = mode } ∷ [])
      ≡ true
registered-append id user mode [] = ground (arith, text_eq_refl user)
registered-append id user mode (c ∷ cs) = ground (arith, registered-append id user mode cs)

module _ {S : Type 0} where
  pub IsLoggedInAs-free :
      (user : Text) (mode : Bool) → IsAdapterFree (IsLoggedInAs {S = S} user mode)
  IsLoggedInAs-free user mode = record {
    change = λ w s h. record {
      authenticated = h.authenticated;
      username = h.username;
      mode_is = h.mode_is;
      in_ensurer = h.in_ensurer;
    };
  }

  pub IsAnonymous-free : IsAdapterFree (IsAnonymous {S = S})
  IsAnonymous-free = record {
    change = λ w s h. record { authenticated = h.authenticated; username = h.username };
  }

module _ {S : Type 0} (env : Env S) where
  punishments-IsAnonymous : Preserves IsAnonymous (perform_invalid_password_punishments env)
  unfolding perform_invalid_password_punishments
  punishments-IsAnonymous = search (preserving, sleep-IsAnonymous, counting-IsAnonymous) depth 9
    where
      sleep-IsAnonymous : (n : ℕ) → Preserves (IsAnonymous {S = S}) (sleep n)
      sleep-IsAnonymous n =
          Preserves-sleep n λ w h. record { authenticated = h.authenticated; username = h.username }

      counting-IsAnonymous :
          (n : ℕ)
          → Preserves
              (IsAnonymous {S = S})
              (modify (λ s. record s { invalid_password_count = s.invalid_password_count + n }))
      counting-IsAnonymous n =
          Preserves-modify _
            λ w h. record { authenticated = h.authenticated; username = h.username }

  -- The credentials are checked and a failure punished, and nobody is logged in.
  pub verify-IsAnonymous :
      (username password : Text)
      → Preserves IsAnonymous (verify_login_credentials env username password)
  unfolding verify_login_credentials
  verify-IsAnonymous username password =
      search (preserving, call-free env IsAnonymous-free, punishments-IsAnonymous)

  -- The step that logs in: refused by the ensurer it changes nothing, and otherwise the session is
  -- logged in and registered, also if the adapter raises afterwards.
  pub authentication-IsConsistent :
      (user : Text) → Leads IsAnonymous IsConsistent (authentication_successful env user)
  unfolding authentication_successful login_successful ◌>>=◌ add_client
  authentication-IsConsistent user = record {
    at = λ w h. elim (Bool-cases (any_conflict user w.status.read_only_mailbox_access w.clients)) [
      | inl refused ↦
          rw refused (anonymous (record { authenticated = h.authenticated; username = h.username }))
      | inr admitted ↦ rw admitted (
          logged_in user w.status.read_only_mailbox_access (record {
            authenticated = refl;
            username = refl;
            mode_is = refl;
            in_ensurer =
                registered-append w.status.connection_info.connection_id user
                  w.status.read_only_mailbox_access w.clients;
          }))
    ];
  }
