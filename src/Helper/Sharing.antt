-- ===== src/Helper/Sharing.antt =====
-- What a command can do to the ensurer's list, which all threads share: src/pop3sf/ClientStatusHolder.py
-- adds the session to it, and nothing else changes it.
use pop3sf.Prelude.{ℕ, ◌≤◌, ◌≡◌, ◌≢◌, refl, Bool, true, false, List, [], ◌∷◌, ◌++◌, arith}
use pop3sf.Text.{Text}
use pop3sf.Ensurer.{Client, add_client, remove_client}
use pop3sf.Ensurer.Exclusion.{IsLimited, sessions}
use pop3sf.Session.{World, update_clients}
use pop3sf.Session.Keeps.{Preserves, Preserves-update_clients, preserving}
use pop3sf.Helper.{Env, authentication_successful}
use pop3sf.Helper.Unaffected.{IsUnaffected, entered-unaffected, login-unaffected}
use pop3sf.Helper.Login.{registered}

-- The list has the property.
pub record Has {S : Type 0} (R : List Client → Type 0) (w : World S) : Type 0 where
  pub list : R w.clients

-- Any login keeps it.
abbrev pub IsKeptByLogin : (List Client → Type 0) → Type 0
IsKeptByLogin R =
    (id : ℕ) (user : Text) (mode : Bool) (cs : List Client)
    → R cs
    → R (add_client id user mode cs).0

module _ {S : Type 0} (env : Env S) (R : List Client → Type 0) (adds : IsKeptByLogin R) where
  pub Has-IsUnaffected : IsUnaffected {S = S} (Has R)
  Has-IsUnaffected = record {
    adapter = record { change = λ w s h. record { list = h.list } };
    status = λ w s same h. record { list = h.list };
    slept = λ w n h. record { list = h.list };
  }

  adding-Has :
      (id : ℕ) (user : Text) (mode : Bool)
      → Preserves {S = S} (Has R) (update_clients (add_client id user mode))
  adding-Has id user mode =
      Preserves-update_clients _ λ w h. record { list = adds id user mode w.clients h.list }

  pub authentication-Has : (user : Text) → Preserves (Has R) (authentication_successful env user)
  unfolding authentication_successful
  authentication-Has user =
      search
        (
          preserving,
          adding-Has,
          entered-unaffected env Has-IsUnaffected,
          login-unaffected env Has-IsUnaffected,
        )
        depth 12

registered-append_more :
    (j : ℕ) (name : Text) (mode : Bool) (cs ds : List Client)
    → registered j name mode cs ≡ true
    → registered j name mode (cs ++ ds) ≡ true
registered-append_more j name mode [] ds h = cc
registered-append_more j name mode (c ∷ cs) ds h =
    ground (arith, registered-append_more j name mode cs ds)

pub registered-add :
    (j : ℕ) (name : Text) (mode : Bool) (id : ℕ) (user : Text) (read_only : Bool) (cs : List Client)
    → registered j name mode cs ≡ true
    → registered j name mode (add_client id user read_only cs).0 ≡ true
unfolding add_client
registered-add j name mode id user read_only cs h = ground (
  arith,
  registered-append_more j name mode cs
      (record { connection_id = id; username = user; read_only = read_only } ∷ []),
)

pub registered-remove :
    (j : ℕ) (name : Text) (mode : Bool) (id : ℕ) (cs : List Client)
    → j ≢ id
    → registered j name mode cs ≡ true
    → registered j name mode (remove_client id cs) ≡ true
unfolding remove_client
registered-remove j name mode id [] n h = h
registered-remove j name mode id (c ∷ cs) n h =
    ground (arith, registered-remove j name mode id cs n)

registered-sessions :
    (i : ℕ) (user : Text) (mode : Bool) (cs : List Client)
    → registered i user mode cs ≡ true
    → 1 ≤ sessions user mode cs
registered-sessions i user mode [] h = cc
registered-sessions i user mode (c ∷ cs) h = ground (arith, registered-sessions i user mode cs)

two_registered-sessions :
    (i j : ℕ) (user : Text) (mode : Bool) (cs : List Client)
    → i ≢ j
    → registered i user mode cs ≡ true
    → registered j user mode cs ≡ true
    → 2 ≤ sessions user mode cs
two_registered-sessions i j user mode [] n h k = cc
two_registered-sessions i j user mode (c ∷ cs) n h k = ground (
  arith,
  two_registered-sessions i j user mode cs n,
  registered-sessions i user mode cs,
  registered-sessions j user mode cs,
)

-- Two connections that are registered for one user, of whom the list is limited, both only read.
pub registered-reading :
    (i j : ℕ) (user : Text) (mode mode' : Bool) (cs : List Client)
    → i ≢ j
    → IsLimited user cs
    → registered i user mode cs ≡ true
    → registered j user mode' cs ≡ true
    → (mode ≡ true) × (mode' ≡ true)
registered-reading i j user true true cs n l h k = (refl, refl)
registered-reading i j user true false cs n l h k =
    absurd
      (ground (arith, registered-sessions i user true cs h, registered-sessions j user false cs k))
registered-reading i j user false true cs n l h k =
    absurd
      (ground (arith, registered-sessions i user false cs h, registered-sessions j user true cs k))
registered-reading i j user false false cs n l h k =
    absurd (ground (arith, two_registered-sessions i j user false cs n h k))
