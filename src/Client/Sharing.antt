-- ===== src/Client/Sharing.antt =====
-- Clients of one server: threads that run their commands in any order, over the list of the ensurer. Of
-- what threads share, a command uses only that list, and calls it at most once, so that it is one step.
pub mod Reading
use pop3sf.Prelude.{
  ℕ, ◌≡◌, ◌≢◌, ◌⊎◌, refl, sym, subst, ap, ◌∙◌, inl, inr, Bool, true, Option, none, some, List,
  Bool-cases, ◌==◌, ==_iff, if◌then◌else◌,
}
use pop3sf.Text.{Text}
use pop3sf.Ensurer.{Client, no_clients, remove_client}
use pop3sf.Ensurer.Exclusion.{IsLimited, add-IsLimited, remove-IsLimited}
use pop3sf.Session.{World, ConnectionInfo, new_client_status}
use pop3sf.Helper.{Env}
use pop3sf.Helper.Quiet.{IsQuiet}
use pop3sf.Helper.Login.{IsConsistent, IsLoggedInAs, anonymous, logged_in, registered}
use pop3sf.Helper.Sharing.{
  Has, IsKeptByLogin, Has-IsUnaffected, authentication-Has, registered-add, registered-remove,
  registered-reading,
}
use pop3sf.Commands.{handle_command}
use pop3sf.Commands.Effects.{handle_command-unaffected}
use pop3sf.Commands.Login.{handle_command-IsConsistent}
use pop3sf.Commands.Quiet.{handle_command-quiet}

-- The ensurer's list, and the threads that run, by their connections. The list in a thread's own world is
-- the one that it saw last.
pub record SharedServer (S : Type 0) : Type 0 where
  pub clients : List Client
  pub threads : ℕ → Option (World S)

abbrev pub update : {A : Type 0} → (ℕ → A) → ℕ → A → ℕ → A
update f i a j = if i == j then a else f j

abbrev pub sees : {S : Type 0} → World S → List Client → World S
sees w clients = record w { clients = clients }

module _ {S : Type 0} (env : Env S) where
  abbrev pub connect : ℕ → World S → SharedServer S → SharedServer S
  connect i w s = record s { threads = update s.threads i (some w) }

  abbrev pub run : ℕ → World S → Text → List Text → SharedServer S → SharedServer S
  run i w command args s =
      let w' = (handle_command env command args (sees w s.clients)).1 in
      record { clients = w'.clients; threads = update s.threads i (some w') }

  abbrev pub leave : ℕ → SharedServer S → SharedServer S
  leave i s = record { clients = remove_client i s.clients; threads = update s.threads i none }

  pub data ClientStep (s t : SharedServer S) : Type 0 where
    connected :
        (i : ℕ) (w : World S) (info : ConnectionInfo)
        → s.threads i ≡ none
        → info.connection_id ≡ i
        → w.status ≡ new_client_status info
        → t ≡ connect i w s
        → ClientStep s t
    commanded :
        (i : ℕ) (w : World S) (command : Text) (args : List Text)
        → s.threads i ≡ some w
        → t ≡ run i w command args s
        → ClientStep s t
    left : (i : ℕ) (w : World S) → s.threads i ≡ some w → t ≡ leave i s → ClientStep s t

  pub data ReachShared : SharedServer S → Type 0 where
    start : ReachShared (record { clients = no_clients; threads = λ i. none })
    later : {s t : SharedServer S} → ReachShared s → ClientStep s t → ReachShared t
