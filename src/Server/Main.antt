-- ===== src/Server/Main.antt =====
-- src/pop3sf.py: constructing the server and starting its loop.
use pop3sf.Prelude.{ℕ, ◌≡◌, refl, Bool, Option, none, some, List, [], ◌∷◌, ◌++◌, All}
use pop3sf.Adapter.{Result, ok, raised}
use pop3sf.Settings.{Settings}
use pop3sf.Session.{ConnectionInfo}
use pop3sf.Server.{Server, Polled, new_server, start_server_loop}
use pop3sf.Server.Startup.{
  OperatingSystem, OsCall, setgroups, setgid, setuid, Process, StartOptions, DropRootPrivilegesInfo,
  initialize,
}
use pop3sf.Server.Startup.Privileges.{IsUnprivileged, initialize-drops_last}

-- How the script ends, what calls were made by then, and the server's state if its loop was started.
pub record Run : Type 0 where
  pub result : Result (Unit {0})
  pub process : Process
  pub server : Option Server

module _ (settings : Settings) (is_alive : ℕ → ConnectionInfo → Bool) (polls : List Polled) where
  unfoldable pub start_with : Result (List ℕ) × Process → Run
  start_with (raised e, p) = record { result = raised e; process = p; server = none }
  start_with (ok server_sockets, p) =
      let (r, s) = start_server_loop settings is_alive polls (new_server server_sockets) in
      record { result = r; process = p; server = some s }

  unfoldable pub main : OperatingSystem → StartOptions → Process → Run
  unfolding start_with
  main os options p = start_with (initialize os options p)

  -- the server's loop was started on sockets that the constructor gave
  start_with-server :
      (x : Result (List ℕ) × Process) (s : Server)
      → (start_with x).server ≡ some s
      → (fds : List ℕ) × (x ≡ (ok fds, (start_with x).process))
  unfolding start_with
  start_with-server (raised e, p) s h = cc
  start_with-server (ok fds, p) s h = (fds, refl)

  -- If a user and a group are set, which the system knows, and the effective user is root, then, if the
  -- script starts the server's loop at all, it has made before it calls that do not change privileges, and
  -- after them, last, has dropped the supplementary groups, then the group, then the user: no
  -- connection is accepted with root privileges.
  pub main-drops_first :
      (os : OperatingSystem) (info : DropRootPrivilegesInfo) (gid uid : ℕ)
      → os.getgrnam info.drop_to_group ≡ ok gid
      → os.getpwnam info.drop_to_user ≡ ok uid
      → (options : StartOptions) (p : Process) (s : Server)
      → options.drop_root_privileges ≡ some info
      → os.geteuid ≡ 0
      → (main os options p).server ≡ some s
      → (before : List OsCall) × ((main os options p).process.calls
          ≡ p.calls ++ (before ++ setgroups [] ∷ setgid gid ∷ setuid uid ∷ []))
        × All IsUnprivileged before
  unfolding main
  main-drops_first os info gid uid group user options p s wanted root h =
      let (fds, e) = start_with-server (initialize os options p) s h in
      initialize-drops_last os info gid uid group user options p (main os options p).process fds
        wanted root e
