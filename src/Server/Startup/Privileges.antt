-- ===== src/Server/Startup/Privileges.antt =====
-- That the root privileges are dropped last, after the sockets are bound.
use pop3sf.Prelude.{
  ℕ, ◌+◌, ◌≡◌, refl, sym, ap, ◌∙◌, subst, Bool, true, false, Option, none, some, List, [], ◌∷◌,
  ◌++◌, append_assoc, append-nil, All, if◌then◌else◌,
}
use pop3sf.Text.{Text}
use pop3sf.Adapter.{Exception, Result, ok, raised, Action}
use pop3sf.Adapter.Actions.{pure, raise, lift, gets, modify, and_then, ◌>>=◌}
use pop3sf.Server.Sockets.{ServerSocketInfo}
use pop3sf.Server.Startup.{
  OsCall, umask, makedirs, chdir, load_certificates, register, setgroups, setgid, setuid, AddrInfo,
  OperatingSystem, Process, DropRootPrivilegesInfo, StartOptions, call_os, set_umask,
  enter_directory, change_working_directory_and_umask, create_plain_tcp_server_socket,
  wrap_plain_tcp_server_socket_in_tls, create_server_socket, create_server_sockets,
  generate_server_sockets_from_info_holder, generate_from_all, require_sockets,
  generate_server_sockets, generate_poll_object_from_server_sockets, drop_root_privileges,
  drop_root_privileges_if_needed, open_server_sockets, initialize,
}

-- Whether the call changes the user or the groups of the process.
abbrev pub changes_privileges : OsCall → Bool
changes_privileges (setgroups groups) = true
changes_privileges (setgid gid) = true
changes_privileges (setuid uid) = true
changes_privileges _ = false

abbrev pub IsUnprivileged : OsCall → Type 0
IsUnprivileged c = changes_privileges c ≡ false

All-append :
    (xs ys : List OsCall)
    → All IsUnprivileged xs
    → All IsUnprivileged ys
    → All IsUnprivileged (xs ++ ys)
All-append [] ys h k = k
All-append (x ∷ xs) ys h k = (h.0, All-append xs ys h.1 k)

-- The action only adds calls that do not change privileges, whether it returns or raises.
pub record Adds {A : Type 0} (m : Action Process A) : Type 0 where
  pub added :
      (s : Process)
      → (more : List OsCall) × ((m s).1.calls ≡ s.calls ++ more) × All IsUnprivileged more

module _ {A : Type 0} where
  Adds-pure : (a : A) → Adds (pure a)
  Adds-pure a = record { added = λ s. ([], sym (append-nil s.calls), tt) }

  Adds-raise : (e : Exception) → Adds (raise {A = A} e)
  Adds-raise e = record { added = λ s. ([], sym (append-nil s.calls), tt) }

  Adds-lift : (r : Result A) → Adds (lift r)
  Adds-lift r = record { added = λ s. ([], sym (append-nil s.calls), tt) }

  Adds-gets : (f : Process → A) → Adds (gets f)
  Adds-gets f = record { added = λ s. ([], sym (append-nil s.calls), tt) }

  Adds-if : (b : Bool) (m n : Action Process A) → Adds m → Adds n → Adds (if b then m else n)
  Adds-if true m n h k = h
  Adds-if false m n h k = k

Adds-next_fd : Adds (modify (λ (s : Process). record s { next_fd = s.next_fd + 1 }))
Adds-next_fd = record { added = λ s. ([], sym (append-nil s.calls), tt) }

module _ {A B : Type 0} where
  Adds-and_then :
      (r : Result A) (f : A → Action Process B) (s : Process)
      → ((a : A) → Adds (f a))
      → (more : List OsCall) × ((and_then r f s).1.calls ≡ s.calls ++ more)
        × All IsUnprivileged more
  Adds-and_then (ok a) f s h = (h a).added s
  Adds-and_then (raised e) f s h = ([], sym (append-nil s.calls), tt)

  Adds-bind :
      (m : Action Process A) (f : A → Action Process B)
      → Adds m
      → ((a : A) → Adds (f a))
      → Adds (m >>= f)
  Adds-bind m f h k = record {
    added = λ s.
        let (first, e, u) = h.added s in
        let (rest, d, v) = Adds-and_then (m s).0 f (m s).1 k in
        (
          first ++ rest,
          d ∙ ap (λ calls. calls ++ rest) e ∙ append_assoc s.calls first rest,
          All-append first rest u v,
        );
  }

ruleset adds_rules = (Adds-pure, Adds-gets, Adds-next_fd, Adds-raise, Adds-lift, Adds-if, Adds-bind)

module _ (os : OperatingSystem) where
  call_os-Adds : (c : OsCall) → IsUnprivileged c → Adds (call_os os c)
  unfolding call_os
  call_os-Adds c u = record { added = λ s. (c ∷ [], refl, (u, tt)) }

  set_umask-Adds : (mask : Option ℕ) → Adds (set_umask os mask)
  unfolding set_umask
  set_umask-Adds none = Adds-pure tt
  set_umask-Adds (some mask) = call_os-Adds (umask mask) refl

  enter_directory-Adds : (path : Option Text) → Adds (enter_directory os path)
  unfolding enter_directory
  enter_directory-Adds none = Adds-pure tt
  enter_directory-Adds (some path) =
      Adds-bind (call_os os (makedirs path)) (λ u. call_os os (chdir path)) (call_os-Adds _ refl)
        (λ u. call_os-Adds _ refl)

  prepare-Adds : (options : StartOptions) → Adds (change_working_directory_and_umask os options)
  unfolding change_working_directory_and_umask
  prepare-Adds options = search (adds_rules, set_umask-Adds, enter_directory-Adds)

  create_plain-Adds : (addrinfo : AddrInfo) → Adds (create_plain_tcp_server_socket os addrinfo)
  unfolding create_plain_tcp_server_socket
  create_plain-Adds addrinfo = search (adds_rules, call_os-Adds) depth 12

  load_certificates-Adds :
      (certificate key : Option Text) → Adds (load_certificates os certificate key)
  unfolding load_certificates
  load_certificates-Adds none key = search adds_rules
  load_certificates-Adds (some certificate) key = search (adds_rules, call_os-Adds)

  wrap-Adds :
      (fd : ℕ) (certificate key : Option Text)
      → Adds (wrap_plain_tcp_server_socket_in_tls os fd certificate key)
  unfolding wrap_plain_tcp_server_socket_in_tls
  wrap-Adds fd certificate key = search (adds_rules, call_os-Adds, load_certificates-Adds)

  create_one-Adds :
      (info_holder : ServerSocketInfo) (addrinfo : AddrInfo)
      → Adds (create_server_socket os info_holder addrinfo)
  unfolding create_server_socket
  create_one-Adds info_holder addrinfo = search (adds_rules, create_plain-Adds, wrap-Adds)

  create_all-Adds :
      (info_holder : ServerSocketInfo) (addrinfos : List AddrInfo) (fds : List ℕ)
      → Adds (create_server_sockets os info_holder addrinfos fds)
  unfolding create_server_sockets
  create_all-Adds info_holder [] fds = search adds_rules
  create_all-Adds info_holder (addrinfo ∷ rest) fds =
      search (adds_rules, create_one-Adds, create_all-Adds info_holder rest)

  from_info_holder-Adds :
      (info_holder : ServerSocketInfo)
      → Adds (generate_server_sockets_from_info_holder os info_holder)
  unfolding generate_server_sockets_from_info_holder
  from_info_holder-Adds info_holder = search (adds_rules, create_all-Adds)

  from_all-Adds :
      (holders : List ServerSocketInfo) (fds : List ℕ) → Adds (generate_from_all os holders fds)
  unfolding generate_from_all
  from_all-Adds [] fds = search adds_rules
  from_all-Adds (holder ∷ rest) fds = search (adds_rules, from_info_holder-Adds, from_all-Adds rest)

  require-Adds : (fds : List ℕ) → Adds (require_sockets os fds)
  unfolding require_sockets
  require-Adds [] = search adds_rules
  require-Adds (fd ∷ fds) = search adds_rules

  generate-Adds : (options : StartOptions) → Adds (generate_server_sockets os options)
  unfolding generate_server_sockets
  generate-Adds options = search (adds_rules, from_all-Adds, require-Adds)

  poll_object-Adds : (fds : List ℕ) → Adds (generate_poll_object_from_server_sockets os fds)
  unfolding generate_poll_object_from_server_sockets
  poll_object-Adds [] = search adds_rules
  poll_object-Adds (fd ∷ fds) =
      Adds-bind (call_os os (register fd)) (λ u. generate_poll_object_from_server_sockets os fds)
        (call_os-Adds _ refl) (λ u. poll_object-Adds fds)

  open-Adds : (options : StartOptions) → Adds (open_server_sockets os options)
  unfolding open_server_sockets
  open-Adds options = search (adds_rules, prepare-Adds, generate-Adds, poll_object-Adds)

  -- What follows an action that returned nothing, when both return.
  then_returned :
      {A : Type 0} (r : Result Unit) (f : Unit → Action Process A) (s t : Process) (a : A)
      → and_then r f s ≡ (ok a, t)
      → f tt s ≡ (ok a, t)
  then_returned (ok u) f s t a h = h
  then_returned (raised e) f s t a h = cc

  pure_returned :
      (r : Result Unit) (fds opened : List ℕ) (s t : Process)
      → and_then r (λ u. pure opened) s ≡ (ok fds, t)
      → ◌≡◌ {A = Result Unit × Process} (r, s) (ok tt, t)
  pure_returned (ok u) fds opened s t h = cc
  pure_returned (raised e) fds opened s t h = cc

  called : OsCall → Process → Process
  called c s = record s { calls = s.calls ++ c ∷ [] }

  module _ (info : DropRootPrivilegesInfo) (gid uid : ℕ)
      (group : os.getgrnam info.drop_to_group ≡ ok gid)
      (user : os.getpwnam info.drop_to_user ≡ ok uid) where
    abbrev dropping : List OsCall
    dropping = setgroups [] ∷ setgid gid ∷ setuid uid ∷ []

    drop-calls :
        (s t : Process)
        → drop_root_privileges os info s ≡ (ok tt, t)
        → t.calls ≡ s.calls ++ dropping
    unfolding drop_root_privileges call_os called
    drop-calls s t h =
        let h1 = rw (group, user) at h in
        let h2 =
          then_returned _ (λ u. call_os os (setgid gid) >>= λ u. call_os os (setuid uid))
            (called (setgroups []) s) t tt h1 in
        let h3 =
          then_returned _ (λ u. call_os os (setuid uid))
            (called (setgid gid) (called (setgroups []) s)) t tt h2 in
        sym (ap (λ x. x.1.calls) h3)
        ∙ append_assoc (s.calls ++ setgroups [] ∷ []) (setgid gid ∷ []) (setuid uid ∷ [])
        ∙ append_assoc s.calls (setgroups [] ∷ []) (setgid gid ∷ setuid uid ∷ [])

    -- If a user and a group are set, which the system knows, and the effective user is root, then the
    -- constructor, if it returns, has made calls that do not change privileges, and after them, last, has
    -- dropped the supplementary groups, then the group, then the user.
    pub initialize-drops_last :
        (options : StartOptions) (s t : Process) (fds : List ℕ)
        → options.drop_root_privileges ≡ some info
        → os.geteuid ≡ 0
        → initialize os options s ≡ (ok fds, t)
        → (before : List OsCall) × (t.calls ≡ s.calls ++ (before ++ dropping))
          × All IsUnprivileged before
    unfolding initialize drop_root_privileges_if_needed
    initialize-drops_last options s t fds wanted root h =
        let (before, e, u) = (open-Adds options).added s in
        let dropped =
          opened_first (open_server_sockets os options s).0 (open_server_sockets os options s).1
            h in
        (
          before,
          drop-calls (open_server_sockets os options s).1 t dropped
              ∙ ap (λ calls. calls ++ dropping) e
              ∙ append_assoc s.calls before dropping,
          u,
        )
      where
        needed :
            drop_root_privileges_if_needed os options.drop_root_privileges
            ≡ drop_root_privileges os info
        needed = rw (wanted, root) refl

        opened_first :
            (r : Result (List ℕ)) (s' : Process)
            → and_then r
                (λ opened. drop_root_privileges_if_needed os options.drop_root_privileges >>= λ u.
                  pure opened)
                s'
              ≡ (ok fds, t)
            → drop_root_privileges os info s' ≡ (ok tt, t)
        opened_first (ok opened) s' k =
            subst (λ m. m s' ≡ (ok tt, t)) needed
              (pure_returned (drop_root_privileges_if_needed os options.drop_root_privileges s').0
                fds opened (drop_root_privileges_if_needed os options.drop_root_privileges s').1 t
                k)
        opened_first (raised e) s' k = cc
