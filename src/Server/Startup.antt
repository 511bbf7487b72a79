-- ===== src/Server/Startup.antt =====
-- The constructor of src/pop3sf/POP3SF.py, and what it calls of src/pop3sf/Auxiliaries.py: creating the
-- sockets and dropping the root privileges.
pub mod Privileges
use pop3sf.Prelude.{
  ℕ, ◌+◌, Bool, true, false, ◌&&◌, Option, none, some, List, [], ◌∷◌, ◌++◌, ◌==◌, if◌then◌else◌,
  map,
}
use pop3sf.Text.{Text}
use pop3sf.Adapter.{Result, ok, raised, runtime_error, other_exception, Exception, Action}
use pop3sf.Adapter.Actions.{pure, raise, lift, gets, modify, ◌>>=◌, ◌>>◌}
use pop3sf.Server.Sockets.{ServerSocketInfo}

-- The calls that change something outside of the program; a socket is its file descriptor.
pub data OsCall : Type 0 where
  umask : ℕ → OsCall
  makedirs chdir : Text → OsCall
  create_socket reuse_address v6_only : ℕ → OsCall
  bind : ℕ → Text → OsCall
  listen : ℕ → ℕ → OsCall
  load_cert_chain : Text → Option Text → OsCall
  wrap_socket register : ℕ → OsCall
  setgroups : List ℕ → OsCall
  setgid setuid : ℕ → OsCall

-- An element of what `getaddrinfo` returns.
pub record AddrInfo : Type 0 where
  pub is_inet6 : Bool
  pub address : Text

-- The operating system: how it answers a call after others, and what it looks up.
pub record OperatingSystem : Type 0 where
  pub answer : List OsCall → OsCall → Result (Unit {0})
  pub getaddrinfo : Text → Text → Result (List AddrInfo)
  pub getgrnam : Text → Result ℕ
  pub getpwnam : Text → Result ℕ
  pub geteuid : ℕ

-- The calls so far, and the next descriptor.
pub record Process : Type 0 where
  pub calls : List OsCall
  pub next_fd : ℕ

pub record DropRootPrivilegesInfo : Type 0 where
  pub drop_to_user : Text
  pub drop_to_group : Text

pub record StartOptions : Type 0 where
  pub working_directory : Option Text
  pub umask_option : Option ℕ
  pub drop_root_privileges : Option DropRootPrivilegesInfo
  pub listen_on : List ServerSocketInfo

-- a `TypeError`
abbrev pub type_error : Exception
type_error = other_exception 8

module _ (os : OperatingSystem) where
  unfoldable pub call_os : OsCall → Action Process Unit
  call_os c s = (os.answer s.calls c, record s { calls = s.calls ++ c ∷ [] })

  unfoldable pub set_umask : Option ℕ → Action Process Unit
  set_umask none = pure tt
  set_umask (some mask) = call_os (umask mask)

  unfoldable pub enter_directory : Option Text → Action Process Unit
  enter_directory none = pure tt
  enter_directory (some path) = do call_os (makedirs path); call_os (chdir path)

  unfoldable pub change_working_directory_and_umask : StartOptions → Action Process Unit
  change_working_directory_and_umask options = do
    set_umask options.umask_option
    enter_directory options.working_directory

  unfoldable pub create_plain_tcp_server_socket : AddrInfo → Action Process ℕ
  create_plain_tcp_server_socket addrinfo = do
    fd ← gets (λ s. s.next_fd)
    modify (λ s. record s { next_fd = s.next_fd + 1 })
    call_os (create_socket fd)
    call_os (reuse_address fd)
    if addrinfo.is_inet6 then call_os (v6_only fd) else pure tt
    call_os (bind fd addrinfo.address)
    call_os (listen fd 64)
    pure fd

  -- Without a certificate, which the constructor of the class does not allow, this is a `TypeError`.
  unfoldable pub load_certificates : Option Text → Option Text → Action Process Unit
  load_certificates none key = raise type_error
  load_certificates (some certificate_file) key = call_os (load_cert_chain certificate_file key)

  unfoldable pub wrap_plain_tcp_server_socket_in_tls :
      ℕ → Option Text → Option Text → Action Process ℕ
  wrap_plain_tcp_server_socket_in_tls fd certificate_file private_key_file = do
    load_certificates certificate_file private_key_file
    call_os (wrap_socket fd)
    pure fd

  unfoldable pub create_server_socket : ServerSocketInfo → AddrInfo → Action Process ℕ
  create_server_socket info_holder addrinfo = do
    fd ← create_plain_tcp_server_socket addrinfo
    if info_holder.use_tls
        then wrap_plain_tcp_server_socket_in_tls fd info_holder.tls_certificate_file
            info_holder.tls_private_key_file
        else pure fd

  unfoldable pub create_server_sockets :
      ServerSocketInfo → List AddrInfo → List ℕ → Action Process (List ℕ)
  create_server_sockets info_holder [] server_sockets = pure server_sockets
  create_server_sockets info_holder (addrinfo ∷ rest) server_sockets = do
    fd ← create_server_socket info_holder addrinfo
    create_server_sockets info_holder rest (server_sockets ++ fd ∷ [])

  unfoldable pub generate_server_sockets_from_info_holder :
      ServerSocketInfo → Action Process (List ℕ)
  generate_server_sockets_from_info_holder info_holder = do
    addrinfo_list ← lift (os.getaddrinfo info_holder.listen_address info_holder.listen_port)
    create_server_sockets info_holder addrinfo_list []

  unfoldable pub generate_from_all : List ServerSocketInfo → List ℕ → Action Process (List ℕ)
  generate_from_all [] server_sockets = pure server_sockets
  generate_from_all (info_holder ∷ rest) server_sockets = do
    more ← generate_server_sockets_from_info_holder info_holder
    generate_from_all rest (server_sockets ++ more)

  unfoldable pub require_sockets : List ℕ → Action Process (List ℕ)
  require_sockets [] = raise runtime_error
  require_sockets (fd ∷ fds) = pure (fd ∷ fds)

  unfoldable pub generate_server_sockets : StartOptions → Action Process (List ℕ)
  generate_server_sockets options = do
    server_sockets ← generate_from_all options.listen_on []
    require_sockets server_sockets

  unfoldable pub generate_poll_object_from_server_sockets : List ℕ → Action Process Unit
  generate_poll_object_from_server_sockets [] = pure tt
  generate_poll_object_from_server_sockets (fd ∷ fds) = do
    call_os (register fd)
    generate_poll_object_from_server_sockets fds

  unfoldable pub drop_root_privileges : DropRootPrivilegesInfo → Action Process Unit
  drop_root_privileges info = do
    new_gid ← lift (os.getgrnam info.drop_to_group)
    new_uid ← lift (os.getpwnam info.drop_to_user)
    call_os (setgroups [])
    call_os (setgid new_gid)
    call_os (setuid new_uid)

  unfoldable pub drop_root_privileges_if_needed :
      Option DropRootPrivilegesInfo → Action Process Unit
  drop_root_privileges_if_needed none = pure tt
  drop_root_privileges_if_needed (some info) =
      if os.geteuid == 0 then drop_root_privileges info else pure tt

  unfoldable pub open_server_sockets : StartOptions → Action Process (List ℕ)
  open_server_sockets options = do
    change_working_directory_and_umask options
    server_sockets ← generate_server_sockets options
    generate_poll_object_from_server_sockets server_sockets
    pure server_sockets

  -- `__init__`, which gives the sockets
  unfoldable pub initialize : StartOptions → Action Process (List ℕ)
  initialize options = do
    server_sockets ← open_server_sockets options
    drop_root_privileges_if_needed options.drop_root_privileges
    pure server_sockets
