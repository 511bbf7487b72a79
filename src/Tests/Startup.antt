-- ===== src/Tests/Startup.antt =====
-- Theorems about starting the server, on a system where all calls succeed.
use pop3sf.Prelude.{◌≡◌, refl, ◌++◌, true, false, none, some, List, [], ◌∷◌, All}
use pop3sf.Text.{text}
use pop3sf.Adapter.{ok}
use pop3sf.Server.Startup.{
  OsCall, setgroups, setgid, setuid, OperatingSystem, Process, DropRootPrivilegesInfo, StartOptions,
  initialize, open_server_sockets, change_working_directory_and_umask, set_umask, enter_directory,
  call_os, generate_server_sockets, generate_from_all, generate_server_sockets_from_info_holder,
  create_server_sockets, create_server_socket, create_plain_tcp_server_socket,
  wrap_plain_tcp_server_socket_in_tls, load_certificates, require_sockets,
  generate_poll_object_from_server_sockets, drop_root_privileges_if_needed, drop_root_privileges,
}
use pop3sf.Server.Startup.Privileges.{IsUnprivileged}
use pop3sf.Server.{new_server, start_server_loop}
use pop3sf.Server.Main.{Run, start_with, main, main-drops_first}
use pop3sf.Settings.{defaults}

abbrev willing : OperatingSystem
willing = record {
  answer = λ calls c. ok tt;
  getaddrinfo = λ address port. ok (
      record { is_inet6 = false; address = address }
      ∷ record { is_inet6 = true; address = address }
      ∷ []);
  getgrnam = λ name. ok 65534;
  getpwnam = λ name. ok 65533;
  geteuid = 0;
}

abbrev to_nobody : DropRootPrivilegesInfo
to_nobody = record { drop_to_user = text "nobody"; drop_to_group = text "nogroup" }

abbrev options : StartOptions
options = record {
  working_directory = some (text "working_dir/");
  umask_option = none;
  drop_root_privileges = some to_nobody;
  listen_on =
      record {
        listen_address = text "localhost";
        listen_port = text "8995";
        use_tls = true;
        tls_certificate_file = some (text "certificate.crt");
        tls_private_key_file = some (text "private_key.key");
      }
      ∷ [];
}

abbrev fresh : Process
fresh = record { calls = []; next_fd = 3 }

abbrev started : Run
started = main defaults (λ t c. true) [] willing options fresh

main-drops_first_example :
    (before : List OsCall) × (started.process.calls
      ≡ [] ++ (before ++ setgroups [] ∷ setgid 65534 ∷ setuid 65533 ∷ []))
    × All IsUnprivileged before
unfolding main start_with initialize open_server_sockets change_working_directory_and_umask
    set_umask enter_directory call_os generate_server_sockets generate_from_all
    generate_server_sockets_from_info_holder create_server_sockets create_server_socket
    create_plain_tcp_server_socket wrap_plain_tcp_server_socket_in_tls load_certificates
    require_sockets generate_poll_object_from_server_sockets drop_root_privileges_if_needed
    drop_root_privileges start_server_loop
main-drops_first_example =
    main-drops_first defaults (λ t c. true) [] willing to_nobody 65534 65533 refl refl options fresh
      (new_server (3 ∷ 4 ∷ [])) refl refl refl
