-- ===== src/Tests/Databases.antt =====
-- Theorems about the database adapters at a database with one user, whose identifier is 5.
use pop3sf.Adapters.Mysql.Users.{generate_multiuser_index}
use pop3sf.Text.Encoding.{encode}
use pop3sf.Prelude.{
  ◌-◌, ℕ, ◌≡◌, refl, true, false, none, some, List, [], ◌∷◌, map, ◌==◌, if◌then◌else◌,
}
use pop3sf.Text.{Text, text, text_eq, strip, split}
use pop3sf.Adapter.{ok}
use pop3sf.Adapters.{unmarked, check_bcrypt_password}
use pop3sf.Adapters.Mysql.{Database, mysql_login_successful}
use pop3sf.Adapters.Mysql.Users.{MultiState, verify_multiuser}
use pop3sf.Adapters.Mysql.Login.{login_multiuser-gets_own}
use pop3sf.Settings.{defaults}
use pop3sf.Session.{World}
use pop3sf.Client.{handle_lines}
use pop3sf.Adapters.{Credentials}
use pop3sf.Adapters.Mysql.{MysqlState}
use pop3sf.Adapters.Mysql.Users.{singleuser, multiuser}
use pop3sf.Adapters.Mysql.Unchanged.{ClosedUnderSelecting, mysql_env, handle_lines-keeps_database}
use pop3sf.Tests.Samples.{sample_library, scramble, sample_unicode, sample_socket, logged_in_status}

abbrev sample_database : Database sample_library (Unit {0})
sample_database = record {
  DateTime = ℕ;
  select_message = λ id d. (ok none, d);
  execute_delete = λ id d. (ok tt, d);
  select_ids = λ d. (ok [], d);
  select_ids_of_user = λ id d. (ok (if id == 5 then 1 ∷ 2 ∷ [] else []), d);
  select_user = λ username d.
      (ok (if text_eq username (text "ann") then (5, scramble (text "pw")) ∷ [] else []), d);
  commit = λ d. (ok tt, d);
  close = λ d. (ok tt, d);
  struct_time = λ t. t;
}

abbrev connected : MultiState sample_library sample_database
connected = record { mysql_connection = tt; message_index = []; own = none }

abbrev let_in : MultiState sample_library sample_database
let_in = record connected { own = some 5 }

abbrev logged_in : MultiState sample_library sample_database
logged_in = record let_in { message_index = map unmarked (1 ∷ 2 ∷ []) }

login_multiuser-gets_own_example :
    (id : ℕ) × (hash : Text) × (ids : List ℕ) × ((sample_database.select_user (text "ann") tt).0
      ≡ ok ((id, hash) ∷ []))
    × (check_bcrypt_password sample_library (text "pw") hash ≡ ok true)
    × ((sample_database.select_ids_of_user id tt).0 ≡ ok ids)
    × (logged_in.message_index ≡ map unmarked ids)
unfolding verify_multiuser text_eq text check_bcrypt_password encode mysql_login_successful
    generate_multiuser_index
login_multiuser-gets_own_example =
    login_multiuser-gets_own sample_library sample_database (text "ann") (text "pw") false connected
      let_in logged_in refl refl

-- A logged-in session with one message, on a database with four rows.
abbrev at : {U : Type 0} → U → World (MysqlState ℕ U)
at own = record {
  status = logged_in_status false;
  adapter = record { mysql_connection = 4; message_index = map unmarked (1 ∷ []); own = own };
  clients = [];
  socket = sample_socket;
  sent = [];
  closed = false;
  slept = 0;
  timeout = none;
}

-- A database that counts its rows: deleting takes one away.
abbrev counting_database : Database sample_library ℕ
counting_database = record {
  DateTime = ℕ;
  select_message = λ id d. (ok none, d);
  execute_delete = λ id d. (ok tt, d - 1);
  select_ids = λ d. (ok (1 ∷ 2 ∷ []), d);
  select_ids_of_user = λ id d. (ok [], d);
  select_user = λ username d. (ok [], d);
  commit = λ d. (ok tt, d);
  close = λ d. (ok tt, d);
  struct_time = λ t. t;
}

HasFour-ClosedUnderSelecting : ClosedUnderSelecting sample_library counting_database (λ d. d ≡ 4)
HasFour-ClosedUnderSelecting = record {
  message = λ id d h. h;
  ids = λ d h. h;
  ids_of_user = λ id d h. h;
  user = λ username d h. h;
}

abbrev ann : Credentials
ann = record { username = text "ann"; password_bcrypt = text "pw" }

abbrev lines : List Text
lines = text "DELE 1" ∷ text "bogus" ∷ []

handle_lines-keeps_database_example :
    ((handle_lines
        (mysql_env sample_library counting_database defaults sample_unicode
          (singleuser sample_library counting_database))
        lines
        (at ann)).1.adapter.mysql_connection
      ≡ 4)
    × ((handle_lines
          (mysql_env sample_library counting_database defaults sample_unicode
            (multiuser sample_library counting_database))
          lines
          (at (some 5))).1.adapter.mysql_connection
        ≡ 4)
unfolding text_eq text strip split
handle_lines-keeps_database_example =
    let (single, multi) =
      handle_lines-keeps_database sample_library counting_database defaults sample_unicode
        (λ d. d ≡ 4) HasFour-ClosedUnderSelecting lines (refl, (refl, tt)) in
    (single (at ann) refl, multi (at (some 5)) refl)
