-- ===== src/Adapters/Mysql/Unchanged.antt =====
-- When the database adapters change the database.
use pop3sf.Prelude.{All, ℕ, ◌≡◌, Bool, true, false, Option, some, none, List, [], ◌∷◌}
use pop3sf.Text.{Text}
use pop3sf.Text.Decimal.{Unicode}
use pop3sf.Settings.{Settings}
use pop3sf.Adapter.{Action, default_read_only_mode_allowed}
use pop3sf.Adapter.Stays.{Stays, Stays-modify, staying}
use pop3sf.Session.{World}
use pop3sf.Helper.{Env}
use pop3sf.Helper.Inside.{ClosedUnderEntering, ClosedUnderMarking}
use pop3sf.Client.{handle_lines}
use pop3sf.Client.WithoutQuit.{asks_to_quit, handle_lines-without_quit}
use pop3sf.Adapters.{Library, Marked, Credentials}
use pop3sf.Adapters.Mysql.{
  Database, MysqlState, Subclass, on_connection, mysql_adapter, mysql_login_successful,
  mysql_message_content, mark_in_index,
}
use pop3sf.Adapters.Mysql.Users.{
  generate_singleuser_index, verify_singleuser, singleuser, index_of_user, generate_multiuser_index,
  remember_user, check_user, verify_multiuser, multiuser,
}

-- The statements that select do not leave `Q`.
pub record ClosedUnderSelecting (library : Library) {D : Type 0} (database : Database library D)
    (Q : D → Type 0) : Type 0 where
  pub message : (id : ℕ) (d : D) → Q d → Q (database.select_message id d).1
  pub ids : (d : D) → Q d → Q (database.select_ids d).1
  pub ids_of_user : (id : ℕ) (d : D) → Q d → Q (database.select_ids_of_user id d).1
  pub user : (username : Text) (d : D) → Q d → Q (database.select_user username d).1

-- The database is in `Q`.
abbrev HasDatabaseIn : {D U : Type 0} → (D → Type 0) → MysqlState D U → Type 0
HasDatabaseIn Q s = Q s.mysql_connection

on_connection-Stays :
    {D U A : Type 0} {Q : D → Type 0} (action : Action D A)
    → ((d : D) → Q d → Q (action d).1)
    → Stays (HasDatabaseIn {U = U} Q) (on_connection action)
on_connection-Stays action k = record { stays = λ s h. k s.mysql_connection h }

module _ (library : Library) {D U : Type 0} (database : Database library D) {Q : D → Type 0}
    (closed : ClosedUnderSelecting library database Q) (subclass : Subclass D U) where
  abbrev Keeps : {A : Type 0} → Action (MysqlState D U) A → Type 0
  Keeps m = Stays (HasDatabaseIn Q) m

  select-Keeps : (id : ℕ) → Keeps (on_connection (database.select_message id))
  select-Keeps id = on_connection-Stays _ (closed.message id)

  content-Keeps :
      (m : Option (Marked ℕ)) → Keeps (mysql_message_content library database subclass m)
  unfolding mysql_message_content
  content-Keeps none = search staying
  content-Keeps (some m) = search (staying, select-Keeps)

  mark-Keeps : (i : ℕ) → Keeps (mark_in_index library database subclass i)
  unfolding mark_in_index
  mark-Keeps i = search (staying, Stays-modify)

  mysql-ClosedUnderMarking :
      ClosedUnderMarking (mysql_adapter library database subclass) (HasDatabaseIn Q)
  mysql-ClosedUnderMarking = record {
    count = λ s h. h;
    content = λ i e s. (content-Keeps _).stays s;
    unique_id = λ i s h. h;
    marked = λ i s h. h;
    mark = λ i. (mark-Keeps i).stays;
    unmark = λ s h. h;
  }

  login-Keeps :
      Keeps subclass.generate_message_index
      → (username : Text) (read_only : Bool)
      → Keeps (mysql_login_successful library database subclass username read_only)
  unfolding mysql_login_successful
  login-Keeps index username read_only = search (staying, Stays-modify)

  mysql-ClosedUnderEntering :
      Keeps subclass.generate_message_index
      → ((username password : Text) → Keeps (subclass.verify_login_credentials username password))
      → ClosedUnderEntering (mysql_adapter library database subclass) (HasDatabaseIn Q)
  unfolding default_read_only_mode_allowed
  mysql-ClosedUnderEntering index verify = record {
    mode = λ s h. h;
    verify = λ username password. (verify username password).stays;
    login = λ username read_only. (login-Keeps index username read_only).stays;
  }

module _ (library : Library) {D : Type 0} (database : Database library D) {Q : D → Type 0}
    (closed : ClosedUnderSelecting library database Q) where
  select_ids-Keeps :
      {U : Type 0} → Stays (HasDatabaseIn {U = U} Q) (on_connection database.select_ids)
  select_ids-Keeps = on_connection-Stays _ closed.ids

  of_user-Keeps :
      {U : Type 0} (id : ℕ)
      → Stays (HasDatabaseIn {U = U} Q) (on_connection (database.select_ids_of_user id))
  of_user-Keeps id = on_connection-Stays _ (closed.ids_of_user id)

  user-Keeps :
      {U : Type 0} (username : Text)
      → Stays (HasDatabaseIn {U = U} Q) (on_connection (database.select_user username))
  user-Keeps username = on_connection-Stays _ (closed.user username)

  single_index-Keeps : Stays (HasDatabaseIn Q) (generate_singleuser_index library database)
  unfolding generate_singleuser_index
  single_index-Keeps = search (staying, select_ids-Keeps)

  verify_single-Keeps :
      (username password : Text)
      → Stays (HasDatabaseIn Q) (verify_singleuser library database username password)
  unfolding verify_singleuser
  verify_single-Keeps username password = search staying

  index_of-Keeps : (id : Option ℕ) → Stays (HasDatabaseIn Q) (index_of_user library database id)
  unfolding index_of_user
  index_of-Keeps none = search staying
  index_of-Keeps (some id) = search (staying, of_user-Keeps)

  multi_index-Keeps : Stays (HasDatabaseIn Q) (generate_multiuser_index library database)
  unfolding generate_multiuser_index
  multi_index-Keeps = search (staying, index_of-Keeps)

  remember-Keeps :
      (id : ℕ) (correct : Bool)
      → Stays (HasDatabaseIn Q) (remember_user library database id correct)
  unfolding remember_user
  remember-Keeps id false = search staying
  remember-Keeps id true = search (staying, Stays-modify)

  check_user-Keeps :
      (users : List (ℕ × Text)) (password : Text)
      → Stays (HasDatabaseIn Q) (check_user library database users password)
  unfolding check_user
  check_user-Keeps [] password = search staying
  check_user-Keeps ((id, hash) ∷ []) password = search (staying, remember-Keeps)
  check_user-Keeps (a ∷ b ∷ users) password = search staying

  verify_multi-Keeps :
      (username password : Text)
      → Stays (HasDatabaseIn Q) (verify_multiuser library database username password)
  unfolding verify_multiuser
  verify_multi-Keeps username password = search (staying, user-Keeps, check_user-Keeps)

module _ (library : Library) {D : Type 0} (database : Database library D) (settings : Settings)
    (unicode : Unicode) where
  abbrev pub mysql_env : {U : Type 0} → Subclass D U → Env (MysqlState D U)
  mysql_env subclass = record {
    settings = settings;
    adapter = mysql_adapter library database subclass;
    unicode = unicode;
  }

  -- Take any set of states of the database that the statements which select do not leave. With a database
  -- adapter, for one user or for many, handling lines of which none is QUIT does not leave it, in whatever
  -- state the session is, and however it ends.
  pub handle_lines-keeps_database :
      (Q : D → Type 0)
      → ClosedUnderSelecting library database Q
      → (lines : List Text) → All (λ line. asks_to_quit unicode line ≡ false) lines
      → ((w : World (MysqlState D Credentials))
          → Q w.adapter.mysql_connection
          → Q
              (handle_lines
                (mysql_env (singleuser library database))
                lines
                w).1.adapter.mysql_connection)
        × ((w : World (MysqlState D (Option ℕ)))
            → Q w.adapter.mysql_connection
            → Q
                (handle_lines
                  (mysql_env (multiuser library database))
                  lines
                  w).1.adapter.mysql_connection)
  handle_lines-keeps_database Q closed lines others =
      let single = singleuser library database in
      let multi = multiuser library database in
      (
        handle_lines-without_quit (mysql_env single) (HasDatabaseIn Q)
            (mysql-ClosedUnderEntering library database closed single
              (single_index-Keeps library database closed)
              (verify_single-Keeps library database closed))
            (mysql-ClosedUnderMarking library database closed single) lines others,
        handle_lines-without_quit (mysql_env multi) (HasDatabaseIn Q)
            (mysql-ClosedUnderEntering library database closed multi
              (multi_index-Keeps library database closed)
              (verify_multi-Keeps library database closed))
            (mysql-ClosedUnderMarking library database closed multi) lines others,
      )
