-- ===== src/Adapters/Mysql/Fresh.antt =====
-- The database adapter for many users before a login.
use pop3sf.Prelude.{refl, none}
use pop3sf.Text.{Text}
use pop3sf.Adapter.{Action, Result, ok, raised}
use pop3sf.Adapters.{Library, is_marked, mark_of}
use pop3sf.Adapters.Closed.{Constructed}
use pop3sf.Adapters.Mysql.{Database, mysql_adapter, mysql_message_content, mysql_login_successful}
use pop3sf.Adapters.Mysql.Users.{multiuser, generate_multiuser_index, index_of_user}
use pop3sf.Adapters.Mysql.Creation.{
  Connector, DatabaseCredentials, with_connection, new_state, create_multiuser_tables,
  new_multiuser_adapter,
}

module _ (library : Library) {D : Type 0} (database : Database library D) where
  new_state-IsClosed :
      (x : Result (Unit {0}) × D)
      → Constructed (mysql_adapter library database (multiuser library database)) (new_state none x)
  unfolding new_state is_marked mark_of mysql_message_content mysql_login_successful
      generate_multiuser_index index_of_user
  new_state-IsClosed (ok a, d) = record {
    count = refl;
    content = λ i e. refl;
    marked = λ i. refl;
    login = λ username read_only. refl;
  }
  new_state-IsClosed (raised e, d) = tt

  with_connection-IsClosed :
      (create : Action D Unit) (r : Result D)
      → Constructed
          (mysql_adapter library database (multiuser library database))
          (with_connection (λ d. new_state none (create d)) r)
  unfolding with_connection
  with_connection-IsClosed create (ok d) = new_state-IsClosed (create d)
  with_connection-IsClosed create (raised e) = tt

  pub new_multiuser_adapter-IsClosed :
      (connector : Connector D) (c : DatabaseCredentials) (messages users : Text)
      → Constructed
          (mysql_adapter library database (multiuser library database))
          (new_multiuser_adapter connector c messages users)
  unfolding new_multiuser_adapter
  new_multiuser_adapter-IsClosed connector c messages users =
      with_connection-IsClosed (create_multiuser_tables connector messages users)
        (connector.connect c)
