-- ===== src/Adapters/Mysql/Creation.antt =====
-- Constructing the adapters of src/pop3sf/adapters/MySQLAdapterBase.py, MySQLSingleuserAdapter.py and
-- MySQLMultiuserAdapter.py: connecting, and creating the tables.
use pop3sf.Prelude.{ℕ, Option, none, [], ◌++◌}
use pop3sf.Text.{Text, text}
use pop3sf.Adapter.{Action, Result, ok, raised}
use pop3sf.Adapter.Actions.{◌>>◌}
use pop3sf.Adapters.{Credentials}
use pop3sf.Adapters.Mysql.{MysqlState}

pub record DatabaseCredentials : Type 0 where
  pub host : Text
  pub username : Text
  pub password : Text
  pub database : Text

-- What `mysql.connector` gives: a connection, the effect of a statement without parameters, and
-- committing.
pub record Connector (D : Type 0) : Type 0 where
  pub connect : DatabaseCredentials → Result D
  pub execute : Text → Action D Unit
  pub commit : Action D Unit

-- the default host
unfoldable pub local_credentials : Text → Text → Text → DatabaseCredentials
local_credentials username password database = record {
  host = text "localhost";
  username = username;
  password = password;
  database = database;
}

-- The statements that create the tables.
unfoldable pub create_single_messages : Text → Text
create_single_messages name =
    text "CREATE TABLE IF NOT EXISTS "
    ++ name
    ++ text " (\n"
    ++ text "            id INT UNSIGNED AUTO_INCREMENT PRIMARY KEY NOT NULL,\n"
    ++ text "            message MEDIUMTEXT NOT NULL,\n"
    ++ text "            is_plaintext BOOL NOT NULL,\n"
    ++ text "            added_timestamp DATETIME DEFAULT CURRENT_TIMESTAMP NOT NULL\n"
    ++ text "        )"

unfoldable pub create_multi_messages : Text → Text
create_multi_messages name =
    text "CREATE TABLE IF NOT EXISTS "
    ++ name
    ++ text " (\n"
    ++ text "            id INT UNSIGNED AUTO_INCREMENT PRIMARY KEY NOT NULL,\n"
    ++ text "            user_id INT UNSIGNED NOT NULL,\n"
    ++ text "            message MEDIUMTEXT NOT NULL,\n"
    ++ text "            is_plaintext BOOL NOT NULL,\n"
    ++ text "            added_timestamp DATETIME DEFAULT CURRENT_TIMESTAMP NOT NULL\n"
    ++ text "        )"

unfoldable pub create_users : Text → Text
create_users name =
    text "CREATE TABLE IF NOT EXISTS "
    ++ name
    ++ text " (\n"
    ++ text "            id INT UNSIGNED AUTO_INCREMENT PRIMARY KEY NOT NULL,\n"
    ++ text "            username VARCHAR(64) UNIQUE NOT NULL,\n"
    ++ text "            password_bcrypt CHAR(60) NOT NULL\n"
    ++ text "        )"

unfoldable pub with_connection : {D A : Type 0} → (D → Result A) → Result D → Result A
with_connection f (ok d) = f d
with_connection f (raised e) = raised e

unfoldable pub new_state : {D U : Type 0} → U → Result (Unit {0}) × D → Result (MysqlState D U)
new_state own (ok a, d) = ok (record { mysql_connection = d; message_index = []; own = own })
new_state own (raised e, d) = raised e

module _ {D : Type 0} (connector : Connector D) where
  open connector use {connect, execute, commit}

  -- `MySQLAdapterBase.__init__`, with the method that creates the tables
  unfoldable pub new_mysql_adapter :
      {U : Type 0} → Action D Unit → DatabaseCredentials → U → Result (MysqlState D U)
  unfolding with_connection new_state
  new_mysql_adapter create_mysql_tables_if_needed db_credentials own =
      with_connection (λ d. new_state own (create_mysql_tables_if_needed d))
        (connect db_credentials)

  unfoldable pub create_singleuser_tables : Text → Action D Unit
  create_singleuser_tables messages_table_name = do
    execute (create_single_messages messages_table_name)
    commit

  unfoldable pub new_singleuser_adapter :
      Text → Text → DatabaseCredentials → Text → Result (MysqlState D Credentials)
  unfolding new_mysql_adapter
  new_singleuser_adapter username password_bcrypt db_credentials messages_table_name =
      new_mysql_adapter (create_singleuser_tables messages_table_name) db_credentials
        (record { username = username; password_bcrypt = password_bcrypt })

  unfoldable pub create_multiuser_tables : Text → Text → Action D Unit
  create_multiuser_tables messages_table_name users_table_name = do
    execute (create_multi_messages messages_table_name)
    execute (create_users users_table_name)
    commit

  unfoldable pub new_multiuser_adapter :
      DatabaseCredentials → Text → Text → Result (MysqlState D (Option ℕ))
  unfolding new_mysql_adapter
  new_multiuser_adapter db_credentials messages_table_name users_table_name =
      new_mysql_adapter (create_multiuser_tables messages_table_name users_table_name)
        db_credentials none
