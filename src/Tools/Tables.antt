-- ===== src/Tools/Tables.antt =====
-- Constructing the tools of auxiliary_libs/MySQLSingleuserAdapterTool.py and
-- auxiliary_libs/MySQLMultiuserAdapterTool.py, which create the tables that the adapters read.
use pop3sf.Prelude.{◌++◌, ◌≡◌, refl, none}
use pop3sf.Text.{Text, text}
use pop3sf.Adapter.{Action, Result, ok, raised}
use pop3sf.Adapters.Mysql.{MysqlState}
use pop3sf.Adapters.Mysql.Creation.{
  Connector, DatabaseCredentials, with_connection, new_state, new_mysql_adapter,
  create_single_messages, create_multi_messages, create_users, create_singleuser_tables,
  create_multiuser_tables, new_singleuser_adapter, new_multiuser_adapter,
}
use pop3sf.Tools.Mysql.{
  Statements, create_singleuser_table_if_needed, create_multiuser_tables_if_needed,
}

-- The statements of the tools that create the tables.
single_table_statement : Text → Text
single_table_statement name =
    text "CREATE TABLE IF NOT EXISTS "
    ++ name
    ++ text " (\n"
    ++ text "            id INT UNSIGNED AUTO_INCREMENT PRIMARY KEY NOT NULL,\n"
    ++ text "            message MEDIUMTEXT NOT NULL,\n"
    ++ text "            is_plaintext BOOL NOT NULL,\n"
    ++ text "            added_timestamp DATETIME DEFAULT CURRENT_TIMESTAMP NOT NULL\n"
    ++ text "        )"

messages_table_statement : Text → Text
messages_table_statement name =
    text "CREATE TABLE IF NOT EXISTS "
    ++ name
    ++ text " (\n"
    ++ text "            id INT UNSIGNED AUTO_INCREMENT PRIMARY KEY NOT NULL,\n"
    ++ text "            user_id INT UNSIGNED NOT NULL,\n"
    ++ text "            message MEDIUMTEXT NOT NULL,\n"
    ++ text "            is_plaintext BOOL NOT NULL,\n"
    ++ text "            added_timestamp DATETIME DEFAULT CURRENT_TIMESTAMP NOT NULL\n"
    ++ text "        )"

users_table_statement : Text → Text
users_table_statement name =
    text "CREATE TABLE IF NOT EXISTS "
    ++ name
    ++ text " (\n"
    ++ text "            id INT UNSIGNED AUTO_INCREMENT PRIMARY KEY NOT NULL,\n"
    ++ text "            username VARCHAR(64) UNIQUE NOT NULL,\n"
    ++ text "            password_bcrypt CHAR(60) NOT NULL\n"
    ++ text "        )"

pub connection_of : {D : Type 0} → Result (Unit {0}) × D → Result D
connection_of (ok a, d) = ok d
connection_of (raised e, d) = raised e

-- A tool's constructor gives its connection; the tool's other statements are those of `statements`.
module _ {D : Type 0} (connector : Connector D) (statements : Statements D) where
  open connector use {connect, execute, commit}

  abbrev single_statements : Text → Statements D
  single_statements messages_table_name = record statements {
    create_messages_table = execute (single_table_statement messages_table_name);
    commit = commit;
  }

  pub new_singleuser_tool : DatabaseCredentials → Text → Result D
  unfolding with_connection connection_of
  new_singleuser_tool db_credentials messages_table_name =
      with_connection
        (λ d.
          connection_of
            (create_singleuser_table_if_needed (single_statements messages_table_name) d))
        (connect db_credentials)

  abbrev multi_statements : Text → Text → Statements D
  multi_statements messages_table_name users_table_name = record statements {
    create_messages_table = execute (messages_table_statement messages_table_name);
    create_users_table = execute (users_table_statement users_table_name);
    commit = commit;
  }

  pub new_multiuser_tool : DatabaseCredentials → Text → Text → Result D
  unfolding with_connection connection_of
  new_multiuser_tool db_credentials messages_table_name users_table_name =
      with_connection
        (λ d. connection_of (
          create_multiuser_tables_if_needed (multi_statements messages_table_name users_table_name)
            d))
        (connect db_credentials)

-- the connection of an adapter that was constructed
pub connection_in : {D U : Type 0} → Result (MysqlState D U) → Result D
connection_in (ok s) = ok s.mysql_connection
connection_in (raised e) = raised e

created-eq :
    {D U : Type 0} (own : U) (x : Result (Unit {0}) × D)
    → connection_of x ≡ connection_in (new_state own x)
unfolding connection_of connection_in new_state
created-eq own (ok a, d) = refl
created-eq own (raised e, d) = refl

constructed-eq :
    {D U : Type 0} (own : U) (create : Action D Unit) (r : Result D)
    → with_connection (λ d. connection_of (create d)) r
      ≡ connection_in (with_connection (λ d. new_state own (create d)) r)
unfolding with_connection connection_in
constructed-eq own create (ok d) = created-eq own (create d)
constructed-eq own create (raised e) = refl

-- Constructing a tool and constructing the adapter of its kind, with the same credentials and names of
-- tables, executes the same statements: both raise the same exception, or leave the same connection. So
-- it is for one user and for many.
pub new_tool-eq-new_adapter :
    {D : Type 0} (connector : Connector D) (statements : Statements D) (c : DatabaseCredentials)
    (messages users username password_bcrypt : Text)
    → (new_singleuser_tool connector statements c messages
        ≡ connection_in (new_singleuser_adapter connector username password_bcrypt c messages))
      × (new_multiuser_tool connector statements c messages users
          ≡ connection_in (new_multiuser_adapter connector c messages users))
unfolding new_singleuser_tool new_multiuser_tool new_singleuser_adapter new_multiuser_adapter
    new_mysql_adapter create_singleuser_tables create_multiuser_tables
    create_singleuser_table_if_needed create_multiuser_tables_if_needed create_single_messages
    create_multi_messages create_users single_table_statement messages_table_statement
    users_table_statement
new_tool-eq-new_adapter connector statements c messages users username password_bcrypt = (
  constructed-eq (record { username = username; password_bcrypt = password_bcrypt })
      (create_singleuser_tables connector messages) (connector.connect c),
  constructed-eq none (create_multiuser_tables connector messages users) (connector.connect c),
)
