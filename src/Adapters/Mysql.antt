-- ===== src/Adapters/Mysql.antt =====
-- src/pop3sf/adapters/MySQLAdapterBase.py, over a database and the methods that its subclasses define.
pub mod Users
pub mod Login
pub mod Unchanged
pub mod Creation
pub mod Fresh
use pop3sf.Prelude.{
  ℕ, Bool, true, false, Option, none, some, List, [], ◌∷◌, ◌++◌, length, get_elem?, map, pos,
}
use pop3sf.Text.{Text, text}
use pop3sf.Text.Decimal.{to_decimal}
use pop3sf.Adapter.{
  Adapter, Action, Exception, other_exception, Result, ok, raised, default_connection_opened,
  default_read_only_mode_allowed,
}
use pop3sf.Adapter.Actions.{pure, raise, lift, gets, modify, ◌>>=◌, ◌>>◌}
use pop3sf.Adapters.{
  Library, Marked, unmarked, is_marked, mark, unmark_all, remove_marked, index_error,
  generate_from_to_email_address, wrap_plaintext_in_email,
}

-- A row of the messages table.
pub record Row (DateTime : Type 0) : Type 0 where
  pub message : Text
  pub is_plaintext : Bool
  pub added_timestamp : DateTime

-- The database as the adapters use it, each statement over the tables with the names that the
-- adapter is constructed with: the row of a message, the deletion of a message, the identifiers of
-- all messages or of those of a user, the identifier and the password of the users of a name;
-- committing and closing; and `time.gmtime(time.mktime(d.timetuple()))`.
pub record Database (library : Library) (D : Type 0) : Type 1 where
  pub DateTime : Type 0
  pub select_message : ℕ → Action D (Option (Row DateTime))
  pub execute_delete : ℕ → Action D Unit
  pub select_ids : Action D (List ℕ)
  pub select_ids_of_user : ℕ → Action D (List ℕ)
  pub select_user : Text → Action D (List (ℕ × Text))
  pub commit : Action D Unit
  pub close : Action D Unit
  pub struct_time : DateTime → library.Date

-- The attributes, those of a subclass as `own`.
pub record MysqlState (D U : Type 0) : Type 0 where
  pub mysql_connection : D
  pub message_index : List (Marked ℕ)
  pub own : U

-- The abstract methods of the class.
pub record Subclass (D U : Type 0) : Type 0 where
  pub generate_message_index : Action (MysqlState D U) (List (Marked ℕ))
  pub verify_login_credentials : Text → Text → Action (MysqlState D U) Bool

-- a call of the database
abbrev pub on_connection : {D U A : Type 0} → Action D A → Action (MysqlState D U) A
on_connection action s =
    let (r, d) = action s.mysql_connection in (r, record s { mysql_connection = d })

module _ (library : Library) {D U : Type 0} (database : Database library D)
    (subclass : Subclass D U) where
  open database use {DateTime, select_message, execute_delete, commit, close, struct_time}

  pub delete_message_from_database : ℕ → Action D Unit
  delete_message_from_database id = do execute_delete id; commit

  unfoldable pub mysql_login_successful : Text → Bool → Action (MysqlState D U) Unit
  mysql_login_successful username read_only = do
    index ← subclass.generate_message_index
    modify (λ s. record s { message_index = index })

  as_email : ℕ → Row DateTime → Bool → Text
  as_email id row false = row.message
  as_email id row true =
      let from_to = generate_from_to_email_address (text "nobody") in
      wrap_plaintext_in_email library row.message
        (text "Plaintext database entry " ++ to_decimal id) from_to from_to
        (struct_time row.added_timestamp)

  -- Without a row `fetchone` gives `None`, which cannot be unpacked: a `TypeError`.
  email_of_row : ℕ → Option (Row DateTime) → Result Text
  email_of_row id none = raised (other_exception 2)
  email_of_row id (some row) = ok (as_email id row row.is_plaintext)

  pub mysql_message_content : Option (Marked ℕ) → Action (MysqlState D U) Text
  mysql_message_content none = raise index_error
  mysql_message_content (some m) = do
    row ← on_connection (select_message m.item)
    lift (email_of_row m.item row)

  pub mysql_message_unique_id : Option (Marked ℕ) → Result Text
  mysql_message_unique_id none = raised index_error
  mysql_message_unique_id (some m) = ok (to_decimal m.item)

  pub mark_in_index : ℕ → Action (MysqlState D U) Unit
  mark_in_index index = do
    items ← gets (λ s. s.message_index)
    marked ← lift (mark items index)
    modify (λ s. record s { message_index = marked })

  pub commit_mysql_deletions : Action (MysqlState D U) Unit
  commit_mysql_deletions = do
    items ← gets (λ s. s.message_index)
    on_connection (remove_marked delete_message_from_database items)

  abbrev pub mysql_adapter : Adapter (MysqlState D U)
  mysql_adapter = record {
    connection_opened = default_connection_opened;
    read_only_mode_allowed = default_read_only_mode_allowed;
    verify_login_credentials = subclass.verify_login_credentials;
    login_successful = mysql_login_successful;
    get_message_count = gets (λ s. pos (length s.message_index));
    get_message_content =
        λ index encoding s. mysql_message_content (get_elem? s.message_index index) s;
    get_message_unique_id =
        λ index s. (mysql_message_unique_id (get_elem? s.message_index index), s);
    is_message_marked_as_deleted = λ index s. (is_marked s.message_index index, s);
    mark_message_as_deleted = mark_in_index;
    unmark_messages_marked_as_deleted =
        modify (λ s. record s { message_index = unmark_all s.message_index });
    commit_deletions = commit_mysql_deletions;
    connection_closed = on_connection close;
  }
