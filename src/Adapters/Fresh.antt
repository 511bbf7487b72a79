-- ===== src/Adapters/Fresh.antt =====
-- What the adapters for many users do before anyone has logged in.
use pop3sf.Text.{Text}
use pop3sf.Adapter.{Action}
use pop3sf.Adapters.{Library}
use pop3sf.Adapters.Closed.{Constructed}
use pop3sf.Adapters.Files.{Files}
use pop3sf.Adapters.Directory.{directory_adapter}
use pop3sf.Adapters.Directory.Users.{multi_directory}
use pop3sf.Adapters.Directory.Creation.{new_multi_directory}
use pop3sf.Adapters.Directory.Fresh.{new_multi_directory-IsClosed}
use pop3sf.Adapters.Mysql.{Database, mysql_adapter}
use pop3sf.Adapters.Mysql.Users.{multiuser}
use pop3sf.Adapters.Mysql.Creation.{Connector, DatabaseCredentials, new_multiuser_adapter}
use pop3sf.Adapters.Mysql.Fresh.{new_multiuser_adapter-IsClosed}

-- If an adapter for many users, on a directory or on a database, can be constructed, then before a
-- login it has no message, asking for one is an `IndexError`, and being told of a login that it has not
-- verified is an `AssertionError`; all this leaves its state as it is.
pub new_adapter-IsClosed :
    (library : Library) {F D : Type 0} (files : Files library F) (database : Database library D)
    (makedirs : Text → Action F Unit) (connector : Connector D) (path : Text) (f : F)
    (c : DatabaseCredentials) (messages users : Text)
    → Constructed
        (directory_adapter library files (multi_directory library files))
        (new_multi_directory files.Epoch makedirs path f)
      × Constructed
          (mysql_adapter library database (multiuser library database))
          (new_multiuser_adapter connector c messages users)
new_adapter-IsClosed library files database makedirs connector path f c messages users = (
  new_multi_directory-IsClosed library files makedirs path f,
  new_multiuser_adapter-IsClosed library database connector c messages users,
)
