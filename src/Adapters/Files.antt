-- ===== src/Adapters/Files.antt =====
-- What the adapters and the tools use of the file system and of `os.path`.
use pop3sf.Prelude.{Bool, List}
use pop3sf.Text.{Text}
use pop3sf.Adapter.{Action, Result}
use pop3sf.Adapters.{Library}

-- The files as a state: `os.path.join`, `os.path.abspath`, `glob.glob` of all names in a directory
-- that do not begin with a dot, `os.path.isfile`, `os.path.exists`, the time of the last change as a
-- float with its order, its print and its `time.gmtime`, reading and writing a whole file under its
-- lock, `os.remove` and `os.mkdir`.
pub record Files (library : Library) (F : Type 0) : Type 1 where
  pub Epoch : Type 0
  pub earlier : Epoch → Epoch → Bool
  pub print_epoch : Epoch → Text
  pub gmtime : Epoch → library.Date
  pub join_path : Text → Text → Text
  pub abspath : Text → F → Text
  pub glob_all : Text → F → List Text
  pub isfile : Text → F → Bool
  pub exists : Text → F → Bool
  pub st_mtime : Text → F → Result Epoch
  pub read_file : Text → F → Result Text
  pub write_file : Text → Text → Action F Unit
  pub remove_file : Text → Action F Unit
  pub mkdir : Text → Action F Unit
