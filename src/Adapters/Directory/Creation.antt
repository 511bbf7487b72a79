-- ===== src/Adapters/Directory/Creation.antt =====
-- Constructing the adapters of src/pop3sf/adapters/DirectoryAdapterBase.py,
-- DirectorySingleuserAdapter.py and DirectoryMultiuserAdapter.py.
use pop3sf.Prelude.{Option, none, []}
use pop3sf.Text.{Text}
use pop3sf.Adapter.{Action, Result, ok, raised}
use pop3sf.Adapters.{Credentials}
use pop3sf.Adapters.Directory.{DirectoryState}

unfoldable pub new_state :
    {Epoch F U : Type 0} → Text → U → Result (Unit {0}) × F → Result (DirectoryState Epoch F U)
new_state directory_path own (ok a, f) =
    ok (record { files = f; directory_path = directory_path; message_index = []; own = own })
new_state directory_path own (raised e, f) = raised e

-- `makedirs` is `os.makedirs(path, exist_ok=True)`.
module _ (Epoch : Type 0) {F : Type 0} (makedirs : Text → Action F Unit) where
  -- `DirectoryAdapterBase.__init__`
  unfoldable pub new_directory_adapter :
      {U : Type 0} → Text → U → F → Result (DirectoryState Epoch F U)
  unfolding new_state
  new_directory_adapter directory_path own f =
      new_state directory_path own (makedirs directory_path f)

  unfoldable pub new_single_directory :
      Text → Text → Text → F → Result (DirectoryState Epoch F Credentials)
  unfolding new_directory_adapter
  new_single_directory username password_bcrypt directory_path =
      new_directory_adapter directory_path
        (record { username = username; password_bcrypt = password_bcrypt })

  unfoldable pub new_multi_directory : Text → F → Result (DirectoryState Epoch F (Option Text))
  unfolding new_directory_adapter
  new_multi_directory directory_path = new_directory_adapter directory_path none
