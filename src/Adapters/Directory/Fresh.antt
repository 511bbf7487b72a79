-- ===== src/Adapters/Directory/Fresh.antt =====
-- The directory adapter for many users before a login.
use pop3sf.Prelude.{refl, none}
use pop3sf.Text.{Text}
use pop3sf.Adapter.{Action, Result, ok, raised}
use pop3sf.Adapters.{Library, is_marked, mark_of}
use pop3sf.Adapters.Closed.{Constructed}
use pop3sf.Adapters.Files.{Files}
use pop3sf.Adapters.Directory.{
  directory_adapter, directory_message_content, entry_content, directory_login_successful,
}
use pop3sf.Adapters.Directory.Users.{
  multi_directory, generate_multi_directory_index, index_of_directory,
}
use pop3sf.Adapters.Directory.Creation.{new_state, new_multi_directory}

module _ (library : Library) {F : Type 0} (files : Files library F) where
  new_state-IsClosed :
      (path : Text) (x : Result (Unit {0}) × F)
      → Constructed
          (directory_adapter library files (multi_directory library files))
          (new_state path none x)
  unfolding new_state is_marked mark_of directory_message_content entry_content
      directory_login_successful generate_multi_directory_index index_of_directory
  new_state-IsClosed path (ok a, f) = record {
    count = refl;
    content = λ i e. refl;
    marked = λ i. refl;
    login = λ username read_only. refl;
  }
  new_state-IsClosed path (raised e, f) = tt

  pub new_multi_directory-IsClosed :
      (makedirs : Text → Action F Unit) (path : Text) (f : F)
      → Constructed
          (directory_adapter library files (multi_directory library files))
          (new_multi_directory files.Epoch makedirs path f)
  unfolding new_multi_directory
  new_multi_directory-IsClosed makedirs path f = new_state-IsClosed path (makedirs path f)
