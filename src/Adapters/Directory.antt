-- ===== src/Adapters/Directory.antt =====
-- src/pop3sf/adapters/DirectoryAdapterBase.py, over a file system and the methods that its subclasses
-- define.
pub mod Users
pub mod Ordering
pub mod Access
pub mod Unchanged
pub mod Creation
pub mod Fresh
pub mod Commit
use pop3sf.Prelude.{
  ℕ, Bool, true, false, Option, none, some, List, [], ◌∷◌, ◌++◌, length, get_elem?, select, map,
  take, pos, if◌then◌else◌,
}
use pop3sf.Prelude.Sort.{sort_by}
use pop3sf.Text.{Text, text, ends_with}
use pop3sf.Text.Order.{text_less}
use pop3sf.Text.Encoding.{Bytes, utf8, encode}
use pop3sf.Adapter.{
  Adapter, Action, Result, ok, raised, default_connection_opened, default_read_only_mode_allowed,
  default_connection_closed,
}
use pop3sf.Adapter.Actions.{pure, raise, lift, gets, modify, ◌>>=◌, ◌>>◌}
use pop3sf.Adapters.{
  Library, Marked, unmarked, is_marked, mark, unmark_all, remove_marked, index_error, encoded,
  generate_from_to_email_address, wrap_plaintext_in_email,
}
use pop3sf.Adapters.Files.{Files}

-- `_MessageIndexEntry`, with its mark apart; `last_modified` is `gmtime` of the time here.
pub record Entry (Epoch : Type 0) : Type 0 where
  pub path : Text
  pub last_modified_epoch : Epoch
  pub is_plaintext : Bool

-- The attributes, those of a subclass as `own`, and the file system.
pub record DirectoryState (Epoch F U : Type 0) : Type 0 where
  pub files : F
  pub directory_path : Text
  pub message_index : List (Marked (Entry Epoch))
  pub own : U

-- The abstract methods of the class.
pub record Subclass (Epoch F U : Type 0) : Type 0 where
  pub generate_message_index : Action (DirectoryState Epoch F U) (List (Entry Epoch))
  pub verify_login_credentials : Text → Text → Action (DirectoryState Epoch F U) Bool

-- reading the file system, and changing it
abbrev pub observe : {Epoch F U A : Type 0} → (F → A) → Action (DirectoryState Epoch F U) A
observe look = gets (λ s. look s.files)

abbrev pub on_files : {Epoch F U A : Type 0} → Action F A → Action (DirectoryState Epoch F U) A
on_files action s = let (r, f) = action s.files in (r, record s { files = f })

module _ (library : Library) {F : Type 0} (files : Files library F) where
  open files use {
    Epoch, earlier, print_epoch, gmtime, abspath, glob_all, isfile, st_mtime, read_file,
    remove_file,
  }

  -- the entry that a file gets, by the extension of its name
  unfoldable pub entries_of : Text → Epoch → List (Entry Epoch)
  entries_of filepath epoch =
      if ends_with (text ".eml") filepath
      then record { path = filepath; last_modified_epoch = epoch; is_plaintext = false } ∷ []
      else if ends_with (text ".txt") filepath
      then record { path = filepath; last_modified_epoch = epoch; is_plaintext = true } ∷ []
      else []

  abbrev pub join_entries :
      Text → Result Epoch → Result (List (Entry Epoch)) → Result (List (Entry Epoch))
  join_entries filepath (raised e) rest = raised e
  join_entries filepath (ok epoch) (raised e) = raised e
  join_entries filepath (ok epoch) (ok rest) = ok (entries_of filepath epoch ++ rest)

  -- the loop over the paths
  unfoldable pub collect_entries : List Text → F → Result (List (Entry Epoch))
  collect_entries [] f = ok []
  collect_entries (filepath ∷ paths) f =
      join_entries filepath (st_mtime filepath f) (collect_entries paths f)

  abbrev pub candidate_paths : Text → F → List Text
  candidate_paths full_directory_path f =
      select (λ p. isfile p f)
        (map (λ p. abspath p f) (sort_by text_less (glob_all full_directory_path f)))

  abbrev pub entry_earlier : Entry Epoch → Entry Epoch → Bool
  entry_earlier a b = earlier a.last_modified_epoch b.last_modified_epoch

  abbrev pub sorted_entries : Result (List (Entry Epoch)) → Result (List (Entry Epoch))
  sorted_entries (raised e) = raised e
  sorted_entries (ok entries) = ok (sort_by entry_earlier entries)

  unfoldable pub generate_message_index_using_full_directory_path :
      Text → F → Result (List (Entry Epoch))
  generate_message_index_using_full_directory_path full_directory_path f =
      sorted_entries (collect_entries (candidate_paths full_directory_path f) f)

  abbrev hash_of : Result Bytes → Result Text
  hash_of (raised e) = raised e
  hash_of (ok bytes) = ok (library.sha256_hexdigest bytes)

  unfoldable pub unique_id_of_entry : Entry Epoch → Result Text
  unique_id_of_entry message =
      hash_of (encoded (encode utf8 (message.path ++ print_epoch message.last_modified_epoch)))

module _ (library : Library) {F U : Type 0} (files : Files library F) where
  open files use {Epoch, gmtime, read_file, remove_file}

  entry_unique_id : Option (Marked (Entry Epoch)) → Action (DirectoryState Epoch F U) Text
  entry_unique_id none = raise index_error
  entry_unique_id (some m) = lift (unique_id_of_entry library files m.item)

  pub directory_message_unique_id : ℕ → Action (DirectoryState Epoch F U) Text
  directory_message_unique_id index = do
    message ← gets (λ s. get_elem? s.message_index index)
    entry_unique_id message

  unfoldable pub wrap_content :
      ℕ → Entry Epoch → Text → Bool → Action (DirectoryState Epoch F U) Text
  wrap_content index message content false = pure content
  wrap_content index message content true = do
    unique_id ← directory_message_unique_id index
    let from_to = generate_from_to_email_address (text "nobody")
    pure (
        wrap_plaintext_in_email library content (text "Plaintext file " ++ take 8 unique_id) from_to
          from_to (gmtime message.last_modified_epoch))

  unfoldable pub entry_content :
      ℕ → Option (Marked (Entry Epoch)) → Action (DirectoryState Epoch F U) Text
  entry_content index none = raise index_error
  entry_content index (some m) = do
    content ← observe (read_file m.item.path)
    content' ← lift content
    wrap_content index m.item content' m.item.is_plaintext

  unfoldable pub directory_message_content : ℕ → Action (DirectoryState Epoch F U) Text
  directory_message_content index = do
    message ← gets (λ s. get_elem? s.message_index index)
    entry_content index message

  pub mark_entry : ℕ → Action (DirectoryState Epoch F U) Unit
  mark_entry index = do
    items ← gets (λ s. s.message_index)
    marked ← lift (mark items index)
    modify (λ s. record s { message_index = marked })

  unfoldable pub commit_directory_deletions : Action (DirectoryState Epoch F U) Unit
  commit_directory_deletions = do
    items ← gets (λ s. s.message_index)
    on_files (remove_marked (λ (message : Entry Epoch). remove_file message.path) items)

module _ (library : Library) {F U : Type 0} (files : Files library F)
    (subclass : Subclass files.Epoch F U) where
  unfoldable pub directory_login_successful :
      Text → Bool → Action (DirectoryState files.Epoch F U) Unit
  directory_login_successful username read_only = do
    entries ← subclass.generate_message_index
    modify (λ s. record s { message_index = map unmarked entries })

  abbrev pub directory_adapter : Adapter (DirectoryState files.Epoch F U)
  directory_adapter = record {
    connection_opened = default_connection_opened;
    read_only_mode_allowed = default_read_only_mode_allowed;
    verify_login_credentials = subclass.verify_login_credentials;
    login_successful = directory_login_successful;
    get_message_count = gets (λ s. pos (length s.message_index));
    get_message_content = λ index encoding. directory_message_content library files index;
    get_message_unique_id = directory_message_unique_id library files;
    is_message_marked_as_deleted = λ index s. (is_marked s.message_index index, s);
    mark_message_as_deleted = mark_entry library files;
    unmark_messages_marked_as_deleted =
        modify (λ s. record s { message_index = unmark_all s.message_index });
    commit_deletions = commit_directory_deletions library files;
    connection_closed = default_connection_closed;
  }
