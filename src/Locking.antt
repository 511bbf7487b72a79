-- ===== src/Locking.antt =====
-- src/pop3sf/AdapterThreadLockingWrapper.py: the lock around each call of the adapter.
pub mod Bracketing
pub mod Threads
use pop3sf.Prelude.{ℕ, Bool, true, false, ℤ, List, [], ◌∷◌, ◌++◌}
use pop3sf.Text.{Text}
use pop3sf.Text.Encoding.{Encoding}
use pop3sf.Adapter.{Result, ok, raised, Action, Adapter}

-- The calls on the class's lock.
pub data LockCall : Type 0 where
  acquire release : LockCall

-- The adapter, and the calls that the wrapper made on the lock, which are in the order of time.
pub record Locked (S : Type 0) : Type 0 where
  pub adapter : S
  pub calls : List LockCall

module _ {S : Type 0} where
  unfoldable pub call_lock : LockCall → Locked S → Locked S
  call_lock c s = record s { calls = s.calls ++ c ∷ [] }

  -- `acquire()`, then `try: return action finally: release()`
  unfoldable pub locked : {A : Type 0} → Action S A → Action (Locked S) A
  locked action s =
      let acquired = call_lock acquire s in
      let (r, adapter) = action acquired.adapter in
      (r, call_lock release (record acquired { adapter = adapter }))

  unfoldable pub adapter_thread_locking_wrapper : Adapter S → Adapter (Locked S)
  adapter_thread_locking_wrapper adapter = record {
    connection_opened = λ address port. locked (adapter.connection_opened address port);
    read_only_mode_allowed = locked adapter.read_only_mode_allowed;
    verify_login_credentials =
        λ username password. locked (adapter.verify_login_credentials username password);
    login_successful = λ username read_only. locked (adapter.login_successful username read_only);
    get_message_count = locked adapter.get_message_count;
    get_message_content = λ index encoding. locked (adapter.get_message_content index encoding);
    get_message_unique_id = λ index. locked (adapter.get_message_unique_id index);
    is_message_marked_as_deleted = λ index. locked (adapter.is_message_marked_as_deleted index);
    mark_message_as_deleted = λ index. locked (adapter.mark_message_as_deleted index);
    unmark_messages_marked_as_deleted = locked adapter.unmark_messages_marked_as_deleted;
    commit_deletions = locked adapter.commit_deletions;
    connection_closed = locked adapter.connection_closed;
  }
