-- ===== src/Helper/ReadOnly.antt =====
-- The methods of `AdapterHelperWrapper` in the read-only mailbox access mode.
use pop3sf.Prelude.{◌∙◌, ℕ, ◌≡◌, true}
use pop3sf.Adapter.{Adapter, Action}
use pop3sf.Text.Encoding.{Encoding}
use pop3sf.Session.{ClientStatus, modify, World, call, ◌>>=◌}
use pop3sf.Session.Keeps.{Preserves, Preserves-call, Preserves-modify, if-at_true}
use pop3sf.Helper.{
  Env, is_message_marked_as_deleted, mark_message_as_deleted, unmark_messages_marked_as_deleted,
  commit_deletions,
}
use pop3sf.Helper.Keeps.{ReadsKeep}

-- What a set of the adapter's states has to be closed under: the methods that read.
pub record ClosedUnderReading {S : Type 0} (a : Adapter S) (P : S → Type 0) : Type 0 where
  pub mode : (s : S) → P s → P (a.read_only_mode_allowed s).1
  pub count : (s : S) → P s → P (a.get_message_count s).1
  pub content : (i : ℕ) (e : Encoding) (s : S) → P s → P (a.get_message_content i e s).1
  pub unique_id : (i : ℕ) (s : S) → P s → P (a.get_message_unique_id i s).1

-- A logged-in read-only session whose adapter is in one of these states.
pub record IsReader {S : Type 0} (P : S → Type 0) (w : World S) : Type 0 where
  pub logged_in : w.status.authenticated ≡ true
  pub reader : w.status.read_only_mailbox_access ≡ true
  pub inside : P w.adapter

module _ {S A : Type 0} {P : S → Type 0} where
  call-IsReader :
      (action : Action S A)
      → ((s : S) → P s → P (action s).1)
      → Preserves (IsReader P) (call action)
  call-IsReader action k =
      Preserves-call action
        λ w h. record { logged_in = h.logged_in; reader = h.reader; inside = k w.adapter h.inside }

module _ {S : Type 0} {P : S → Type 0} where
  pub modify-IsReader :
      (f : ClientStatus → ClientStatus)
      → ((s : ClientStatus) → (f s).authenticated ≡ s.authenticated)
      → ((s : ClientStatus) → (f s).read_only_mailbox_access ≡ s.read_only_mailbox_access)
      → Preserves (IsReader P) (modify f)
  modify-IsReader f a r = Preserves-modify f λ w h. record {
    logged_in = a w.status ∙ h.logged_in;
    reader = r w.status ∙ h.reader;
    inside = h.inside;
  }

module _ {S : Type 0} (env : Env S) {P : S → Type 0} where
  marked-IsReader : (i : ℕ) → Preserves (IsReader P) (is_message_marked_as_deleted env i)
  unfolding is_message_marked_as_deleted ◌>>=◌
  marked-IsReader i = record {
    kept = λ w h.
        if-at_true (λ r. IsReader P r.1) _ (call (env.adapter.is_message_marked_as_deleted i)) w _
          h.reader h;
  }

  pub mark-IsReader : (i : ℕ) → Preserves (IsReader P) (mark_message_as_deleted env i)
  unfolding mark_message_as_deleted ◌>>=◌
  mark-IsReader i = record {
    kept = λ w h.
        if-at_true (λ r. IsReader P r.1) _ (call (env.adapter.mark_message_as_deleted i)) w _
          h.reader h;
  }

  pub unmark-IsReader : Preserves (IsReader P) (unmark_messages_marked_as_deleted env)
  unfolding unmark_messages_marked_as_deleted ◌>>=◌
  unmark-IsReader = record {
    kept = λ w h.
        if-at_true (λ r. IsReader P r.1) _ (call env.adapter.unmark_messages_marked_as_deleted) w _
          h.reader h;
  }

  pub commit-IsReader : Preserves (IsReader P) (commit_deletions env)
  unfolding commit_deletions ◌>>=◌
  commit-IsReader = record {
    kept = λ w h.
        if-at_true (λ r. IsReader P r.1) _ (call env.adapter.commit_deletions) w _ h.reader h;
  }

  pub mode-IsReader :
      ClosedUnderReading env.adapter P
      → Preserves (IsReader P) (call env.adapter.read_only_mode_allowed)
  mode-IsReader c = call-IsReader _ c.mode

  pub reads-IsReader : ClosedUnderReading env.adapter P → ReadsKeep env (IsReader P)
  reads-IsReader c = record {
    count = call-IsReader _ c.count;
    content = λ i e. call-IsReader _ (c.content i e);
    unique_id = λ i. call-IsReader _ (c.unique_id i);
    marked = marked-IsReader;
  }
