-- ===== src/Helper/Keeps.antt =====
-- What the methods of `AdapterHelperWrapper` that read the mailbox leave as it was.
use pop3sf.Prelude.{ℕ, zero, suc, ◌+◌, Option, none, some, List}
use pop3sf.Text.Encoding.{Bytes, Encoding}
use pop3sf.Adapter.{Action}
use pop3sf.Session.{World, Exec, call}
use pop3sf.Session.Keeps.{Preserves, preserving, Preserves-bind, Preserves-call}
use pop3sf.Helper.{
  mark_message_as_deleted, unmark_messages_marked_as_deleted, commit_deletions, Env, size_of,
  read_only_mode_allowed, get_message_count, is_message_marked_as_deleted, count_undeleted,
  get_undeleted_message_count, get_message_content, get_headers_and_first_n_lines_of_a_message,
  get_message_size, collect_undeleted, get_all_undeleted_messages_sizes, get_message_unique_id,
  get_all_undeleted_messages_unique_ids,
}

-- The adapter's reading methods, as the server calls them, keep `P`.
pub record ReadsKeep {S : Type 0} (env : Env S) (P : World S → Type 0) : Type 0 where
  pub count : Preserves P (call env.adapter.get_message_count)
  pub content : (i : ℕ) (e : Encoding) → Preserves P (call (env.adapter.get_message_content i e))
  pub unique_id : (i : ℕ) → Preserves P (call (env.adapter.get_message_unique_id i))
  pub marked : (i : ℕ) → Preserves P (is_message_marked_as_deleted env i)

module _ {S : Type 0} {env : Env S} {P : World S → Type 0} (reads : ReadsKeep env P) where
  open reads use {count, content, unique_id, marked}

  pub get_message_count-Keeps : Preserves P (get_message_count env)
  unfolding get_message_count
  get_message_count-Keeps = Preserves-bind _ _ count (λ c. search preserving)

  count_undeleted-Keeps : (n index k : ℕ) → Preserves P (count_undeleted env n index k)
  unfolding count_undeleted
  count_undeleted-Keeps zero index k = search preserving
  count_undeleted-Keeps (suc n) index k =
      search (preserving, marked, count_undeleted-Keeps n (index + 1))

  pub get_undeleted_message_count-Keeps : Preserves P (get_undeleted_message_count env)
  unfolding get_undeleted_message_count
  get_undeleted_message_count-Keeps =
      search (preserving, get_message_count-Keeps, count_undeleted-Keeps)

  pub get_message_content-Keeps : (i : ℕ) → Preserves P (get_message_content env i)
  unfolding get_message_content
  get_message_content-Keeps i = search (preserving, content)

  pub top-Keeps : (i n : ℕ) → Preserves P (get_headers_and_first_n_lines_of_a_message env i n)
  unfolding get_headers_and_first_n_lines_of_a_message
  top-Keeps i n = search (preserving, get_message_content-Keeps)

  size_of-Keeps : (b : Option Bytes) → Preserves P (size_of env b)
  unfolding size_of
  size_of-Keeps none = search preserving
  size_of-Keeps (some b) = search preserving

  pub get_message_size-Keeps : (i : ℕ) → Preserves P (get_message_size env i)
  unfolding get_message_size
  get_message_size-Keeps i = search (preserving, get_message_content-Keeps, size_of-Keeps)

  pub get_message_unique_id-Keeps : (i : ℕ) → Preserves P (get_message_unique_id env i)
  unfolding get_message_unique_id
  get_message_unique_id-Keeps i = search (preserving, unique_id)

  collect_undeleted-Keeps :
      {A : Type 0} (get : ℕ → Exec S A) (n index : ℕ) (entries : List (ℕ × A))
      → ((i : ℕ) → Preserves P (get i))
      → Preserves P (collect_undeleted env get n index entries)
  unfolding collect_undeleted
  collect_undeleted-Keeps get zero index entries k = search preserving
  collect_undeleted-Keeps {A} get (suc n) index entries k =
      let rest =
        λ (entries' : List (ℕ × A)). collect_undeleted-Keeps get n (index + 1) entries' k in
      search (preserving, marked, k, rest)

  pub get_all_undeleted_messages_sizes-Keeps : Preserves P (get_all_undeleted_messages_sizes env)
  unfolding get_all_undeleted_messages_sizes
  get_all_undeleted_messages_sizes-Keeps =
      search (preserving, get_message_count-Keeps, collect_undeleted-Keeps, get_message_size-Keeps)

  pub get_all_undeleted_messages_unique_ids-Keeps :
      Preserves P (get_all_undeleted_messages_unique_ids env)
  unfolding get_all_undeleted_messages_unique_ids
  get_all_undeleted_messages_unique_ids-Keeps =
      search
        (preserving, get_message_count-Keeps, collect_undeleted-Keeps, get_message_unique_id-Keeps)

pub ruleset reading_rules = (
  preserving, get_message_count-Keeps, get_undeleted_message_count-Keeps, get_message_content-Keeps,
  top-Keeps, get_message_size-Keeps, get_message_unique_id-Keeps,
  get_all_undeleted_messages_sizes-Keeps, get_all_undeleted_messages_unique_ids-Keeps,
)

pub read_only_mode_allowed-Keeps :
    {S : Type 0} (env : Env S) {P : World S → Type 0}
    → Preserves P (call env.adapter.read_only_mode_allowed)
    → Preserves P (read_only_mode_allowed env)
unfolding read_only_mode_allowed
read_only_mode_allowed-Keeps env mode = mode

-- A property of the world that does not look at the adapter.
pub record IsAdapterFree {S : Type 0} (P : World S → Type 0) : Type 0 where
  pub change : (w : World S) (s : S) → P w → P (record w { adapter = s })

module _ {S : Type 0} (env : Env S) {P : World S → Type 0} (free : IsAdapterFree P) where
  pub call-free : {A : Type 0} (action : Action S A) → Preserves P (call action)
  call-free action = Preserves-call action λ w h. free.change w _ h

  marked-free : (i : ℕ) → Preserves P (is_message_marked_as_deleted env i)
  unfolding is_message_marked_as_deleted
  marked-free i = search (preserving, call-free)

  pub mark-free : (i : ℕ) → Preserves P (mark_message_as_deleted env i)
  unfolding mark_message_as_deleted
  mark-free i = search (preserving, call-free)

  pub unmark-free : Preserves P (unmark_messages_marked_as_deleted env)
  unfolding unmark_messages_marked_as_deleted
  unmark-free = search (preserving, call-free)

  pub commit-free : Preserves P (commit_deletions env)
  unfolding commit_deletions
  commit-free = search (preserving, call-free)

  pub reads-free : ReadsKeep env P
  reads-free = record {
    count = call-free _;
    content = λ i e. call-free _;
    unique_id = λ i. call-free _;
    marked = marked-free;
  }
