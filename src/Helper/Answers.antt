-- ===== src/Helper/Answers.antt =====
-- What the methods of `AdapterHelperWrapper` raise.
use pop3sf.Prelude.{ℕ, zero, suc, ◌+◌, Bool, Option, none, some, List}
use pop3sf.Text.{Text}
use pop3sf.Text.Encoding.{Bytes, Encoding}
use pop3sf.Adapter.{Exception, Adapter}
use pop3sf.Session.{Exec, call}
use pop3sf.Session.Answers.{IsRaisedIn, Answers, Answers-call, Answers-bind, answering}
use pop3sf.Helper.{
  Env, size_of, read_only_mode_allowed, get_message_count, is_message_marked_as_deleted,
  count_undeleted, get_undeleted_message_count, get_message_content,
  get_headers_and_first_n_lines_of_a_message, get_message_size, collect_undeleted,
  get_all_undeleted_messages_sizes, get_message_unique_id, get_all_undeleted_messages_unique_ids,
  mark_message_as_deleted, unmark_messages_marked_as_deleted, commit_deletions,
  verify_login_credentials, perform_invalid_password_punishments, login_successful,
  authentication_successful,
}

-- The methods of an adapter that a command calls raise, in any state, only exceptions of this kind.
pub record RaisesOnly {S : Type 0} (Q : Exception → Type 0) (adapter : Adapter S) : Type 0 where
  pub mode : (s : S) → IsRaisedIn Q (adapter.read_only_mode_allowed s).0
  pub verify : (u p : Text) (s : S) → IsRaisedIn Q (adapter.verify_login_credentials u p s).0
  pub login : (u : Text) (b : Bool) (s : S) → IsRaisedIn Q (adapter.login_successful u b s).0
  pub count : (s : S) → IsRaisedIn Q (adapter.get_message_count s).0
  pub content : (i : ℕ) (e : Encoding) (s : S) → IsRaisedIn Q (adapter.get_message_content i e s).0
  pub unique_id : (i : ℕ) (s : S) → IsRaisedIn Q (adapter.get_message_unique_id i s).0
  pub marked : (i : ℕ) (s : S) → IsRaisedIn Q (adapter.is_message_marked_as_deleted i s).0
  pub mark : (i : ℕ) (s : S) → IsRaisedIn Q (adapter.mark_message_as_deleted i s).0
  pub unmark : (s : S) → IsRaisedIn Q (adapter.unmark_messages_marked_as_deleted s).0
  pub commit : (s : S) → IsRaisedIn Q (adapter.commit_deletions s).0

module _ {S : Type 0} (env : Env S) {Q : Exception → Type 0} (only : RaisesOnly Q env.adapter) where
  pub mode-Answers : Answers Q (read_only_mode_allowed env)
  unfolding read_only_mode_allowed
  mode-Answers = Answers-call _ only.mode

  punishments-Answers : Answers Q (perform_invalid_password_punishments env)
  unfolding perform_invalid_password_punishments
  punishments-Answers = search answering depth 12

  verify-call :
      (username password : Text)
      → Answers Q (call (env.adapter.verify_login_credentials username password))
  verify-call username password = Answers-call _ (only.verify username password)

  pub verify-Answers :
      (username password : Text) → Answers Q (verify_login_credentials env username password)
  unfolding verify_login_credentials
  verify-Answers username password = search (answering, verify-call, punishments-Answers)

  login-call :
      (username : Text) (read_only : Bool)
      → Answers Q (call (env.adapter.login_successful username read_only))
  login-call username read_only = Answers-call _ (only.login username read_only)

  login-Answers : (username : Text) → Answers Q (login_successful env username)
  unfolding login_successful
  login-Answers username = search (answering, login-call)

  pub authentication-Answers :
      (username : Text) → Answers Q (authentication_successful env username)
  unfolding authentication_successful
  authentication-Answers username = search (answering, login-Answers) depth 12

  count-call : Answers Q (call env.adapter.get_message_count)
  count-call = Answers-call _ only.count

  content-call : (i : ℕ) (e : Encoding) → Answers Q (call (env.adapter.get_message_content i e))
  content-call i e = Answers-call _ (only.content i e)

  unique_id-call : (i : ℕ) → Answers Q (call (env.adapter.get_message_unique_id i))
  unique_id-call i = Answers-call _ (only.unique_id i)

  marked-call : (i : ℕ) → Answers Q (call (env.adapter.is_message_marked_as_deleted i))
  marked-call i = Answers-call _ (only.marked i)

  pub get_message_count-Answers : Answers Q (get_message_count env)
  unfolding get_message_count
  get_message_count-Answers = Answers-bind _ _ count-call (λ c. search answering)

  pub marked-Answers : (i : ℕ) → Answers Q (is_message_marked_as_deleted env i)
  unfolding is_message_marked_as_deleted
  marked-Answers i = search (answering, marked-call)

  count_undeleted-Answers : (n index k : ℕ) → Answers Q (count_undeleted env n index k)
  unfolding count_undeleted
  count_undeleted-Answers zero index k = search answering
  count_undeleted-Answers (suc n) index k =
      search (answering, marked-Answers, count_undeleted-Answers n (index + 1))

  pub undeleted_count-Answers : Answers Q (get_undeleted_message_count env)
  unfolding get_undeleted_message_count
  undeleted_count-Answers = search (answering, get_message_count-Answers, count_undeleted-Answers)

  pub content-Answers : (i : ℕ) → Answers Q (get_message_content env i)
  unfolding get_message_content
  content-Answers i = search (answering, content-call)

  pub top-Answers : (i n : ℕ) → Answers Q (get_headers_and_first_n_lines_of_a_message env i n)
  unfolding get_headers_and_first_n_lines_of_a_message
  top-Answers i n = search (answering, content-Answers)

  size_of-Answers : (b : Option Bytes) → Answers Q (size_of env b)
  unfolding size_of
  size_of-Answers none = search answering
  size_of-Answers (some b) = search answering

  pub size-Answers : (i : ℕ) → Answers Q (get_message_size env i)
  unfolding get_message_size
  size-Answers i = search (answering, content-Answers, size_of-Answers)

  pub unique_id-Answers : (i : ℕ) → Answers Q (get_message_unique_id env i)
  unfolding get_message_unique_id
  unique_id-Answers i = search (answering, unique_id-call)

  collect_undeleted-Answers :
      {A : Type 0} (get : ℕ → Exec S A) (n index : ℕ) (entries : List (ℕ × A))
      → ((i : ℕ) → Answers Q (get i))
      → Answers Q (collect_undeleted env get n index entries)
  unfolding collect_undeleted
  collect_undeleted-Answers get zero index entries k = search answering
  collect_undeleted-Answers {A} get (suc n) index entries k =
      let rest =
        λ (entries' : List (ℕ × A)). collect_undeleted-Answers get n (index + 1) entries' k in
      search (answering, marked-Answers, k, rest)

  pub sizes-Answers : Answers Q (get_all_undeleted_messages_sizes env)
  unfolding get_all_undeleted_messages_sizes
  sizes-Answers =
      search (answering, get_message_count-Answers, collect_undeleted-Answers, size-Answers)

  pub unique_ids-Answers : Answers Q (get_all_undeleted_messages_unique_ids env)
  unfolding get_all_undeleted_messages_unique_ids
  unique_ids-Answers =
      search (answering, get_message_count-Answers, collect_undeleted-Answers, unique_id-Answers)

  mark-call : (i : ℕ) → Answers Q (call (env.adapter.mark_message_as_deleted i))
  mark-call i = Answers-call _ (only.mark i)

  pub mark-Answers : (i : ℕ) → Answers Q (mark_message_as_deleted env i)
  unfolding mark_message_as_deleted
  mark-Answers i = search (answering, mark-call)

  unmark-call : Answers Q (call env.adapter.unmark_messages_marked_as_deleted)
  unmark-call = Answers-call _ only.unmark

  pub unmark-Answers : Answers Q (unmark_messages_marked_as_deleted env)
  unfolding unmark_messages_marked_as_deleted
  unmark-Answers = search (answering, unmark-call)

  commit-call : Answers Q (call env.adapter.commit_deletions)
  commit-call = Answers-call _ only.commit

  pub commit-Answers : Answers Q (commit_deletions env)
  unfolding commit_deletions
  commit-Answers = search (answering, commit-call)

pub ruleset helper_answers = (
  answering, mode-Answers, verify-Answers, authentication-Answers, get_message_count-Answers,
  marked-Answers, undeleted_count-Answers, content-Answers, top-Answers, size-Answers,
  unique_id-Answers, sizes-Answers, unique_ids-Answers, mark-Answers, unmark-Answers,
  commit-Answers,
)
