-- ===== src/Helper.antt =====
-- src/pop3sf/AdapterHelperWrapper.py: the server's calls of the adapter, with the checks and loops
-- around them, and `authentication_successful` of src/pop3sf/ClientStatusHolder.py.
-- The adapter is any adapter; the server passes the one of Locking.antt around the configured one.
pub mod Keeps
pub mod Answers
pub mod ReadOnly
pub mod Login
pub mod Unaffected
pub mod Quiet
pub mod Sharing
pub mod Inside
pub mod Listing
pub mod Passwords
use mathlib.Core.List.{tail}
use pop3sf.Prelude.{
  ℕ, zero, suc, ◌+◌, Bool, true, false, not, ◌&&◌, Option, none, some, List, [], ◌∷◌, ◌++◌, length,
  take, map, ltb, leb, ◌==◌, if◌then◌else◌, exceeds, is_negative, to_ℕ,
}
use pop3sf.Text.{
  Text, lf, crlf, text, text_eq, join, split_lines_without_discarding_empty_lines,
  canonicalize_newlines, convert_index_to_message_number, drop_final_newline,
}
use pop3sf.Text.Decimal.{Unicode}
use pop3sf.Text.Encoding.{Bytes, encode}
use pop3sf.Response.{
  Response, auth, utf8_code, in_use, err_response, err_internal, err_read_only_mailbox_access,
  close_connection_after_sending_data,
}
use pop3sf.Ensurer.{add_client}
use pop3sf.Settings.{Settings}
use pop3sf.Adapter.{Adapter, send_data}
use pop3sf.Session.{
  ClientStatus, ConnectionInfo, Exec, pure, raise, gets, modify, call, sleep, update_clients, ◌>>=◌,
  ◌>>◌,
}

-- What the server is run with.
pub record Env (S : Type 0) : Type 0 where
  pub settings : Settings
  pub open settings use *
  pub adapter : Adapter S
  pub unicode : Unicode

-- `raise` of a `SendDataToClientException`
abbrev pub respond : {S A : Type 0} → Response → Exec S A
respond r = raise (send_data r)

abbrev pub when : {S : Type 0} → Bool → Exec S Unit → Exec S Unit
when b m = if b then m else pure tt

-- `re.match(r'^[\x21-\x7e]{1,70}$', s)`, where `$` also matches before a line feed at the end
unfoldable pub all_visible : Text → Bool
all_visible [] = true
all_visible (c ∷ cs) = leb 0x21 c && leb c 0x7e && all_visible cs

unfoldable pub matches_unique_id : Text → Bool
unfolding drop_final_newline all_visible
matches_unique_id s =
    let t = drop_final_newline s in leb 1 (length t) && leb (length t) 70 && all_visible t

-- The lines up to the first empty one, and the lines from there on.
unfoldable pub header_lines : List Text → List Text × List Text
header_lines [] = ([], [])
header_lines ([] ∷ ls) = ([], [] ∷ ls)
header_lines ((c ∷ cs) ∷ ls) = let (headers, rest) = header_lines ls in ((c ∷ cs) ∷ headers, rest)

unfoldable pub requested_lines : ℕ → List Text → List Text
unfolding header_lines
requested_lines n all_lines =
    let (headers, rest) = header_lines all_lines in headers ++ (take 1 rest ++ take n (tail rest))

-- whether `len(ids) == len(set(ids))`
unfoldable pub mem_text : Text → List Text → Bool
mem_text t [] = false
mem_text t (u ∷ us) = if text_eq t u then true else mem_text t us

unfoldable pub all_different : List Text → Bool
unfolding mem_text
all_different [] = true
all_different (t ∷ ts) = not (mem_text t ts) && all_different ts

module _ {S : Type 0} (env : Env S) where
  open env use {adapter, settings}

  unfoldable pub connection_opened : Exec S Unit
  connection_opened = do
    info ← gets (λ s. s.connection_info)
    call (adapter.connection_opened info.address info.port)

  unfoldable pub read_only_mode_allowed : Exec S Bool
  read_only_mode_allowed = call adapter.read_only_mode_allowed

  unfoldable pub perform_invalid_password_punishments : Exec S Unit
  perform_invalid_password_punishments = do
    sleep settings.failed_login_delay
    if is_negative settings.max_invalid_passwords_per_session then pure tt else do
      modify (λ s. record s { invalid_password_count = s.invalid_password_count + 1 })
      count ← gets (λ s. s.invalid_password_count)
      when (exceeds count settings.max_invalid_passwords_per_session) (
          respond (
            close_connection_after_sending_data
              (err_response (text "Too many incorrect passwords") (some auth))))

  unfoldable pub verify_login_credentials : Text → Text → Exec S Bool
  verify_login_credentials username password = do
    success ← call (adapter.verify_login_credentials username password)
    when (not success) perform_invalid_password_punishments
    pure success

  unfoldable pub login_successful : Text → Exec S Unit
  login_successful username = do
    read_only ← gets (λ s. s.read_only_mailbox_access)
    call (adapter.login_successful username read_only)

  -- `ClientStatusHolder.authentication_successful`
  unfoldable pub authentication_successful : Text → Exec S Unit
  authentication_successful username = do
    status ← gets (λ s. s)
    added ←
        update_clients
          (add_client status.connection_info.connection_id username status.read_only_mailbox_access)
    when (not added)
        (respond (err_response (text "This user is logged in in another session") (some in_use)))
    modify (λ s. record s {
      authenticated = true;
      username = some username;
      authorization_state_username = none;
    })
    login_successful username

  pub get_message_count : Exec S ℕ
  get_message_count = do
    message_count ← call adapter.get_message_count
    if is_negative message_count then respond err_internal else pure (to_ℕ message_count)

  unfoldable pub is_message_marked_as_deleted : ℕ → Exec S Bool
  is_message_marked_as_deleted index = do
    read_only ← gets (λ s. s.read_only_mailbox_access)
    if read_only then pure false else call (adapter.is_message_marked_as_deleted index)

  -- The loops over `range(...)`: the rounds left, the index, and what has been collected.
  pub count_undeleted : ℕ → ℕ → ℕ → Exec S ℕ
  count_undeleted zero index count = pure count
  count_undeleted (suc rounds) index count = do
    deleted ← is_message_marked_as_deleted index
    count_undeleted rounds (index + 1) (if deleted then count else count + 1)

  pub get_undeleted_message_count : Exec S ℕ
  get_undeleted_message_count = do n ← get_message_count; count_undeleted n 0 0

  pub get_message_content : ℕ → Exec S Text
  get_message_content index = do
    encoding ← gets (λ s. s.encoding)
    call (adapter.get_message_content index encoding)

  pub get_headers_and_first_n_lines_of_a_message : ℕ → ℕ → Exec S Text
  get_headers_and_first_n_lines_of_a_message index n = do
    content ← get_message_content index
    pure (join crlf (requested_lines n (split_lines_without_discarding_empty_lines content)))

  unfoldable pub mark_message_as_deleted : ℕ → Exec S Unit
  mark_message_as_deleted index = do
    read_only ← gets (λ s. s.read_only_mailbox_access)
    if read_only
        then respond err_read_only_mailbox_access
        else call (adapter.mark_message_as_deleted index)

  unfoldable pub unmark_messages_marked_as_deleted : Exec S Unit
  unmark_messages_marked_as_deleted = do
    read_only ← gets (λ s. s.read_only_mailbox_access)
    if read_only
        then respond err_read_only_mailbox_access
        else call adapter.unmark_messages_marked_as_deleted

  unfoldable pub commit_deletions : Exec S Unit
  commit_deletions = do
    read_only ← gets (λ s. s.read_only_mailbox_access)
    if read_only then pure tt else call adapter.commit_deletions

  size_of : Option Bytes → Exec S ℕ
  size_of none = respond (
      err_response
        (text
          "The message, whose size was obtained, contains a non-ASCII character (the UTF-8 mode is not enabled)")
        (some utf8_code))
  size_of (some bytes) = pure (length bytes)

  pub get_message_size : ℕ → Exec S ℕ
  get_message_size index = do
    content ← get_message_content index
    encoding ← gets (λ s. s.encoding)
    size_of (encode encoding (canonicalize_newlines content))

  pub collect_undeleted :
      {A : Type 0} → (ℕ → Exec S A) → ℕ → ℕ → List (ℕ × A) → Exec S (List (ℕ × A))
  collect_undeleted get zero index entries = pure entries
  collect_undeleted get (suc rounds) index entries = do
    deleted ← is_message_marked_as_deleted index
    if deleted then collect_undeleted get rounds (index + 1) entries else do
      value ← get index
      collect_undeleted get rounds (index + 1)
          (entries ++ (convert_index_to_message_number index, value) ∷ [])

  pub get_all_undeleted_messages_sizes : Exec S (List (ℕ × ℕ))
  get_all_undeleted_messages_sizes = do
    n ← get_message_count
    collect_undeleted get_message_size n 0 []

  pub get_message_unique_id : ℕ → Exec S Text
  get_message_unique_id index = do
    unique_id ← call (adapter.get_message_unique_id index)
    if matches_unique_id unique_id then pure unique_id else respond err_internal

  pub get_all_undeleted_messages_unique_ids : Exec S (List (ℕ × Text))
  get_all_undeleted_messages_unique_ids = do
    n ← get_message_count
    entries ← collect_undeleted get_message_unique_id n 0 []
    if all_different (map (λ e. e.1) entries) then pure entries else respond err_internal

  unfoldable pub connection_closed : Exec S Unit
  connection_closed = call adapter.connection_closed
