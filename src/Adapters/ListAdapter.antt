-- ===== src/Adapters/ListAdapter.antt =====
-- src/pop3sf/adapters/ListAdapter.py
use pop3sf.Prelude.{
  ℕ, ◌+◌, ◌&&◌, Bool, true, false, Option, none, some, List, [], ◌∷◌, ◌++◌, length, get_elem?, map,
  pos,
}
use pop3sf.Text.{Text, text, text_eq}
use pop3sf.Text.Decimal.{to_decimal}
use pop3sf.Text.Encoding.{Bytes, utf8, encode}
use pop3sf.Adapter.{
  Adapter, Action, adapter_close_connection, Result, ok, raised, default_connection_opened,
  default_read_only_mode_allowed, default_login_successful, default_connection_closed,
}
use pop3sf.Adapters.{
  Library, Marked, unmarked, is_marked, mark, unmark_all, index_error, encoded,
  generate_from_to_email_address, wrap_plaintext_in_email,
}

pub record ListState : Type 0 where
  pub username : Text
  pub password : Text
  pub message_objects : List (Marked Text)

-- writes a new list of messages, or raises and writes nothing
abbrev pub store : Result (List (Marked Text)) → Action ListState Unit
store (raised e) s = (raised e, s)
store (ok messages) s = (ok tt, record s { message_objects = messages })

unfoldable pub content_at : List (Marked Text) → ℕ → Result Text
content_at messages index = elim (get_elem? messages index) [
  | none ↦ raised index_error
  | some m ↦ ok m.item
]

module _ (library : Library) where
  open library use {Date, sha256_hexdigest}

  -- `enumerate(messages, 1)`
  wrap_from : Text → Date → ℕ → List Text → List (Marked Text)
  wrap_from from_to date i [] = []
  wrap_from from_to date i (body ∷ bodies) =
      unmarked
        (wrap_plaintext_in_email library body (text "Email " ++ to_decimal i) from_to from_to date)
      ∷ wrap_from from_to date (i + 1) bodies

  unfoldable pub generate_message_objects :
      Text → List Text → Bool → Option Date → Result (List (Marked Text))
  unfolding wrap_from
  generate_message_objects username messages false date = ok (map unmarked messages)
  generate_message_objects username messages true none = raised adapter_close_connection
  generate_message_objects username messages true (some date) =
      ok (wrap_from (generate_from_to_email_address username) date 1 messages)

  abbrev pub hash_of : Result Bytes → Result Text
  hash_of (raised e) = raised e
  hash_of (ok bytes) = ok (sha256_hexdigest bytes)

  abbrev pub unique_id_of : Result Text → Result Text
  unique_id_of (raised e) = raised e
  unique_id_of (ok content) = hash_of (encoded (encode utf8 content))

  abbrev pub list_adapter : Adapter ListState
  list_adapter = record {
    connection_opened = default_connection_opened;
    read_only_mode_allowed = default_read_only_mode_allowed;
    verify_login_credentials =
        λ username password s. (ok (text_eq username s.username && text_eq password s.password), s);
    login_successful = default_login_successful;
    get_message_count = λ s. (ok (pos (length s.message_objects)), s);
    get_message_content = λ index encoding s. (content_at s.message_objects index, s);
    get_message_unique_id = λ index s. (unique_id_of (content_at s.message_objects index), s);
    is_message_marked_as_deleted = λ index s. (is_marked s.message_objects index, s);
    mark_message_as_deleted = λ index s. store (mark s.message_objects index) s;
    unmark_messages_marked_as_deleted =
        λ s. (ok tt, record s { message_objects = unmark_all s.message_objects });
    commit_deletions = λ s. (ok tt, s);
    connection_closed = default_connection_closed;
  }
