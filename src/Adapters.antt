-- ===== src/Adapters.antt =====
-- What the adapters of src/pop3sf/adapters share: src/pop3sf/adapters/AdapterAuxiliaries.py, the
-- libraries that they call, and lists of messages with a deletion mark.
pub mod Marks
pub mod Shown
pub mod ListAdapter
pub mod Mysql
pub mod Files
pub mod Directory
pub mod Closed
pub mod Fresh
use pop3sf.Prelude.{
  ℕ, Bool, true, false, Option, none, some, List, [], ◌∷◌, ◌++◌, map, get_elem?, set, if◌then◌else◌,
}
use pop3sf.Text.{Text, text, text_eq, space}
use pop3sf.Text.Encoding.{Bytes, utf8, encode}
use pop3sf.Adapter.Actions.{pure, ◌>>=◌, ◌>>◌}
use pop3sf.Adapter.{Action, Exception, other_exception, unicode_encode_error, Result, ok, raised}

-- What is called of `hashlib`, `bcrypt`, `email.mime.text` and `time`: the hexadecimal SHA-256 of some
-- bytes, the check of a password against a hash, which raises on what is no hash, the hash of a
-- password with a salt, the text of a plain-text email with headers that were added in this order, and
-- a date in the format of the Date header.
pub record Library : Type 1 where
  pub Date : Type 0
  pub sha256_hexdigest : Bytes → Text
  pub checkpw : Bytes → Bytes → Result Bool
  pub hashpw : Bytes → Bytes → Bytes
  pub mime_text : Text → List (Text × Text) → Text
  pub strftime : Date → Text

-- `bytes` or a `UnicodeEncodeError`
abbrev pub encoded : Option Bytes → Result Bytes
encoded none = raised unicode_encode_error
encoded (some bytes) = ok bytes

-- Indexing a Python list: `other_exception 1` is an `IndexError`.
abbrev pub index_error : Exception
index_error = other_exception 1

unfoldable pub generate_from_to_email_address : Text → Text
generate_from_to_email_address username =
    username ++ (text " <" ++ (username ++ text "@localhost>"))

module _ (library : Library) where
  open library use {Date, checkpw, mime_text, strftime}

  unfoldable pub wrap_plaintext_in_email : Text → Text → Text → Text → Date → Text
  wrap_plaintext_in_email body subject from to date = mime_text body (
      (text "Date", strftime date)
      ∷ (text "From", from)
      ∷ (text "To", to)
      ∷ (text "Subject", subject)
      ∷ (text "X-Mailer", text "POP3SF-Plaintext-Wrapper")
      ∷ [])

  abbrev check_encoded : Option Bytes → Option Bytes → Result Bool
  check_encoded none expected = raised unicode_encode_error
  check_encoded (some supplied) none = raised unicode_encode_error
  check_encoded (some supplied) (some expected) = checkpw supplied expected

  unfoldable pub check_bcrypt_password : Text → Text → Result Bool
  check_bcrypt_password user_supplied_password expected_password_bcrypt =
      check_encoded (encode utf8 user_supplied_password) (encode utf8 expected_password_bcrypt)

-- The attributes of the adapter for one user.
pub record Credentials : Type 0 where
  pub username : Text
  pub password_bcrypt : Text

-- An `AssertionError`.
abbrev pub assertion_error : Exception
assertion_error = other_exception 3

module _ (library : Library) where
  -- `username == self._username and check_bcrypt_password(password, self._password_bcrypt)`
  unfoldable pub matches_credentials : Credentials → Text → Text → Result Bool
  matches_credentials credentials username password =
      if text_eq username credentials.username
      then check_bcrypt_password library password credentials.password_bcrypt
      else ok false

-- Lists whose items carry the attribute `marked_as_deleted`.
pub record Marked {ℓ} (A : Type ℓ) : Type ℓ where
  pub item : A
  pub marked_as_deleted : Bool

module _ {ℓ} {A : Type ℓ} where
  abbrev pub unmarked : A → Marked A
  unmarked a = record { item = a; marked_as_deleted = false }

  unfoldable pub mark_of : Option (Marked A) → Result Bool
  mark_of none = raised index_error
  mark_of (some m) = ok m.marked_as_deleted

  -- `items[index].marked_as_deleted`
  unfoldable pub is_marked : List (Marked A) → ℕ → Result Bool
  unfolding mark_of
  is_marked items index = mark_of (get_elem? items index)

  unfoldable pub mark_at : List (Marked A) → ℕ → Option (Marked A) → Result (List (Marked A))
  mark_at items index none = raised index_error
  mark_at items index (some m) = ok (set items index (record m { marked_as_deleted = true }))

  -- `items[index].marked_as_deleted = True`
  unfoldable pub mark : List (Marked A) → ℕ → Result (List (Marked A))
  unfolding mark_at
  mark items index = mark_at items index (get_elem? items index)

  -- `for m in items: m.marked_as_deleted = False`
  unfoldable pub unmark_all : List (Marked A) → List (Marked A)
  unmark_all = map (λ (m : Marked A). record m { marked_as_deleted = false })

module _ {D : Type 0} where
  unfoldable pub do_if : Bool → Action D Unit → Action D Unit
  do_if false action = pure tt
  do_if true action = action

  -- `for message in items: if message.marked_as_deleted: remove(message)`
  unfoldable pub remove_marked :
      {A : Type 0} → (A → Action D Unit) → List (Marked A) → Action D Unit
  unfolding do_if
  remove_marked remove [] = pure tt
  remove_marked remove (m ∷ items) = do
    do_if m.marked_as_deleted (remove m.item)
    remove_marked remove items
