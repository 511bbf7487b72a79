-- ===== src/Tools.antt =====
-- The tools for administrators (auxiliary_libs): what they share.
pub mod Directory
pub mod Mysql
pub mod Tables
pub mod Agreement
pub mod Delivery
use pop3sf.Prelude.{
  ℕ, Bool, true, false, not, Option, none, some, List, [], ◌∷◌, ◌++◌, if◌then◌else◌,
}
use pop3sf.Text.{Text, text}
use pop3sf.Text.Decimal.{to_decimal}
use pop3sf.Text.Encoding.{Bytes, utf8, encode}
use pop3sf.Adapter.{Exception, other_exception, Result, ok, raised}
use pop3sf.Adapters.{Library, encoded}

-- The exceptions of auxiliary_libs/MultiuserAdapterToolBase.py and of the directory tool, without the
-- usernames that their messages tell.
abbrev pub user_already_exists : Exception
user_already_exists = other_exception 4

abbrev pub user_does_not_exist : Exception
user_does_not_exist = other_exception 5

abbrev pub forbidden_username : Exception
forbidden_username = other_exception 6

-- a `UnicodeDecodeError`
abbrev pub unicode_decode_error : Exception
unicode_decode_error = other_exception 7

abbrev pub hash_of : Library → Bytes → Result Bytes → Result Bytes
hash_of library salt (raised e) = raised e
hash_of library salt (ok password) = ok (library.hashpw password salt)

-- `bcrypt.hashpw(password.encode("utf-8"), salt)`, where `salt` is what `gensalt()` gave
unfoldable pub hash_password : Library → Bytes → Text → Result Bytes
hash_password library salt password = hash_of library salt (encoded (encode utf8 password))

-- `_generate_filename`, with what `time.time_ns()` and `random.choices` gave
unfoldable pub generate_filename : ℕ → Text → Text → Text
generate_filename time_ns random_string filename_extension =
    to_decimal time_ns ++ (text "_" ++ (random_string ++ (text "." ++ filename_extension)))
