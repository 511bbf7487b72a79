-- ===== src/Tools/Agreement.antt =====
-- That the adapters let in whom the tools gave a password.
use pop3sf.Prelude.{
  [], ◌∷◌, arith, ◌==◌, ◌≡◌, refl, sym, subst, Bool, true, false, not, Option, none, some, All,
  if◌then◌else◌,
}
use pop3sf.Text.{Text, cr, strip}
use pop3sf.Text.Encoding.{Bytes, utf8, encode}
use pop3sf.Text.Ascii.{IsVisible, encode-IsVisible, decode_utf8-IsVisible, strip-IsVisible}
use pop3sf.Adapter.{Action, Exception, ok, raised}
use pop3sf.Adapter.Actions.{and_then, raise, gets, ◌>>=◌}
use pop3sf.Adapters.{Library, encoded, check_bcrypt_password}
use pop3sf.Adapters.Files.{Files}
use pop3sf.Adapters.Directory.Users.{
  matches_username, password_file_name, MultiState, verify_multi_directory, check_directory,
  check_password_file, remember_directory,
}
use pop3sf.Tools.{hash_of, hash_password, forbidden_username, user_does_not_exist}
use pop3sf.Tools.Directory.{does_user_exist, change_user_password, set_password, write_hash}

-- What bcrypt documents: a password matches its hash, and a hash is a text of visible characters.
pub record BcryptLaws (library : Library) : Type 0 where
  pub checkpw-hashpw : (p salt : Bytes) → library.checkpw p (library.hashpw p salt) ≡ ok true
  pub hashpw-IsVisible : (p salt : Bytes) → All IsVisible (library.hashpw p salt)

-- A text without a carriage return, which reading a file in text mode would take for a line feed.
abbrev pub HasNoCr : Text → Type 0
HasNoCr content = All (λ c. (c == cr) ≡ false) content

-- What was written to a file is read from it, if it has no carriage return, and it is a file.
pub record WriteLaws {library : Library} {F : Type 0} (files : Files library F) : Type 0 where
  pub read-write :
      (path content : Text) (f f' : F)
      → HasNoCr content
      → files.write_file path content f ≡ (ok tt, f')
      → files.read_file path f' ≡ ok content
  pub isfile-write :
      (path content : Text) (f f' : F)
      → files.write_file path content f ≡ (ok tt, f')
      → files.isfile path f' ≡ true

visible-HasNoCr : (s : Text) → All IsVisible s → HasNoCr s
visible-HasNoCr [] h = tt
visible-HasNoCr (c ∷ s) h = (ground (arith, h.0), visible-HasNoCr s h.1)

module _ (library : Library) (bcrypt : BcryptLaws library) where
  pub check-hash :
      (password : Text) (bytes salt : Bytes)
      → encode utf8 password ≡ some bytes
      → check_bcrypt_password library password (library.hashpw bytes salt) ≡ ok true
  unfolding check_bcrypt_password
  check-hash password bytes salt e =
      rw
        (
          e,
          encode-IsVisible utf8 _ (bcrypt.hashpw-IsVisible bytes salt),
          bcrypt.checkpw-hashpw bytes salt,
        )
        refl

module _ {F A : Type 0} where
  encoded-inv :
      (library : Library) (salt : Bytes) (r : Option Bytes) (next : Bytes → Action F A) (f f' : F)
      (a : A)
      → and_then (hash_of library salt (encoded r)) next f ≡ (ok a, f')
      → (bytes : Bytes) × (r ≡ some bytes) × (next (library.hashpw bytes salt) f ≡ (ok a, f'))
  encoded-inv library salt none next f f' a h = cc
  encoded-inv library salt (some bytes) next f f' a h = (bytes, refl, h)

  pub validated-inv :
      (matches : Bool) (path : Text) (next : Text → Action F A) (f f' : F) (a : A)
      → and_then (if not matches then raised forbidden_username else ok path) next f ≡ (ok a, f')
      → (matches ≡ true) × (next path f ≡ (ok a, f'))
  validated-inv false path next f f' a h = cc
  validated-inv true path next f f' a h = (refl, h)

  unless-inv :
      (test : Bool) (e : Exception) (m : Action F A) (f f' : F) (a : A)
      → (if not test then raise e else m) f ≡ (ok a, f')
      → m f ≡ (ok a, f')
  unless-inv false e m f f' a h = cc
  unless-inv true e m f f' a h = h

  -- what follows the test that the user exists
  pub exists-inv :
      (matches : Bool) (path : Text) (look : Text → F → Bool) (m : Action F A) (f f' : F) (a : A)
      → (and_then (if not matches then raised forbidden_username else ok path) (λ p. gets (look p))
            >>= λ user_exists. if not user_exists then raise user_does_not_exist else m)
          f
        ≡ (ok a, f')
      → m f ≡ (ok a, f')
  exists-inv false path look m f f' a h = cc
  exists-inv true path look m f f' a h = unless-inv (look path f) user_does_not_exist m f f' a h

module _ (library : Library) {F : Type 0} (files : Files library F) (directory_path : Text)
    (bcrypt : BcryptLaws library) (writing : WriteLaws files) where
  open files use {join_path, write_file}

  set_password-inv :
      (salt : Bytes) (username password : Text) (f f' : F)
      → set_password library files directory_path salt username password f ≡ (ok tt, f')
      → (matches_username username ≡ true)
        × (bytes : Bytes) × (encode utf8 password ≡ some bytes)
        × (write_file
              (join_path (join_path directory_path username) password_file_name)
              (library.hashpw bytes salt)
              f
            ≡ (ok tt, f'))
  unfolding set_password hash_password write_hash
  set_password-inv salt username password f f' h =
      let (matches, hashed) =
        validated-inv (matches_username username) (join_path directory_path username) _ f f' tt h in
      let (bytes, e, written) = encoded-inv library salt (encode utf8 password) _ f f' tt hashed in
      let path = join_path (join_path directory_path username) password_file_name in
      let decodes = decode_utf8-IsVisible _ (bcrypt.hashpw-IsVisible bytes salt) in
      (
        matches,
        bytes,
        e,
        subst (λ o. write_hash library files directory_path path o f ≡ (ok tt, f')) decodes written,
      )

  change-inv :
      (salt : Bytes) (username password : Text) (f f' : F)
      → change_user_password library files directory_path salt username password f ≡ (ok tt, f')
      → set_password library files directory_path salt username password f ≡ (ok tt, f')
  unfolding change_user_password does_user_exist
  change-inv salt username password f f' h =
      exists-inv (matches_username username) (join_path directory_path username) files.exists
        (set_password library files directory_path salt username password) f f' tt h

module _ (library : Library) {F : Type 0} (files : Files library F) (bcrypt : BcryptLaws library)
    (writing : WriteLaws files) where
  open files use {join_path, isfile, read_file}

  verify-holds :
      (username password hash : Text) (s : MultiState library files)
      → let path = join_path s.directory_path username in
        matches_username username ≡ true
        → isfile (join_path path password_file_name) s.files ≡ true
        → read_file (join_path path password_file_name) s.files ≡ ok hash
        → check_bcrypt_password library password (strip hash) ≡ ok true
        → verify_multi_directory library files username password s
          ≡ (ok true, record s { own = some path })
  unfolding verify_multi_directory check_directory check_password_file remember_directory
  verify-holds username password hash s matches file content granted =
      rw (matches, file, content, granted) refl

  -- If hashes of bcrypt match their passwords and are visible characters, and what is written to a
  -- file is read from it, if it has no carriage return, a password that the tool has set for a user is accepted by the adapter for
  -- many users on the same directory, as long as no file has changed in between.
  pub verify-change_user_password :
      (salt : Bytes) (username password : Text) (f : F) (s : MultiState library files)
      → change_user_password library files s.directory_path salt username password f
        ≡ (ok tt, s.files)
      → verify_multi_directory library files username password s
        ≡ (ok true, record s { own = some (join_path s.directory_path username) })
  verify-change_user_password salt username password f s h =
      let dir = s.directory_path in
      let path = join_path (join_path dir username) password_file_name in
      let (matches, bytes, e, written) =
        set_password-inv library files dir bcrypt writing salt username password f s.files
          (change-inv library files dir bcrypt writing salt username password f s.files h) in
      let hash = library.hashpw bytes salt in
      verify-holds username password hash s matches
        (writing.isfile-write path hash f s.files written)
        (writing.read-write path hash f s.files
          (visible-HasNoCr hash (bcrypt.hashpw-IsVisible bytes salt)) written)
        (subst (λ t. check_bcrypt_password library password t ≡ ok true)
          (sym (strip-IsVisible hash (bcrypt.hashpw-IsVisible bytes salt)))
          (check-hash library bcrypt password bytes salt e))
