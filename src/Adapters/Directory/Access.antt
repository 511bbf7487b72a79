-- ===== src/Adapters/Directory/Access.antt =====
-- Whom the directory adapter for many users lets in, and that a username cannot name another path.
use pop3sf.Prelude.{
  ℕ, ◌≤◌, ◌≡◌, ◌≢◌, ◌⊎◌, inl, inr, Bool-cases, refl, ap, subst, Bool, true, false, not, ◌||◌,
  Option, none, some, List, [], ◌∷◌, map, ◌==◌, arith, if◌then◌else◌,
}
use pop3sf.Text.{Text, lf, strip, drop_final_newline}
use pop3sf.Adapter.{Action, Result, ok, raised}
use pop3sf.Adapter.Actions.{and_then, modify, gets, pure, lift, ◌>>=◌}
use pop3sf.Adapters.{Library, unmarked, check_bcrypt_password}
use pop3sf.Adapters.Files.{Files}
use pop3sf.Adapters.Directory.{
  Entry, directory_login_successful, generate_message_index_using_full_directory_path,
}
use pop3sf.Adapters.Directory.Users.{
  is_username_character, all_username_characters, matches_username, password_file_name, MultiState,
  multi_directory, verify_multi_directory, check_directory, check_password_file, remember_directory,
  generate_multi_directory_index, index_of_directory, generate_directory_index,
}

-- `c in s`
abbrev pub has_character : ℕ → Text → Bool
has_character c [] = false
has_character c (d ∷ ds) = c == d || has_character c ds

has-drop :
    (c : ℕ) (s : Text)
    → c ≢ lf
    → has_character c s ≡ true
    → has_character c (drop_final_newline s) ≡ true
unfolding drop_final_newline
has-drop c [] n h = h
has-drop c (d ∷ []) n h = ground arith
has-drop c (d ∷ e ∷ es) n h = ground (arith, has-drop c (e ∷ es) n)

all-false :
    (c : ℕ) (s : Text)
    → is_username_character c ≡ false
    → has_character c s ≡ true
    → all_username_characters s ≡ false
unfolding all_username_characters
all-false c [] f h = cc
all-false c (d ∷ ds) f h = ground (arith, all-false c ds f)

not-matches :
    (c : ℕ) (username : Text)
    → is_username_character c ≡ false
    → c ≢ lf
    → has_character c username ≡ true
    → matches_username username ≡ false
unfolding matches_username
not-matches c username f n h =
    ground (arith, all-false c (drop_final_newline username) f (has-drop c username n h))

-- What a username may consist of: digits, Latin letters, the underscore and the hyphen.
abbrev pub IsAllowed : ℕ → Type 0
IsAllowed c =
    ((48 ≤ c) × (c ≤ 57)) ⊎ ((65 ≤ c) × (c ≤ 90)) ⊎ ((97 ≤ c) × (c ≤ 122)) ⊎ (c ≡ 95) ⊎ (c ≡ 45)

is_username_character-IsAllowed : (c : ℕ) → is_username_character c ≡ true → IsAllowed c
unfolding is_username_character
is_username_character-IsAllowed c h = ground arith

is_username_character-refuses : (c : ℕ) → ¬ IsAllowed c → is_username_character c ≡ false
is_username_character-refuses c n = elim (Bool-cases (is_username_character c)) [
  | inl h ↦ absurd (n (is_username_character-IsAllowed c h))
  | inr h ↦ h
]

module _ (library : Library) {F : Type 0} (files : Files library F) where
  open files use {join_path, isfile, read_file}

  -- A username with a character, other than a line feed, that is no digit, no Latin letter, no `_` and
  -- no `-`, be it a slash or a dot, is refused: the result is `False` whatever the files are, and
  -- nothing changes.
  pub verify_multi_directory-refuses :
      (c : ℕ) (username password : Text) (s : MultiState library files)
      → ¬ IsAllowed c
      → c ≢ lf
      → has_character c username ≡ true
      → verify_multi_directory library files username password s ≡ (ok false, s)
  unfolding verify_multi_directory
  verify_multi_directory-refuses c username password s f n h =
      rw (not-matches c username (is_username_character-refuses c f) n h) refl

  remember-inv :
      (path : Text) (r : Result Bool) (s s' : MultiState library files)
      → and_then r (remember_directory library files path) s ≡ (ok true, s')
      → (r ≡ ok true) × (s' ≡ record s { own = some path })
  unfolding remember_directory
  remember-inv path (raised e) s s' h = cc
  remember-inv path (ok false) s s' h = cc
  remember-inv path (ok true) s s' h = (refl, cc)

  read-inv :
      (path password : Text) (r : Result Text) (s s' : MultiState library files)
      → (lift r >>= λ hash.
            lift (check_bcrypt_password library password (strip hash))
            >>= remember_directory library files path)
          s
        ≡ (ok true, s')
      → (hash : Text) × (r ≡ ok hash)
        × (check_bcrypt_password library password (strip hash) ≡ ok true)
        × (s' ≡ record s { own = some path })
  read-inv path password (raised e) s s' h = cc
  read-inv path password (ok hash) s s' h =
      let (granted, state) =
        remember-inv path (check_bcrypt_password library password (strip hash)) s s' h in
      (hash, refl, granted, state)

  file-inv :
      (exists : Bool) (path password : Text) (s s' : MultiState library files)
      → (if not exists then pure false else check_password_file library files path password) s
        ≡ (ok true, s')
      → (exists ≡ true)
        × (hash : Text) × (read_file (join_path path password_file_name) s.files ≡ ok hash)
        × (check_bcrypt_password library password (strip hash) ≡ ok true)
        × (s' ≡ record s { own = some path })
  unfolding check_password_file
  file-inv false path password s s' h = cc
  file-inv true path password s s' h =
      let (hash, content, granted, state) = read-inv path password _ s s' h in
      (refl, hash, content, granted, state)

  username-inv :
      (matches : Bool) (username password : Text) (s s' : MultiState library files)
      → (if not matches
            then pure false
            else (gets (λ t. t.directory_path) >>= λ directory_path.
                check_directory library files (join_path directory_path username) password))
          s
        ≡ (ok true, s')
      → let path = join_path s.directory_path username in
        (matches ≡ true)
        × (isfile (join_path path password_file_name) s.files ≡ true)
        × (hash : Text) × (read_file (join_path path password_file_name) s.files ≡ ok hash)
        × (check_bcrypt_password library password (strip hash) ≡ ok true)
        × (s' ≡ record s { own = some path })
  unfolding check_directory
  username-inv false username password s s' h = cc
  username-inv true username password s s' h =
      let (file, hash, content, granted, state) =
        file-inv _ (join_path s.directory_path username) password s s' h in
      (refl, file, hash, content, granted, state)

  -- the rest of `login_successful`, behind the index
  fill_index : List (Entry files.Epoch) → Action (MultiState library files) Unit
  fill_index entries = modify (λ s. record s { message_index = map unmarked entries })

  fill-inv :
      (r : Result (List (Entry files.Epoch))) (s s'' : MultiState library files)
      → (lift r >>= fill_index) s ≡ (ok tt, s'')
      → (entries : List (Entry files.Epoch)) × (r ≡ ok entries)
        × (s''.message_index ≡ map unmarked entries)
  unfolding fill_index
  fill-inv (raised e) s s'' h = cc
  fill-inv (ok entries) s s'' h = (entries, refl, cc)

  index-inv :
      (own : Option Text) (path : Text) (s s'' : MultiState library files)
      → own ≡ some path
      → (index_of_directory library files own >>= fill_index) s ≡ (ok tt, s'')
      → (entries : List (Entry files.Epoch)) × (generate_message_index_using_full_directory_path
            library files path s.files
          ≡ ok entries)
        × (s''.message_index ≡ map unmarked entries)
  unfolding index_of_directory generate_directory_index
  index-inv none path s s'' e h = cc
  index-inv (some own) path s s'' e h =
      let (entries, generated, index) =
        fill-inv (generate_message_index_using_full_directory_path library files own s.files) s s''
          h in
      (entries, cc, index)

  -- Whom the adapter lets in has a username of the allowed form and, in the directory of that name, a
  -- password file whose stripped content the password matches; and gets that directory's index, with
  -- no message marked.
  pub login_multi_directory-gets_own :
      (username password : Text) (read_only : Bool) (s s' s'' : MultiState library files)
      → verify_multi_directory library files username password s ≡ (ok true, s')
      → directory_login_successful library files
          (multi_directory library files)
          username
          read_only
          s'
        ≡ (ok tt, s'')
      → let path = join_path s.directory_path username in
        (matches_username username ≡ true)
        × (isfile (join_path path password_file_name) s.files ≡ true)
        × (hash : Text) × (entries : List (Entry files.Epoch)) × (read_file
              (join_path path password_file_name)
              s.files
            ≡ ok hash)
        × (check_bcrypt_password library password (strip hash) ≡ ok true)
        × (generate_message_index_using_full_directory_path library files path s.files ≡ ok entries)
        × (s''.message_index ≡ map unmarked entries)
  unfolding verify_multi_directory directory_login_successful generate_multi_directory_index
      fill_index
  login_multi_directory-gets_own username password read_only s s' s'' h k =
      let path = join_path s.directory_path username in
      let (matches, file, hash, content, granted, state) =
        username-inv (matches_username username) username password s s' h in
      let (entries, generated, index) =
        index-inv s'.own path s' s'' (ap (λ (t : MultiState library files). t.own) state) k in
      (
        matches,
        file,
        hash,
        entries,
        content,
        granted,
        subst
            (λ f.
              generate_message_index_using_full_directory_path library files path f ≡ ok entries)
            (ap (λ (t : MultiState library files). t.files) state) generated,
        index,
      )
