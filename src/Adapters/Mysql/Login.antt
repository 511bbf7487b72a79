-- ===== src/Adapters/Mysql/Login.antt =====
-- Whom the database adapter for many users lets in, and whose messages they get.
use pop3sf.Prelude.{ℕ, ◌≡◌, refl, ap, Bool, true, false, Option, none, some, List, [], ◌∷◌, map}
use pop3sf.Text.{Text}
use pop3sf.Adapter.{Action, Result, ok, raised}
use pop3sf.Adapter.Actions.{and_then, modify, pure, ◌>>=◌}
use pop3sf.Adapters.{Library, Marked, unmarked, check_bcrypt_password}
use pop3sf.Adapters.Mysql.{Database, mysql_login_successful}
use pop3sf.Adapters.Mysql.Users.{
  MultiState, multiuser, verify_multiuser, check_user, remember_user, generate_multiuser_index,
  index_of_user,
}

module _ (library : Library) {D : Type 0} (database : Database library D) where
  open database use {select_user, select_ids_of_user}

  remember-inv :
      (id : ℕ) (r : Result Bool) (s s' : MultiState library database)
      → and_then r (remember_user library database id) s ≡ (ok true, s')
      → (r ≡ ok true) × (s' ≡ record s { own = some id })
  unfolding remember_user
  remember-inv id (raised e) s s' h = cc
  remember-inv id (ok false) s s' h = cc
  remember-inv id (ok true) s s' h = (refl, cc)

  check-inv :
      (password : Text) (r : Result (List (ℕ × Text))) (s s' : MultiState library database)
      → and_then r (λ rows. check_user library database rows password) s ≡ (ok true, s')
      → (id : ℕ) × (hash : Text) × (r ≡ ok ((id, hash) ∷ []))
        × (check_bcrypt_password library password hash ≡ ok true)
        × (s' ≡ record s { own = some id })
  unfolding check_user
  check-inv password (raised e) s s' h = cc
  check-inv password (ok []) s s' h = cc
  check-inv password (ok (a ∷ b ∷ rows)) s s' h = cc
  check-inv password (ok ((id, hash) ∷ [])) s s' h =
      let (granted, state) = remember-inv id (check_bcrypt_password library password hash) s s' h in
      (id, hash, refl, granted, state)

  -- the rest of `login_successful`, behind the answer of the database
  fill_index : List (Marked ℕ) → Action (MultiState library database) Unit
  fill_index index = modify (λ s. record s { message_index = index })

  fill-inv :
      (r : Result (List ℕ)) (s s'' : MultiState library database)
      → (and_then r (λ ids. pure (map unmarked ids)) >>= fill_index) s ≡ (ok tt, s'')
      → (ids : List ℕ) × (r ≡ ok ids) × (s''.message_index ≡ map unmarked ids)
  unfolding fill_index
  fill-inv (raised e) s s'' h = cc
  fill-inv (ok ids) s s'' h = (ids, refl, cc)

  index-inv :
      (user : Option ℕ) (id : ℕ) (s' s'' : MultiState library database)
      → user ≡ some id
      → (index_of_user library database user >>= fill_index) s' ≡ (ok tt, s'')
      → (ids : List ℕ) × ((select_ids_of_user id s'.mysql_connection).0 ≡ ok ids)
        × (s''.message_index ≡ map unmarked ids)
  unfolding index_of_user
  index-inv none id s' s'' e h = cc
  index-inv (some user) id s' s'' e h =
      let (ids, selected, index) =
        fill-inv (select_ids_of_user user s'.mysql_connection).0 _ s'' h in
      (ids, cc, index)

  -- Whom the adapter lets in has a single row in the table of users, whose password matches, and gets
  -- the messages of that row's identifier, none of them with a mark.
  pub login_multiuser-gets_own :
      (username password : Text) (read_only : Bool) (s s' s'' : MultiState library database)
      → verify_multiuser library database username password s ≡ (ok true, s')
      → mysql_login_successful library database (multiuser library database) username read_only s'
        ≡ (ok tt, s'')
      → (id : ℕ) × (hash : Text) × (ids : List ℕ) × ((select_user username s.mysql_connection).0
          ≡ ok ((id, hash) ∷ []))
        × (check_bcrypt_password library password hash ≡ ok true)
        × ((select_ids_of_user id s'.mysql_connection).0 ≡ ok ids)
        × (s''.message_index ≡ map unmarked ids)
  unfolding verify_multiuser mysql_login_successful generate_multiuser_index fill_index
  login_multiuser-gets_own username password read_only s s' s'' h k =
      let (id, hash, row, granted, state) =
        check-inv password (select_user username s.mysql_connection).0 _ s' h in
      let (ids, selected, index) =
        index-inv s'.own id s' s'' (ap (λ (t : MultiState library database). t.own) state) k in
      (id, hash, ids, row, granted, selected, index)
