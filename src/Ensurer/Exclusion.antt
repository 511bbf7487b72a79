-- ===== src/Ensurer/Exclusion.antt =====
-- How many sessions a user can have at the same time.
use pop3sf.Prelude.{
  ℕ, ◌+◌, ◌≤◌, ◌≡◌, refl, ◌↔◌, ◌⊎◌, inl, Bool, true, false, not, ◌&&◌, List, [], ◌∷◌, ◌++◌, arith,
  if◌then◌else◌,
}
use pop3sf.Text.{Text, text_eq}
use pop3sf.Text.Words.{text_eq→eq}
use pop3sf.Ensurer.{Client, no_clients, any_conflict, add_client, remove_client}

abbrev counts : Text → Bool → Client → Bool
counts user mode c = text_eq user c.username && (if mode then c.read_only else not c.read_only)

-- The sessions of a user that are read-only (`true`) or not (`false`).
abbrev pub sessions : Text → Bool → List Client → ℕ
sessions user mode [] = 0
sessions user mode (c ∷ cs) = (if counts user mode c then 1 else 0) + sessions user mode cs

-- Either no session of the user can write, or one can and there is no other.
abbrev pub IsLimited : Text → List Client → Type 0
IsLimited user cs =
    (sessions user false cs ≡ 0) ⊎ ((sessions user false cs ≡ 1) × (sessions user true cs ≡ 0))

-- What the threads ask of the ensurer.
pub data Request : Type 0 where
  log_in : ℕ → Text → Bool → Request
  disconnect : ℕ → Request

abbrev pub serve : List Request → List Client → List Client
serve [] cs = cs
serve (log_in id user read_only ∷ rest) cs = serve rest (add_client id user read_only cs).0
serve (disconnect id ∷ rest) cs = serve rest (remove_client id cs)

sessions-append :
    (user : Text) (mode : Bool) (cs ds : List Client)
    → sessions user mode (cs ++ ds) ≡ sessions user mode cs + sessions user mode ds
sessions-append user mode [] ds = omega arith
sessions-append user mode (c ∷ cs) ds = omega (arith, sessions-append user mode cs ds)

sessions-remove :
    (user : Text) (mode : Bool) (id : ℕ) (cs : List Client)
    → sessions user mode (remove_client id cs) ≤ sessions user mode cs
unfolding remove_client
sessions-remove user mode id [] = omega arith
sessions-remove user mode id (c ∷ cs) = ground (arith, sessions-remove user mode id cs)

pub remove-IsLimited :
    (user : Text) (id : ℕ) (cs : List Client)
    → IsLimited user cs
    → IsLimited user (remove_client id cs)
remove-IsLimited user id cs h =
    ground (arith, sessions-remove user false id cs, sessions-remove user true id cs)

-- What the loop of `_add_client_locked` finds out.
no_conflict-sessions :
    (user : Text) (mode : Bool) (cs : List Client)
    → any_conflict user mode cs ≡ false
      ↔ ((sessions user false cs ≡ 0) × (mode ≡ false → sessions user true cs ≡ 0))
unfolding any_conflict
no_conflict-sessions user mode [] = ground arith
no_conflict-sessions user mode (c ∷ cs) = ground (arith, no_conflict-sessions user mode cs)

-- The ensurer lets a session in exactly when the user has no session that can write and, if the new
-- one can write, none that reads either.
pub add_client-accepts :
    (id : ℕ) (user : Text) (read_only : Bool) (cs : List Client)
    → (add_client id user read_only cs).1 ≡ true
      ↔ ((sessions user false cs ≡ 0) × (read_only ≡ false → sessions user true cs ≡ 0))
unfolding add_client
add_client-accepts id user read_only cs = ground (arith, no_conflict-sessions user read_only cs)

pub add-IsLimited :
    (user : Text) (id : ℕ) (new : Text) (read_only : Bool) (cs : List Client)
    → IsLimited user cs
    → IsLimited user (add_client id new read_only cs).0
unfolding add_client
add-IsLimited user id new read_only cs h =
    let client : Client = record { connection_id = id; username = new; read_only = read_only } in
    ground (
      arith,
      sessions-append user false cs (client ∷ []),
      sessions-append user true cs (client ∷ []),
      no_conflict-sessions new read_only cs,
      text_eq→eq user new,
    )

serve_from-IsLimited :
    (user : Text) (requests : List Request) (cs : List Client)
    → IsLimited user cs
    → IsLimited user (serve requests cs)
serve_from-IsLimited user [] cs h = h
serve_from-IsLimited user (log_in id new read_only ∷ rest) cs h =
    serve_from-IsLimited user rest _ (add-IsLimited user id new read_only cs h)
serve_from-IsLimited user (disconnect id ∷ rest) cs h =
    serve_from-IsLimited user rest _ (remove-IsLimited user id cs h)

-- After any sequence of logins and disconnections, in whatever order the threads make them, a user
-- has no session that can write, or exactly one and no read-only session beside it.
pub serve-IsLimited :
    (user : Text) (requests : List Request) → IsLimited user (serve requests no_clients)
serve-IsLimited user requests = serve_from-IsLimited user requests no_clients (inl refl)
