-- ===== src/Ensurer.antt =====
-- The list of logged-in clients: src/pop3sf/PerUserExclusivityEnsurer.py. Its methods hold the
-- class's lock from their first to their last line, so that each is one step on the list.
pub mod Exclusion
use pop3sf.Prelude.{
  ℕ, Bool, true, false, not, ◌&&◌, List, [], ◌∷◌, ◌++◌, select, ◌==◌, if◌then◌else◌,
}
use pop3sf.Text.{Text, text_eq}

pub record Client : Type 0 where
  pub connection_id : ℕ
  pub username : Text
  pub read_only : Bool

-- `__init__`
abbrev pub no_clients : List Client
no_clients = []

-- the test of the loop in `_add_client_locked`
unfoldable pub conflicts : Text → Bool → Client → Bool
conflicts username read_only client =
    text_eq username client.username && not (read_only && client.read_only)

-- whether the loop returns `False`
unfoldable pub any_conflict : Text → Bool → List Client → Bool
unfolding conflicts
any_conflict username read_only [] = false
any_conflict username read_only (client ∷ clients) =
    if conflicts username read_only client then true else any_conflict username read_only clients

-- `_add_client_locked`: the list afterwards and the result
unfoldable pub add_client : ℕ → Text → Bool → List Client → List Client × Bool
unfolding any_conflict
add_client connection_id username read_only clients =
    if any_conflict username read_only clients then (clients, false) else (
      clients
          ++ (record { connection_id = connection_id; username = username; read_only = read_only })
            ∷ [],
      true,
    )

-- `_remove_client_locked`
unfoldable pub remove_client : ℕ → List Client → List Client
remove_client connection_id = select (λ client. not (connection_id == client.connection_id))
