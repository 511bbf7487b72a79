-- ===== src/Adapters/Closed.antt =====
-- Adapters before a login.
use pop3sf.Prelude.{ℕ, ◌≡◌, Bool, pos}
use pop3sf.Text.{Text}
use pop3sf.Text.Encoding.{Encoding}
use pop3sf.Adapter.{Adapter, Result, ok, raised}
use pop3sf.Adapters.{assertion_error, index_error}

-- In the state `s` there is no message, and a login that was not verified fails by an assertion; neither
-- changes the state.
pub record IsClosed {S : Type 0} (a : Adapter S) (s : S) : Type 0 where
  pub count : a.get_message_count s ≡ (ok (pos 0), s)
  pub content : (i : ℕ) (e : Encoding) → a.get_message_content i e s ≡ (raised index_error, s)
  pub marked : (i : ℕ) → a.is_message_marked_as_deleted i s ≡ (raised index_error, s)
  pub login :
      (username : Text) (read_only : Bool)
      → a.login_successful username read_only s ≡ (raised assertion_error, s)

-- If constructing gives a state, it is such a state.
abbrev pub Constructed : {S : Type 0} → Adapter S → Result S → Type 0
Constructed a (ok s) = IsClosed a s
Constructed a (raised e) = Unit
