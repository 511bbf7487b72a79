-- ===== src/Session.antt =====
-- The state of one client's thread and the actions on it: src/pop3sf/ClientStatusHolder.py,
-- src/pop3sf/ClientConnectionInfoHolder.py. An action returns or raises, and what it wrote before it
-- raised stays written.
pub mod Keeps
pub mod Raises
pub mod Sockets
pub mod Answers
use pop3sf.Prelude.{
  ℕ, ◌+◌, Bool, true, false, Option, none, some, List, [], ◌∷◌, ◌++◌, if◌then◌else◌,
}
use pop3sf.Text.{Text}
use pop3sf.Text.Encoding.{Bytes, Encoding, ascii}
use pop3sf.Adapter.{Exception, os_error, Result, ok, raised, Action}
use pop3sf.Ensurer.{Client}

pub record ConnectionInfo : Type 0 where
  pub connection_id : ℕ
  pub address : Text
  pub port : ℕ

pub record ClientStatus : Type 0 where
  pub connection_info : ConnectionInfo
  pub authenticated : Bool
  pub username : Option Text
  pub authorization_state_username : Option Text
  pub read_only_mailbox_access : Bool
  pub encoding : Encoding
  pub custom_language : Option Text
  pub invalid_command_count : ℕ
  pub invalid_password_count : ℕ

-- `ClientStatusHolder.__init__`, but for the adapter
unfoldable pub new_client_status : ConnectionInfo → ClientStatus
new_client_status connection_info = record {
  connection_info = connection_info;
  authenticated = false;
  username = none;
  authorization_state_username = none;
  read_only_mailbox_access = false;
  encoding = ascii;
  custom_language = none;
  invalid_command_count = 0;
  invalid_password_count = 0;
}

-- What `poll` says of the client's socket.
pub data PollResult : Type 0 where
  nothing readable unexpected : PollResult

-- How the operating system answers the coming calls on the client's socket. With no answer left the
-- client has closed its side: `recv` gives no bytes, however often it is called, `poll` has nothing,
-- and `sendall` succeeds.
pub record Socket : Type 0 where
  pub recv_results : List (Result Bytes)
  pub poll_results : List PollResult
  pub send_results : List (Result (Unit {0}))
  pub close_result : Result (Unit {0})

-- What a thread can see: its status, its adapter, the ensurer's list, which all threads share, its
-- socket, the bytes that it sent, whether the socket is closed, the milliseconds that it slept, and the
-- socket's timeout in seconds, if it was set.
pub record World (S : Type 0) : Type 0 where
  pub status : ClientStatus
  pub adapter : S
  pub clients : List Client
  pub socket : Socket
  pub sent : Bytes
  pub closed : Bool
  pub slept : ℕ
  pub timeout : Option ℕ

abbrev returned : {A : Type 0} → Result A → Bool
returned (ok a) = true
returned (raised e) = false

unfoldable pub next_result : {A : Type 0} → Result A → List (Result A) → Result A × List (Result A)
next_result default [] = (default, [])
next_result default (r ∷ rs) = (r, rs)

abbrev pub Exec : Type 0 → Type 0 → Type 0
Exec S A = World S → Result A × World S

module _ {S A : Type 0} where
  pub pure : A → Exec S A
  pure a w = (ok a, w)

  pub raise : Exception → Exec S A
  raise e w = (raised e, w)

  pub lift : Result A → Exec S A
  lift r w = (r, w)

  -- reading an attribute of the status
  pub gets : (ClientStatus → A) → Exec S A
  gets f w = (ok (f w.status), w)

  -- a call of one of the adapter's methods
  pub call : Action S A → Exec S A
  call action w = let (r, s) = action w.adapter in (r, record w { adapter = s })

module _ {S : Type 0} where
  -- writing attributes of the status
  pub modify : (ClientStatus → ClientStatus) → Exec S Unit
  modify f w = (ok tt, record w { status = f w.status })

  -- a call of one of the ensurer's methods
  pub update_clients : {A : Type 0} → (List Client → List Client × A) → Exec S A
  update_clients f w = let (clients, a) = f w.clients in (ok a, record w { clients = clients })

  pub sleep : ℕ → Exec S Unit
  sleep milliseconds w = (ok tt, record w { slept = w.slept + milliseconds })

  -- `socket.sendall(bytes)`; a call that fails is taken to have sent nothing
  pub send : Bytes → Exec S Unit
  unfolding next_result
  send bytes w =
      let (r, rest) = next_result (ok tt) w.socket.send_results in
      (
        r,
        record w {
          socket = record (w.socket) { send_results = rest };
          sent = if returned r then w.sent ++ bytes else w.sent;
        },
      )

  -- `socket.recv(size)`
  pub recv : Exec S Bytes
  unfolding next_result
  recv w =
      let (r, rest) = next_result (ok []) w.socket.recv_results in
      (r, record w { socket = record (w.socket) { recv_results = rest } })

  -- `socket.settimeout(seconds)`; that the calls then raise, is among their answers
  pub set_timeout : ℕ → Exec S Unit
  set_timeout seconds w = (ok tt, record w { timeout = some seconds })

  -- the answers of `poll_object.poll(0)` that are to come, and what is left of them
  pub coming_polls : Exec S (List PollResult)
  coming_polls w = (ok w.socket.poll_results, w)

  pub polled : List PollResult → Exec S Unit
  polled rest w = (ok tt, record w { socket = record (w.socket) { poll_results = rest } })

  -- `socket.close()`
  pub close : Exec S Unit
  close w = (w.socket.close_result, record w { closed = true })

  -- `try: m` with a handler for what `m` returned or raised
  pub try_with : {A B : Type 0} → Exec S A → (Result A → Exec S B) → Exec S B
  try_with m handler w = let (r, w') = m w in handler r w'

module _ {S A B : Type 0} where
  abbrev and_then : Result A → (A → Exec S B) → Exec S B
  and_then (ok a) f w = f a w
  and_then (raised e) f w = (raised e, w)

  infixl 5 ◌>>=◌ ◌>>◌
  -- Unfolding this unfolds the actions above.
  unfoldable pub ◌>>=◌ : Exec S A → (A → Exec S B) → Exec S B
  unfolding pure raise lift gets call modify update_clients sleep send recv set_timeout coming_polls
      polled close try_with
  ◌>>=◌ m f w = let (r, w') = m w in and_then r f w'

  abbrev pub ◌>>◌ : Exec S A → Exec S B → Exec S B
  m >> n = m >>= λ _. n
