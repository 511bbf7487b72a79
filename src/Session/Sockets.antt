-- ===== src/Session/Sockets.antt =====
-- What the calls on the socket, and `try`, leave as it was.
use pop3sf.Prelude.{◌≡◌, refl, true, List, [], ◌∷◌, ℕ, suc, ◌≤◌, arith, length}
use pop3sf.Text.Encoding.{Bytes}
use pop3sf.Adapter.{Result, ok}
use pop3sf.Session.{
  PollResult, World, Exec, lift, send, recv, coming_polls, polled, close, next_result, try_with,
}
use pop3sf.Session.Keeps.{Preserves, Leads}

-- A property that depends on the connection's data and on how `close` will end, or on nothing that
-- a call on the socket other than `close` changes.
pub record IsOffline {S : Type 0} (P : World S → Type 0) : Type 0 where
  pub change :
      (v w : World S)
      → w.status ≡ v.status
      → w.socket.close_result ≡ v.socket.close_result
      → w.clients ≡ v.clients
      → w.closed ≡ v.closed
      → P v
      → P w

module _ {S : Type 0} {P : World S → Type 0} (offline : IsOffline P) where
  pub send-offline : (bytes : Bytes) → Preserves P (send bytes)
  unfolding send
  send-offline bytes = record { kept = λ w. offline.change w _ refl refl refl refl }

  pub recv-offline : Preserves P recv
  unfolding recv
  recv-offline = record { kept = λ w. offline.change w _ refl refl refl refl }

  pub polled-offline : (rest : List PollResult) → Preserves P (polled rest)
  unfolding polled
  polled-offline rest = record { kept = λ w. offline.change w _ refl refl refl refl }

module _ {S : Type 0} {P : World S → Type 0} where
  pub coming_polls-Preserves : Preserves P coming_polls
  unfolding coming_polls
  coming_polls-Preserves = record { kept = λ w p. p }

  pub lift-Preserves : {A : Type 0} (r : Result A) → Preserves P (lift r)
  unfolding lift
  lift-Preserves r = record { kept = λ w p. p }

  pub try_with-Preserves :
      {A B : Type 0} (m : Exec S A) (handler : Result A → Exec S B)
      → Preserves P m
      → ((r : Result A) → Preserves P (handler r))
      → Preserves P (try_with m handler)
  unfolding try_with
  try_with-Preserves m handler h k = record { kept = λ w p. (k (m w).0).kept (m w).1 (h.kept w p) }

-- How `try` and closing the socket end.
module _ {S : Type 0} where
  pub try_with-at :
      {A B : Type 0} (m : Exec S A) (handler : Result A → Exec S B) (w : World S)
      → try_with m handler w ≡ handler (m w).0 (m w).1
  unfolding try_with
  try_with-at m handler w = refl

  pub close-at : (w : World S) → close w ≡ (w.socket.close_result, record w { closed = true })
  unfolding close
  close-at w = refl

-- `recv` has at most `n` answers left.
abbrev pub HasAtMost : {S : Type 0} → ℕ → World S → Type 0
HasAtMost n w = length w.socket.recv_results ≤ n

next-shorter :
    (n : ℕ) (default : Result Bytes) (results : List (Result Bytes))
    → length results ≤ suc n
    → length (next_result default results).1 ≤ n
unfolding next_result
next-shorter n default [] h = omega arith
next-shorter n default (r ∷ results) h = omega arith

next-no_longer :
    (n : ℕ) (default : Result Bytes) (results : List (Result Bytes))
    → length results ≤ n
    → length (next_result default results).1 ≤ n
unfolding next_result
next-no_longer n default [] h = h
next-no_longer n default (r ∷ results) h = omega arith

no_answer :
    (results : List (Result Bytes)) → length results ≤ 0 → (next_result (ok []) results).0 ≡ ok []
unfolding next_result
no_answer [] h = refl
no_answer (r ∷ results) h = absurd (omega (arith, h))

module _ {S : Type 0} where
  pub recv-Leads : (n : ℕ) → Leads {S = S} (HasAtMost (suc n)) (HasAtMost n) recv
  unfolding recv
  recv-Leads n = record { at = λ w h. next-shorter n _ w.socket.recv_results h }

  pub recv-at_most : (n : ℕ) → Preserves {S = S} (HasAtMost n) recv
  unfolding recv
  recv-at_most n = record { kept = λ w h. next-no_longer n _ w.socket.recv_results h }

  pub send-at_most : (n : ℕ) (bytes : Bytes) → Preserves {S = S} (HasAtMost n) (send bytes)
  unfolding send
  send-at_most n bytes = record { kept = λ w h. h }

  pub polled-at_most :
      (n : ℕ) (rest : List PollResult) → Preserves {S = S} (HasAtMost n) (polled rest)
  unfolding polled
  polled-at_most n rest = record { kept = λ w h. h }

  -- With no answer left `recv` gives no bytes.
  pub recv-at_end : (w : World S) → HasAtMost 0 w → (recv w).0 ≡ ok []
  unfolding recv
  recv-at_end w h = no_answer w.socket.recv_results h
