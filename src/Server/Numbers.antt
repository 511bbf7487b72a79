-- ===== src/Server/Numbers.antt =====
-- That connections have numbers of their own.
use pop3sf.Prelude.{
  ℕ, ◌+◌, ◌<◌, ◌≡◌, refl, sym, subst, Bool, true, false, not, List, [], ◌∷◌, ◌++◌, All, arith,
  if◌then◌else◌,
}
use pop3sf.Prelude.Sort.{Pairwise}
use pop3sf.Adapter.{Result, Action}
use pop3sf.Adapter.Actions.{◌>>◌, modify}
use pop3sf.Session.{ConnectionInfo}
use pop3sf.Settings.{Settings}
use pop3sf.Server.Keeps.{Keeps, Keeps-bind, closing-state, start-Keeps}
use pop3sf.Server.{
  Server, new_server, Accepted, connected, ssl_error, failed, Polled,
  check_if_another_client_can_be_connected, turn_away, start_thread, start_per_client_thread,
  accept_client_connection_on_a_server_socket, start_server_loop,
}

-- The threads that were started serve connections with ascending numbers below the next one.
record HasNumbers (s : Server) : Type 0 where
  below : All (λ (c : ConnectionInfo). c.connection_id < s.next_connection_id) s.started
  ascending : Pairwise (λ (c d : ConnectionInfo). c.connection_id < d.connection_id) s.started

All-append : {A : Type 0} (P : A → Type 0) (xs ys : List A) → All P xs → All P ys → All P (xs ++ ys)
All-append P [] ys h k = k
All-append P (x ∷ xs) ys h k = (h.0, All-append P xs ys h.1 k)

abbrev IsBelow : ℕ → ConnectionInfo → Type 0
IsBelow n c = c.connection_id < n

abbrev IsLess : ConnectionInfo → ConnectionInfo → Type 0
IsLess c d = c.connection_id < d.connection_id

IsBelow-suc : (n : ℕ) (cs : List ConnectionInfo) → All (IsBelow n) cs → All (IsBelow (n + 1)) cs
IsBelow-suc n [] h = tt
IsBelow-suc n (c ∷ cs) h = (omega (arith, h.0), IsBelow-suc n cs h.1)

Pairwise-last :
    (cs : List ConnectionInfo) (d : ConnectionInfo)
    → All (IsBelow d.connection_id) cs
    → Pairwise IsLess cs
    → Pairwise IsLess (cs ++ d ∷ [])
Pairwise-last [] d h p = (tt, tt)
Pairwise-last (c ∷ cs) d h p =
    (All-append (IsLess c) cs (d ∷ []) p.0 (h.0, tt), Pairwise-last cs d h.1 p.1)

module _ (settings : Settings) (is_alive : ℕ → ConnectionInfo → Bool) where
  turn_away-HasNumbers :
      (c : ConnectionInfo) (r : Result (Unit {0}))
      → Keeps HasNumbers (turn_away settings is_alive c r)
  unfolding turn_away
  turn_away-HasNumbers c r s h =
      subst HasNumbers (sym (closing-state settings is_alive r _))
        (record { below = h.below; ascending = h.ascending })

  abbrev count_up : Action Server Unit
  count_up = modify (λ s. record s { next_connection_id = s.next_connection_id + 1 })

  choose-HasNumbers :
      (can_connect : Bool) (c : ConnectionInfo) (r : Result (Unit {0})) (s : Server)
      → c.connection_id ≡ s.next_connection_id
      → HasNumbers s
      → HasNumbers
          (((if not can_connect
                then turn_away settings is_alive c r
                else start_thread settings is_alive c)
              >> count_up)
            s).1
  unfolding start_thread
  choose-HasNumbers true c r s e h = record {
    below =
        All-append (IsBelow (s.next_connection_id + 1)) s.started (c ∷ [])
          (IsBelow-suc s.next_connection_id s.started h.below) (omega (arith, e), tt);
    ascending =
        Pairwise-last s.started c (subst (λ n. All (IsBelow n) s.started) (sym e) h.below)
          h.ascending;
  }
  choose-HasNumbers false c r s e h =
      Keeps-bind HasNumbers (turn_away settings is_alive c r) (λ a. count_up)
        (turn_away-HasNumbers c r)
        (λ a t m. record {
          below = IsBelow-suc t.next_connection_id t.started m.below;
          ascending = m.ascending;
        })
        s h

  accept-HasNumbers :
      (a : Accepted)
      → Keeps HasNumbers (accept_client_connection_on_a_server_socket settings is_alive a)
  unfolding accept_client_connection_on_a_server_socket start_per_client_thread
      check_if_another_client_can_be_connected
  accept-HasNumbers ssl_error s h = h
  accept-HasNumbers (failed e) s h = h
  accept-HasNumbers (connected address port r) s h =
      let s1 = (check_if_another_client_can_be_connected settings is_alive s).1 in
      choose-HasNumbers _ _ r s1 refl (record { below = h.below; ascending = h.ascending })

  -- Whatever the server accepts, and however its loop ends, the connections that it has started
  -- threads for have ascending numbers, so that no two of them share one.
  pub start_server_loop-ascending :
      (polls : List Polled) (server_sockets : List ℕ)
      → Pairwise
          (λ (c d : ConnectionInfo). c.connection_id < d.connection_id)
          (start_server_loop settings is_alive polls (new_server server_sockets)).1.started
  start_server_loop-ascending polls server_sockets =
      let first : HasNumbers (new_server server_sockets) = record { below = tt; ascending = tt } in
      (start-Keeps settings is_alive HasNumbers accept-HasNumbers
        (λ s going closed h. record { below = h.below; ascending = h.ascending }) polls
        (new_server server_sockets) first).ascending
