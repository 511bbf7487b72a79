-- ===== src/Server/Threads.antt =====
-- How many clients the server serves at the same time.
use pop3sf.Prelude.{
  ℕ, ◌≤◌, ◌<◌, ◌≡◌, refl, sym, subst, ap, ◌∙◌, Bool, true, false, not, List, [], ◌∷◌, ◌++◌, length,
  length-append, select, arith, ltb→lt, ℤ, pos, negsuc, to_ℕ, if◌then◌else◌,
}
use pop3sf.Adapter.{Result}
use pop3sf.Session.{ConnectionInfo}
use pop3sf.Settings.{Settings}
use pop3sf.Server.Keeps.{Keeps, Keeps-bind, closing-state, start-Keeps}
use pop3sf.Server.{
  Server, new_server, Accepted, connected, ssl_error, failed, Polled, is_below,
  check_if_another_client_can_be_connected, turn_away, start_thread, start_per_client_thread,
  accept_client_connection_on_a_server_socket, start_server_loop,
}

module _ {A : Type 0} where
  select-append : (p : A → Bool) (xs ys : List A) → select p (xs ++ ys) ≡ select p xs ++ select p ys
  select-append p [] ys = refl
  select-append p (x ∷ xs) ys = ground (arith, select-append p xs ys)

  length-select-le : (p : A → Bool) (xs : List A) → length (select p xs) ≤ length xs
  length-select-le p [] = omega arith
  length-select-le p (x ∷ xs) = ground (arith, length-select-le p xs)

  -- Choosing twice is choosing once, where the second test is the narrower one.
  select-select :
      (p q : A → Bool) (xs : List A)
      → ((x : A) → p x ≡ true → q x ≡ true)
      → select p (select q xs) ≡ select p xs
  select-select p q [] h = refl
  select-select p q (x ∷ xs) h = ground (arith, h x, select-select p q xs h)

module _ (settings : Settings) (is_alive : ℕ → ConnectionInfo → Bool) where
  -- The threads are no more than the limit, and whatever started thread still lives is among them.
  pub record IsLimited (s : Server) : Type 0 where
    pub bounded : length s.threads ≤ to_ℕ settings.max_concurrent_clients
    pub covered :
        (t : ℕ) → s.time ≤ t → select (is_alive t) s.started ≡ select (is_alive t) s.threads

  -- A thread that has ended does not come back.
  abbrev StaysDead : Type 0
  StaysDead = (t u : ℕ) (c : ConnectionInfo) → t ≤ u → is_alive u c ≡ true → is_alive t c ≡ true

  below-lt : (n : ℕ) (limit : ℤ) → is_below n limit ≡ true → n < to_ℕ limit
  below-lt n (pos m) h = ltb→lt n m h
  below-lt n (negsuc m) h = cc

  -- `check_if_another_client_can_be_connected` drops the dead threads.
  check-IsLimited :
      StaysDead → Keeps IsLimited (check_if_another_client_can_be_connected settings is_alive)
  unfolding check_if_another_client_can_be_connected
  check-IsLimited dead s l = record {
    bounded = omega (arith, l.bounded, length-select-le (is_alive s.time) s.threads);
    covered = λ t later.
        l.covered t (omega arith)
        ∙ sym (
            select-select (is_alive t) (is_alive s.time) s.threads
              (λ c. dead s.time t c (omega arith)));
  }

  start_thread-IsLimited :
      (c : ConnectionInfo) (s : Server)
      → is_below (length s.threads) settings.max_concurrent_clients ≡ true
      → IsLimited s
      → IsLimited (start_thread settings is_alive c s).1
  unfolding start_thread
  start_thread-IsLimited c s below l = record {
    bounded = omega (
      arith,
      length-append s.threads (c ∷ []),
      below-lt (length s.threads) settings.max_concurrent_clients below,
    );
    covered = λ t later.
        select-append (is_alive t) s.started (c ∷ [])
        ∙ ap (λ cs. cs ++ select (is_alive t) (c ∷ [])) (l.covered t later)
        ∙ sym (select-append (is_alive t) s.threads (c ∷ []));
  }

  turn_away-IsLimited :
      (c : ConnectionInfo) (r : Result (Unit {0}))
      → Keeps IsLimited (turn_away settings is_alive c r)
  unfolding turn_away
  turn_away-IsLimited c r s l =
      subst IsLimited (sym (closing-state settings is_alive r _))
        (record { bounded = l.bounded; covered = l.covered })

  choose-IsLimited :
      (can_connect : Bool) (c : ConnectionInfo) (r : Result (Unit {0})) (s : Server)
      → is_below (length s.threads) settings.max_concurrent_clients ≡ can_connect
      → IsLimited s
      → IsLimited
          ((if not can_connect
              then turn_away settings is_alive c r
              else start_thread settings is_alive c)
            s).1
  choose-IsLimited true c r s e l = start_thread-IsLimited c s e l
  choose-IsLimited false c r s e l = turn_away-IsLimited c r s l

  start-IsLimited :
      StaysDead
      → (c : ConnectionInfo) (r : Result (Unit {0}))
      → Keeps IsLimited (start_per_client_thread settings is_alive c r)
  unfolding start_per_client_thread check_if_another_client_can_be_connected
  start-IsLimited dead c r s l =
      let s1 = (check_if_another_client_can_be_connected settings is_alive s).1 in
      choose-IsLimited _ c r s1 refl (check-IsLimited dead s l)

  accept-IsLimited :
      StaysDead
      → (a : Accepted)
      → Keeps IsLimited (accept_client_connection_on_a_server_socket settings is_alive a)
  unfolding accept_client_connection_on_a_server_socket
  accept-IsLimited dead ssl_error s l = l
  accept-IsLimited dead (failed e) s l = l
  accept-IsLimited dead (connected address port r) s l =
      let c : ConnectionInfo = record {
        connection_id = s.next_connection_id;
        address = address;
        port = port;
      } in
      Keeps-bind IsLimited (start_per_client_thread settings is_alive c r) _
        (start-IsLimited dead c r) (λ a t m. record { bounded = m.bounded; covered = m.covered }) s
        l

  loop-IsLimited :
      StaysDead
      → (polls : List Polled) → Keeps IsLimited (start_server_loop settings is_alive polls)
  loop-IsLimited dead =
      start-Keeps settings is_alive IsLimited (accept-IsLimited dead)
        (λ s going closed l. record { bounded = l.bounded; covered = l.covered })

  -- If a thread that has ended does not come back, then whatever the server accepts, and however its
  -- loop ends, of the threads that it has started no more live, at any time from then on, than
  -- `MAX_CONCURRENT_CLIENTS`.
  pub start_server_loop-bounded :
      (polls : List Polled) (server_sockets : List ℕ) (t : ℕ)
      → ((t u : ℕ) (c : ConnectionInfo) → t ≤ u → is_alive u c ≡ true → is_alive t c ≡ true)
      → let s = (start_server_loop settings is_alive polls (new_server server_sockets)).1 in
        s.time ≤ t → length (select (is_alive t) s.started) ≤ to_ℕ settings.max_concurrent_clients
  start_server_loop-bounded polls server_sockets t dead later =
      let first : IsLimited (new_server server_sockets) = record {
        bounded = omega arith;
        covered = λ t later. refl;
      } in
      let s = (start_server_loop settings is_alive polls (new_server server_sockets)).1 in
      let l = loop-IsLimited dead polls (new_server server_sockets) first in
      omega
        (arith, ap length (l.covered t later), length-select-le (is_alive t) s.threads, l.bounded)
