-- ===== src/Client/Sharing/Reading.antt =====
-- Clients that share the ensurer: who is logged in under one name at once.
use pop3sf.Prelude.{
  ℕ, ◌≡◌, ◌≢◌, ◌⊎◌, refl, sym, subst, ap, ◌∙◌, inl, inr, Bool, true, Option, none, some, List,
  Bool-cases, ◌==◌, ==_iff,
}
use pop3sf.Text.{Text}
use pop3sf.Ensurer.{Client, remove_client}
use pop3sf.Ensurer.Exclusion.{IsLimited, add-IsLimited, remove-IsLimited}
use pop3sf.Session.{World, ConnectionInfo, new_client_status}
use pop3sf.Helper.{Env}
use pop3sf.Helper.Quiet.{IsQuiet}
use pop3sf.Helper.Login.{IsConsistent, IsLoggedInAs, anonymous, logged_in, registered}
use pop3sf.Helper.Sharing.{
  Has, IsKeptByLogin, Has-IsUnaffected, authentication-Has, registered-add, registered-remove,
  registered-reading,
}
use pop3sf.Commands.{handle_command}
use pop3sf.Commands.Effects.{handle_command-unaffected}
use pop3sf.Commands.Login.{handle_command-IsConsistent}
use pop3sf.Commands.Quiet.{handle_command-quiet}
use pop3sf.Client.Sharing.{
  SharedServer, update, sees, connect, run, leave, ClientStep, connected, commanded, left,
  ReachShared, start, later,
}

module _ {S : Type 0} (env : Env S) where
  record Inv (s : SharedServer S) : Type 0 where
    own_id :
        (i : ℕ) (w : World S) → s.threads i ≡ some w → w.status.connection_info.connection_id ≡ i
    consistent : (i : ℕ) (w : World S) → s.threads i ≡ some w → IsConsistent (sees w s.clients)
    limited : (user : Text) → IsLimited user s.clients

  -- A list with more sessions, or without those of others, leaves a session consistent.
  other-IsConsistent :
      (w : World S) (before after : List Client)
      → ((user : Text) (mode : Bool)
          → registered w.status.connection_info.connection_id user mode before ≡ true
          → registered w.status.connection_info.connection_id user mode after ≡ true)
      → IsConsistent (sees w before)
      → IsConsistent (sees w after)
  other-IsConsistent w before after keeps (anonymous h) =
      anonymous (record { authenticated = h.authenticated; username = h.username })
  other-IsConsistent w before after keeps (logged_in user mode h) = logged_in user mode (record {
    authenticated = h.authenticated;
    username = h.username;
    mode_is = h.mode_is;
    in_ensurer = keeps user mode h.in_ensurer;
  })

  module _ (R : List Client → Type 0) (adds : IsKeptByLogin R) where
    command-Has :
        (command : Text) (args : List Text) (w : World S)
        → R w.clients
        → R (handle_command env command args w).1.clients
    command-Has command args w h = Has.list (
        (handle_command-unaffected env (Has-IsUnaffected env R adds) (authentication-Has env R adds)
            command args).kept
          w (record { list = h }))

  same_info-IsQuiet :
      (info : ConnectionInfo) → IsQuiet {S = S} (λ w. w.status.connection_info ≡ info)
  same_info-IsQuiet info = record { change = λ v w i s t c h. i ∙ h }

  -- Whose world a thread of an updated server is.
  changed_thread :
      (f : ℕ → Option (World S)) (i j : ℕ) (o : Option (World S)) (w : World S)
      → update f i o j ≡ some w
      → ((i ≡ j) × (o ≡ some w)) ⊎ ((i ≢ j) × (f j ≡ some w))
  changed_thread f i j o w h = elim (Bool-cases (i == j)) [
    | inl e ↦ inl ((==_iff i j).0 e, (rw e at h))
    | inr e ↦ inr (λ same. let d = (==_iff i j).1 same in cc, (rw e at h))
  ]

  some-injective : {v w : World S} → some v ≡ some w → v ≡ w
  some-injective h = cc

  connect-Inv :
      (s : SharedServer S) (i : ℕ) (w : World S) (info : ConnectionInfo)
      → info.connection_id ≡ i
      → w.status ≡ new_client_status info
      → Inv s
      → Inv (connect env i w s)
  unfolding new_client_status
  connect-Inv s i w info id new v = record {
    own_id = λ j u h. elim (changed_thread s.threads i j (some w) u h) [
      | inl (same, e) ↦
          subst (λ x. x.status.connection_info.connection_id ≡ j) (some-injective e)
            (ap (λ c. c.connection_info.connection_id) new ∙ id ∙ same)
      | inr (other, e) ↦ v.own_id j u e
    ];
    consistent = λ j u h. elim (changed_thread s.threads i j (some w) u h) [
      | inl (same, e) ↦
          subst (λ x. IsConsistent (sees x s.clients)) (some-injective e)
            (anonymous (record {
              authenticated = ap (λ c. c.authenticated) new;
              username = ap (λ c. c.username) new;
            }))
      | inr (other, e) ↦ v.consistent j u e
    ];
    limited = v.limited;
  }

  run-Inv :
      (s : SharedServer S) (i : ℕ) (w : World S) (command : Text) (args : List Text)
      → s.threads i ≡ some w
      → Inv s
      → Inv (run env i w command args s)
  run-Inv s i w command args at v =
      let w' = (handle_command env command args (sees w s.clients)).1 in
      record {
        own_id = λ j u h. elim (changed_thread s.threads i j (some w') u h) [
          | inl (same, e) ↦
              subst (λ x. x.status.connection_info.connection_id ≡ j) (some-injective e)
                (ap (λ c. c.connection_id)
                    ((handle_command-quiet env (same_info-IsQuiet w.status.connection_info) command
                        args).kept
                      (sees w s.clients) refl)
                  ∙ v.own_id i w at
                  ∙ same)
          | inr (other, e) ↦ v.own_id j u e
        ];
        consistent = λ j u h. elim (changed_thread s.threads i j (some w') u h) [
          | inl (same, e) ↦
              subst (λ x. IsConsistent (sees x w'.clients)) (some-injective e)
                (handle_command-IsConsistent env command args (sees w s.clients)
                  (v.consistent i w at))
          | inr (other, e) ↦
              other-IsConsistent u s.clients w'.clients
                (λ user mode.
                  command-Has
                    (λ cs. registered u.status.connection_info.connection_id user mode cs ≡ true)
                    (λ id new read_only cs.
                      registered-add u.status.connection_info.connection_id user mode id new
                        read_only cs)
                    command args (sees w s.clients))
                (v.consistent j u e)
        ];
        limited = λ user.
            command-Has (IsLimited user)
              (λ id new read_only cs. add-IsLimited user id new read_only cs) command args
              (sees w s.clients) (v.limited user);
      }

  leave-Inv : (s : SharedServer S) (i : ℕ) → Inv s → Inv (leave env i s)
  leave-Inv s i v = record {
    own_id = λ j u h. elim (changed_thread s.threads i j none u h) [
      | inl (same, e) ↦ cc
      | inr (other, e) ↦ v.own_id j u e
    ];
    consistent = λ j u h. elim (changed_thread s.threads i j none u h) [
      | inl (same, e) ↦ cc
      | inr (other, e) ↦
          other-IsConsistent u s.clients (remove_client i s.clients)
            (λ user mode.
              registered-remove u.status.connection_info.connection_id user mode i s.clients
                (λ same. other (sym same ∙ v.own_id j u e)))
            (v.consistent j u e)
    ];
    limited = λ user. remove-IsLimited user i s.clients (v.limited user);
  }

  ClientStep-Inv : (s t : SharedServer S) → ClientStep env s t → Inv s → Inv t
  ClientStep-Inv s t (connected i w info free id new e) v =
      subst Inv (sym e) (connect-Inv s i w info id new v)
  ClientStep-Inv s t (commanded i w command args at e) v =
      subst Inv (sym e) (run-Inv s i w command args at v)
  ClientStep-Inv s t (left i w at e) v = subst Inv (sym e) (leave-Inv s i v)

  ReachShared-Inv : {s : SharedServer S} → ReachShared env s → Inv s
  ReachShared-Inv start = record {
    own_id = λ i w h. cc;
    consistent = λ i w h. cc;
    limited = λ user. inl refl;
  }
  ReachShared-Inv (later {s = s} {t = t} before step) =
      ClientStep-Inv s t step (ReachShared-Inv before)

  -- A session that is logged in by its status is so for the ensurer.
  by_status :
      (w : World S)
      → IsConsistent w
      → w.status.authenticated ≡ true
      → (user : Text) × IsLoggedInAs user w.status.read_only_mailbox_access w
  by_status w (anonymous h) a = let no_session = h.authenticated in cc
  by_status w (logged_in user mode h) a =
      (user, subst (λ b. IsLoggedInAs user b w) (sym h.mode_is) h)

  -- Whatever commands the clients send and however their threads interleave, with connections that come
  -- and go: two different sessions that are logged in under the same name are both read-only.
  pub ReachShared-reading :
      {s : SharedServer S}
      → ReachShared env s
      → (i j : ℕ) (v w : World S) → i ≢ j
      → s.threads i ≡ some v
      → s.threads j ≡ some w
      → v.status.authenticated ≡ true
      → w.status.authenticated ≡ true
      → v.status.username ≡ w.status.username
      → (v.status.read_only_mailbox_access ≡ true) × (w.status.read_only_mailbox_access ≡ true)
  ReachShared-reading {s = s} reached i j v w n at there a b same =
      let inv = ReachShared-Inv reached in
      let (user, h) = by_status (sees v s.clients) (inv.consistent i v at) a in
      let (user', k) = by_status (sees w s.clients) (inv.consistent j w there) b in
      let one_name : user' ≡ user = some_name (sym k.username ∙ sym same ∙ h.username) in
      registered-reading i j user v.status.read_only_mailbox_access
        w.status.read_only_mailbox_access s.clients n (inv.limited user)
        (subst (λ id. registered id user v.status.read_only_mailbox_access s.clients ≡ true)
          (inv.own_id i v at) h.in_ensurer)
        (subst (λ id. registered id user w.status.read_only_mailbox_access s.clients ≡ true)
          (inv.own_id j w there)
          (subst
            (λ name.
              registered w.status.connection_info.connection_id name
                w.status.read_only_mailbox_access s.clients
              ≡ true)
            one_name k.in_ensurer))
    where
      some_name : {a b : Text} → some a ≡ some b → a ≡ b
      some_name e = cc
