-- ===== src/Locking/Threads.antt =====
-- Threads that call their adapters through the wrapper, interleaved in any order. All adapters work on
-- one shared world (the files, the database), and a method takes time: it works on the world as it is
-- when the method starts, and writes its outcome when it ends.
use pop3sf.Prelude.{
  ℕ, ◌≡◌, refl, sym, ap, ◌∙◌, Bool, true, false, inl, inr, List, [], ◌∷◌, ◌++◌, arith, ◌==◌, ==_iff,
  Bool-cases, if◌then◌else◌, subst,
}
use pop3sf.Adapter.{Result, Adapter}
use pop3sf.Locking.Bracketing.{MethodCall, Value, perform}

-- Where a thread stands in a method of the wrapper: not in one; in front of `acquire`; in the `try`
-- block, with the world at its start; in front of `release`.
pub data Phase (S : Type 0) : Type 0 where
  outside : Phase S
  acquiring : MethodCall → Phase S
  trying : MethodCall → S → Phase S
  releasing : Phase S

-- Between `acquire` and `release`.
abbrev pub is_inside : {S : Type 0} → Phase S → Bool
is_inside outside = false
is_inside (acquiring m) = false
is_inside (trying m s) = true
is_inside releasing = true

-- The lock, the world, the threads, and the calls that were made, with what they gave.
pub record System (S : Type 0) : Type 0 where
  pub held : Bool
  pub world : S
  pub phase : ℕ → Phase S
  pub calls : List (ℕ × MethodCall)
  pub results : List (Result Value)

abbrev pub update : {A : Type 0} → (ℕ → A) → ℕ → A → ℕ → A
update f i a j = if i == j then a else f j

abbrev pub idle : {S : Type 0} → S → System S
idle world = record { held = false; world = world; phase = λ i. outside; calls = []; results = [] }

module _ {S : Type 0} (adapter : ℕ → Adapter S) where
  abbrev pub begin_call : ℕ → MethodCall → System S → System S
  begin_call i m s = record s { phase = update s.phase i (acquiring m) }

  abbrev pub acquire_lock : ℕ → MethodCall → System S → System S
  acquire_lock i m s = record s { held = true; phase = update s.phase i (trying m s.world) }

  abbrev pub finish_call : ℕ → MethodCall → S → System S → System S
  finish_call i m begun s =
      let (r, world) = perform (adapter i) m begun in
      record s {
        world = world;
        phase = update s.phase i releasing;
        calls = s.calls ++ (i, m) ∷ [];
        results = s.results ++ r ∷ [];
      }

  abbrev pub release_lock : ℕ → System S → System S
  release_lock i s = record s { held = false; phase = update s.phase i outside }

  -- A step of thread `i`: it calls any method; it acquires the lock, which must be free; the method
  -- returns or raises; the lock is released.
  pub data Step (s t : System S) : Type 0 where
    begin : (i : ℕ) (m : MethodCall) → s.phase i ≡ outside → t ≡ begin_call i m s → Step s t
    acquire :
        (i : ℕ) (m : MethodCall)
        → s.phase i ≡ acquiring m
        → s.held ≡ false
        → t ≡ acquire_lock i m s
        → Step s t
    finish :
        (i : ℕ) (m : MethodCall) (start : S)
        → s.phase i ≡ trying m start
        → t ≡ finish_call i m start s
        → Step s t
    release : (i : ℕ) → s.phase i ≡ releasing → t ≡ release_lock i s → Step s t

  pub data Reach (world : S) : System S → Type 0 where
    start : Reach world (idle world)
    later : {s t : System S} → Reach world s → Step s t → Reach world t

  -- the calls one after another, with no other thread
  abbrev pub replay : List (ℕ × MethodCall) → S → List (Result Value) × S
  replay [] s = ([], s)
  replay ((i, m) ∷ calls) s =
      let (r, s') = perform (adapter i) m s in let (rs, s'') = replay calls s' in (r ∷ rs, s'')

  replay-append :
      (calls : List (ℕ × MethodCall)) (i : ℕ) (m : MethodCall) (s : S)
      → let (rs, s') = replay calls s in
        let (r, s'') = perform (adapter i) m s' in
        replay (calls ++ (i, m) ∷ []) s ≡ (rs ++ r ∷ [], s'')
  replay-append [] i m s = refl
  replay-append ((j, n) ∷ calls) i m s =
      ap (λ x. ((perform (adapter j) n s).0 ∷ x.0, x.1))
        (replay-append calls i m (perform (adapter j) n s).1)

  record Inv (first : S) (s : System S) : Type 0 where
    free : s.held ≡ false → (i : ℕ) → is_inside (s.phase i) ≡ false
    unique : (i j : ℕ) → is_inside (s.phase i) ≡ true → is_inside (s.phase j) ≡ true → i ≡ j
    current : (i : ℕ) (m : MethodCall) (begun : S) → s.phase i ≡ trying m begun → begun ≡ s.world
    serial : replay s.calls first ≡ (s.results, s.world)

  begin-Inv :
      (first : S) (s : System S) (i : ℕ) (m : MethodCall)
      → s.phase i ≡ outside
      → Inv first s
      → Inv first (begin_call i m s)
  begin-Inv first s i m at v = record {
    free = λ h j. grind (arith, v.free h j);
    unique = λ j k a b. grind (arith, v.unique j k);
    current = λ j n b e. grind (arith, v.current j n b);
    serial = v.serial;
  }

  acquire-Inv :
      (first : S) (s : System S) (i : ℕ) (m : MethodCall)
      → s.phase i ≡ acquiring m
      → s.held ≡ false
      → Inv first s
      → Inv first (acquire_lock i m s)
  acquire-Inv first s i m at free v = record {
    free = λ h. cc;
    unique = λ j k a b. grind (arith, v.free free j, v.free free k, ==_iff i j, ==_iff i k);
    current = λ j n b e. grind (arith, v.free free j);
    serial = v.serial;
  }

  finish-Inv :
      (first : S) (s : System S) (i : ℕ) (m : MethodCall) (begun : S)
      → s.phase i ≡ trying m begun
      → Inv first s
      → Inv first (finish_call i m begun s)
  finish-Inv first s i m begun at v = record {
    free = λ h j. grind (arith, v.free h i, v.free h j, ==_iff i j);
    unique =
        λ j k a b. grind (arith, v.unique j k, v.unique i k, v.unique j i, ==_iff i j, ==_iff i k);
    current = λ j n b e. grind (arith, v.unique i j, ==_iff i j);
    serial = replay-append s.calls i m first ∙ rw (v.serial, v.current i m begun at) refl;
  }

  release-Inv :
      (first : S) (s : System S) (i : ℕ)
      → s.phase i ≡ releasing
      → Inv first s
      → Inv first (release_lock i s)
  release-Inv first s i at v = record {
    free = λ h j. elim (Bool-cases (is_inside (update s.phase i outside j))) [
      | inl e ↦ grind (arith, v.unique i j, ==_iff i j)
      | inr e ↦ e
    ];
    unique = λ j k a b. grind (arith, v.unique j k);
    current = λ j n b e. grind (arith, v.current j n b);
    serial = v.serial;
  }

  Step-Inv : (first : S) (s t : System S) → Step s t → Inv first s → Inv first t
  Step-Inv first s t (begin i m at e) v = subst (Inv first) (sym e) (begin-Inv first s i m at v)
  Step-Inv first s t (acquire i m at free e) v =
      subst (Inv first) (sym e) (acquire-Inv first s i m at free v)
  Step-Inv first s t (finish i m begun at e) v =
      subst (Inv first) (sym e) (finish-Inv first s i m begun at v)
  Step-Inv first s t (release i at e) v = subst (Inv first) (sym e) (release-Inv first s i at v)

  Reach-Inv : {first : S} {s : System S} → Reach first s → Inv first s
  Reach-Inv start = record {
    free = λ h i. refl;
    unique = λ i j a b. cc;
    current = λ i m b e. cc;
    serial = refl;
  }
  Reach-Inv (later {s = s} {t = t} before step) = Step-Inv _ s t step (Reach-Inv before)

  -- However the threads interleave, two that are between `acquire` and `release` are one and the same.
  pub Reach-unique :
      {first : S} {s : System S}
      → Reach first s
      → (i j : ℕ) → is_inside (s.phase i) ≡ true
      → is_inside (s.phase j) ≡ true
      → i ≡ j
  Reach-unique reached i j = Inv.unique (Reach-Inv reached) i j

  -- However the threads interleave, each call that has ended gave what it gives, and the world is what
  -- it is, when the same calls are made one after another by a single thread, in the order of their ends.
  pub Reach-replay :
      {first : S} {s : System S} → Reach first s → replay s.calls first ≡ (s.results, s.world)
  Reach-replay reached = Inv.serial (Reach-Inv reached)
