-- ===== src/Adapters/Directory/Commit.antt =====
-- What the commit of a directory adapter leaves of the files.
use pop3sf.Prelude.{
  ◌≡◌, ◌≢◌, ◌⊎◌, inl, inr, refl, sym, ◌∙◌, ap, Bool, true, false, List, [], ◌∷◌, All, Bool-cases,
}
use pop3sf.Text.{Text, text_eq}
use pop3sf.Text.Words.{text_eq→eq, text_eq_refl}
use pop3sf.Adapter.{Action, Exception, Result, ok, raised}
use pop3sf.Adapter.Actions.{and_then}
use pop3sf.Adapters.{Library, Marked, do_if, remove_marked}
use pop3sf.Adapters.Files.{Files}
use pop3sf.Adapters.Directory.{
  Entry, DirectoryState, Subclass, directory_adapter, commit_directory_deletions,
}

module _ {library : Library} {F : Type 0} (files : Files library F) where
  open files use {Epoch, isfile, read_file, remove_file}

  -- the same file, or none, at a path
  abbrev pub IsSame : Text → F → F → Type 0
  IsSame q f g = (isfile q g ≡ isfile q f) × (read_file q g ≡ read_file q f)

  -- What `os.remove` promises: once it returns, no file is at the path; whether it returns or raises,
  -- other paths are as they were; and it makes no file.
  pub record RemoveLaws : Type 0 where
    pub removed :
        (p : Text) (f : F) → (remove_file p f).0 ≡ ok tt → isfile p (remove_file p f).1 ≡ false
    pub spares : (p q : Text) (f : F) → q ≢ p → IsSame q f (remove_file p f).1
    pub makes_none :
        (p q : Text) (f : F) → isfile q f ≡ false → isfile q (remove_file p f).1 ≡ false

  -- The message is not marked, or it has no file.
  abbrev pub IsGone : F → Marked (Entry Epoch) → Type 0
  IsGone f m = (m.marked_as_deleted ≡ false) ⊎ (isfile m.item.path f ≡ false)

  -- One of the messages that are marked has this path.
  abbrev pub IsMarked : Text → List (Marked (Entry Epoch)) → Type 0
  IsMarked q [] = ⊥
  IsMarked q (m ∷ items) = ((m.marked_as_deleted ≡ true) × (q ≡ m.item.path)) ⊎ IsMarked q items

  abbrev IsElsewhere : Text → Marked (Entry Epoch) → Type 0
  IsElsewhere q m = m.marked_as_deleted ≡ true → q ≢ m.item.path

  -- Removing the file of one of the messages that are marked raises this exception.
  abbrev pub Fails : Exception → List (Marked (Entry Epoch)) → Type 0
  Fails e [] = ⊥
  Fails e (m ∷ items) =
      ((m.marked_as_deleted ≡ true) × (f : F) × ((remove_file m.item.path f).0 ≡ raised e))
      ⊎ Fails e items

  abbrev pub HasCommitted : List (Marked (Entry Epoch)) → Result (Unit {0}) × F → Type 0
  HasCommitted items (r, f) =
      ((r ≡ ok tt) × All (IsGone f) items) ⊎ ((e : Exception) × (r ≡ raised e) × Fails e items)

  abbrev removal : List (Marked (Entry Epoch)) → Action F Unit
  removal = remove_marked (λ message. remove_file message.path)

pub text_eq-differs : (s t : Text) → text_eq s t ≡ false → s ≢ t
text_eq-differs s t h = λ e. false≢true (sym h ∙ ap (text_eq s) (sym e) ∙ text_eq_refl s)
  where
    false≢true : false ≢ true
    false≢true = λ e. cc

module _ {library : Library} {F : Type 0} (files : Files library F) (laws : RemoveLaws files) where
  open files use {Epoch, isfile, read_file, remove_file}

  if-IsSame :
      (marked : Bool) (p q : Text) (f : F)
      → (marked ≡ true → q ≢ p)
      → IsSame files q f (do_if marked (remove_file p) f).1
  unfolding do_if
  if-IsSame false p q f h = (refl, refl)
  if-IsSame true p q f h = laws.spares p q f (h refl)

  if-makes_none :
      (marked : Bool) (p q : Text) (f : F)
      → isfile q f ≡ false
      → isfile q (do_if marked (remove_file p) f).1 ≡ false
  unfolding do_if
  if-makes_none false p q f h = h
  if-makes_none true p q f h = laws.makes_none p q f h

  if-removed :
      (marked : Bool) (p : Text) (f : F)
      → (do_if marked (remove_file p) f).0 ≡ ok tt
      → (marked ≡ false) ⊎ (isfile p (do_if marked (remove_file p) f).1 ≡ false)
  unfolding do_if
  if-removed false p f h = inl refl
  if-removed true p f h = inr (laws.removed p f h)

  if-raises :
      (marked : Bool) (p : Text) (f : F) (e : Exception)
      → (do_if marked (remove_file p) f).0 ≡ raised e
      → (marked ≡ true) × ((remove_file p f).0 ≡ raised e)
  unfolding do_if
  if-raises false p f e h = cc
  if-raises true p f e h = (refl, h)

  then-IsSame :
      (q : Text) (r : Result Unit) (n : Action F Unit) (f g : F)
      → IsSame files q f g
      → ((h : F) → IsSame files q h (n h).1)
      → IsSame files q f (and_then r (λ _. n) g).1
  then-IsSame q (ok tt) n f g s k = ((k g).0 ∙ s.0, (k g).1 ∙ s.1)
  then-IsSame q (raised e) n f g s k = s

  removal-IsSame :
      (items : List (Marked (Entry Epoch))) (q : Text) (f : F)
      → All (IsElsewhere files q) items
      → IsSame files q f (removal files items f).1
  unfolding remove_marked
  removal-IsSame [] q f h = (refl, refl)
  removal-IsSame (m ∷ items) q f h =
      then-IsSame q (do_if m.marked_as_deleted (remove_file m.item.path) f).0 (removal files items)
        f _ (if-IsSame m.marked_as_deleted m.item.path q f h.0) (λ g. removal-IsSame items q g h.1)

  one-IsMarked :
      (m : Marked (Entry Epoch)) (q : Text)
      → ((m.marked_as_deleted ≡ true) × (q ≡ m.item.path)) ⊎ IsElsewhere files q m
  one-IsMarked m q = elim (Bool-cases (text_eq q m.item.path)) [
    | inl e ↦ elim (Bool-cases m.marked_as_deleted) [
      | inl h ↦ inl (h, text_eq→eq q m.item.path e)
      | inr h ↦ inr (λ marked. cc)
    ]
    | inr e ↦ inr (λ marked same. text_eq-differs q m.item.path e same)
  ]

  -- A path is the one of a message that is marked, or it is left as it was.
  IsMarked-or_IsElsewhere :
      (items : List (Marked (Entry Epoch))) (q : Text)
      → IsMarked files q items ⊎ All (IsElsewhere files q) items
  IsMarked-or_IsElsewhere [] q = inr tt
  IsMarked-or_IsElsewhere (m ∷ items) q = elim (one-IsMarked m q) [
    | inl h ↦ inl (inl h)
    | inr h ↦ elim (IsMarked-or_IsElsewhere items q) [ inl k ↦ inl (inr k) | inr k ↦ inr (h, k) ]
  ]

  removal-IsMarked_or_IsSame :
      (items : List (Marked (Entry Epoch))) (q : Text) (f : F)
      → IsMarked files q items ⊎ IsSame files q f (removal files items f).1
  removal-IsMarked_or_IsSame items q f = elim (IsMarked-or_IsElsewhere items q) [
    | inl h ↦ inl h
    | inr h ↦ inr (removal-IsSame items q f h)
  ]

  then-makes_none :
      (q : Text) (r : Result Unit) (n : Action F Unit) (g : F)
      → isfile q g ≡ false
      → ((h : F) → isfile q h ≡ false → isfile q (n h).1 ≡ false)
      → isfile q (and_then r (λ _. n) g).1 ≡ false
  then-makes_none q (ok tt) n g s k = k g s
  then-makes_none q (raised e) n g s k = s

  removal-makes_none :
      (items : List (Marked (Entry Epoch))) (q : Text) (f : F)
      → isfile q f ≡ false
      → isfile q (removal files items f).1 ≡ false
  unfolding remove_marked
  removal-makes_none [] q f h = h
  removal-makes_none (m ∷ items) q f h =
      then-makes_none q (do_if m.marked_as_deleted (remove_file m.item.path) f).0
        (removal files items) _ (if-makes_none m.marked_as_deleted m.item.path q f h)
        (removal-makes_none items q)

  still-IsGone :
      (m : Marked (Entry Epoch)) (items : List (Marked (Entry Epoch))) (g : F)
      → IsGone files g m
      → IsGone files (removal files items g).1 m
  still-IsGone m items g (inl h) = inl h
  still-IsGone m items g (inr h) = inr (removal-makes_none items m.item.path g h)

  cons-HasCommitted :
      (m : Marked (Entry Epoch)) (items : List (Marked (Entry Epoch))) (o : Result Unit × F)
      → IsGone files o.1 m
      → HasCommitted files items o
      → HasCommitted files (m ∷ items) o
  cons-HasCommitted m items o g (inl h) = inl (h.0, (g, h.1))
  cons-HasCommitted m items o g (inr (e, r, h)) = inr (e, r, inr h)

  then-HasCommitted :
      (m : Marked (Entry Epoch)) (items : List (Marked (Entry Epoch))) (r : Result Unit) (g : F)
      → (r ≡ ok tt → IsGone files g m)
      → ((e : Exception) → r ≡ raised e → Fails files e (m ∷ items))
      → HasCommitted files items (removal files items g)
      → HasCommitted files (m ∷ items) (and_then r (λ _. removal files items) g)
  then-HasCommitted m items (ok tt) g gone fails h =
      cons-HasCommitted m items (removal files items g) (still-IsGone m items g (gone refl)) h
  then-HasCommitted m items (raised e) g gone fails h = inr (e, refl, fails e refl)

  removal-HasCommitted :
      (items : List (Marked (Entry Epoch))) (f : F)
      → HasCommitted files items (removal files items f)
  unfolding remove_marked
  removal-HasCommitted [] f = inl (refl, tt)
  removal-HasCommitted (m ∷ items) f =
      let marked = m.marked_as_deleted in
      let (r, g) = do_if marked (remove_file m.item.path) f in
      then-HasCommitted m items r g (if-removed marked m.item.path f)
        (λ e h.
          let (is_marked, raises) = if-raises marked m.item.path f e h in
          inl (is_marked, f, raises))
        (removal-HasCommitted items g)

module _ (library : Library) {F U : Type 0} (files : Files library F)
    (subclass : Subclass files.Epoch F U) (laws : RemoveLaws files) where
  -- If `os.remove`, where it returns, leaves no file at its path, touches no other path and makes no
  -- file, then a commit of a directory adapter either returns, and no message that is marked has a
  -- file left, or it raises what removing the file of such a message raised. In both cases, at a path
  -- that no such message has, the file is as it was, and so are the index and its marks.
  pub commit_deletions-HasCommitted :
      (s : DirectoryState files.Epoch F U) (q : Text)
      → let (r, s') = (directory_adapter library files subclass).commit_deletions s in
        HasCommitted files s.message_index (r, s'.files)
        × (IsMarked files q s.message_index ⊎ IsSame files q s.files s'.files)
        × (s'.message_index ≡ s.message_index)
  unfolding commit_directory_deletions
  commit_deletions-HasCommitted s q = (
    removal-HasCommitted files laws s.message_index s.files,
    removal-IsMarked_or_IsSame files laws s.message_index q s.files,
    refl,
  )
