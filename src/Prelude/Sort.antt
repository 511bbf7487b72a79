-- ===== src/Prelude/Sort.antt =====
-- Python's `sorted` and `list.sort`: a stable sort by the test `<`.
use mathlib.Core.Path.{◌≡◌}
use mathlib.Core.Bool.{Bool, true, false}
use mathlib.Core.List.{List, [], ◌∷◌, Perm}
use mathlib.Core.List.Perm
use pop3sf.Prelude.Tests.{if◌then◌else◌, Bool-cases}
use pop3sf.Prelude.Lists.{All}
use mathlib.Core.Logic.{inl, inr}

-- What a sort relies on: `<` of floats that are no NaN, and of texts.
pub record IsWeakOrder {ℓ} {A : Type ℓ} (less : A → A → Bool) : Type ℓ where
  pub asymm : (a b : A) → less a b ≡ true → less b a ≡ false
  pub trans : (a b c : A) → less b a ≡ false → less c b ≡ false → less c a ≡ false

module _ {ℓ} {A : Type ℓ} (less : A → A → Bool) where
  unfoldable pub insert_by : A → List A → List A
  insert_by x [] = x ∷ []
  insert_by x (y ∷ ys) = let rest = insert_by x ys in if less y x then y ∷ rest else x ∷ y ∷ ys

  unfoldable pub sort_by : List A → List A
  unfolding insert_by
  sort_by [] = []
  sort_by (x ∷ xs) = insert_by x (sort_by xs)

  insert_by-perm : (x : A) (ys : List A) → Perm (insert_by x ys) (x ∷ ys)
  unfolding insert_by
  insert_by-perm x [] = Perm.rfl
  insert_by-perm x (y ∷ ys) = elim (Bool-cases (less y x)) [
    | inl e ↦ rw e (Perm.trans (Perm.cons y (insert_by-perm x ys)) (Perm.swap x y ys))
    | inr e ↦ rw e Perm.rfl
  ]

  -- Sorting rearranges.
  pub sort_by-perm : (xs : List A) → Perm (sort_by xs) xs
  unfolding sort_by
  sort_by-perm [] = Perm.rfl
  sort_by-perm (x ∷ xs) = Perm.trans (insert_by-perm x (sort_by xs)) (Perm.cons x (sort_by-perm xs))

module _ {ℓ κ} {A : Type ℓ} where
  -- every earlier element is in the relation to every later one
  abbrev pub Pairwise : (A → A → Type κ) → List A → Type κ
  Pairwise R [] = Unit
  Pairwise R (x ∷ xs) = All (R x) xs × Pairwise R xs

module _ {ℓ} {A : Type ℓ} (less : A → A → Bool) (Q : A → Type 0) where
  All-insert : (x : A) (ys : List A) → Q x → All Q ys → All Q (insert_by less x ys)
  unfolding insert_by
  All-insert x [] q h = (q, tt)
  All-insert x (y ∷ ys) q h = elim (Bool-cases (less y x)) [
    | inl e ↦ rw e (h.0, All-insert x ys q h.1)
    | inr e ↦ rw e (q, h)
  ]

  pub All-sort : (xs : List A) → All Q xs → All Q (sort_by less xs)
  unfolding sort_by
  All-sort [] h = tt
  All-sort (x ∷ xs) h = All-insert x (sort_by less xs) h.0 (All-sort xs h.1)

module _ {ℓ} {A : Type ℓ} (less : A → A → Bool) (P : A → A → Type 0) where
  -- `b` is not less than `a`, and where neither is less, the two stand in `P`.
  abbrev pub Before : A → A → Type 0
  Before a b = (less b a ≡ false) × (less a b ≡ false → P a b)

module _ {ℓ} {A : Type ℓ} (less : A → A → Bool) (order : IsWeakOrder less)
    (P : A → A → Type 0) where
  open order use {asymm, trans}

  -- what is not before the head is not before the rest
  All-below :
      (x y : A) (zs : List A)
      → less y x ≡ false
      → All (P x) zs
      → All (Before less P y) zs
      → All (Before less P x) zs
  All-below x y [] h p b = tt
  All-below x y (z ∷ zs) h p b = ((trans x y z h b.0.0, λ n. p.0), All-below x y zs h p.1 b.1)

  insert-Pairwise :
      (x : A) (ys : List A)
      → All (P x) ys
      → Pairwise (Before less P) ys
      → Pairwise (Before less P) (insert_by less x ys)
  unfolding insert_by
  insert-Pairwise x [] p h = (tt, tt)
  insert-Pairwise x (y ∷ ys) p h = elim (Bool-cases (less y x)) [
    | inl e ↦ rw e (
      All-insert less (Before less P y) x ys (asymm y x e, λ n. cc) h.0,
      insert-Pairwise x ys p.1 h.1,
    )
    | inr e ↦ rw e (((e, λ n. p.0), All-below x y ys e p.1 h.0), h)
  ]

  -- A sorted list ascends, and the sort is stable: what stood in `P` still does, if neither is less.
  pub sort_by-Pairwise : (xs : List A) → Pairwise P xs → Pairwise (Before less P) (sort_by less xs)
  unfolding sort_by
  sort_by-Pairwise [] h = tt
  sort_by-Pairwise (x ∷ xs) h =
      insert-Pairwise x (sort_by less xs) (All-sort less (P x) xs h.0) (sort_by-Pairwise xs h.1)
