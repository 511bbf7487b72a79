-- ===== src/Adapters/Marks.antt =====
-- The deletion marks of the adapters' messages.
use pop3sf.Prelude.{
  ℕ, zero, suc, ◌≡◌, refl, subst, ap, true, false, Option, none, some, List, [], ◌∷◌, get_elem?,
  set, ◌==◌, arith, if◌then◌else◌,
}
use pop3sf.Adapter.{ok}
use pop3sf.Adapters.{Marked, is_marked, mark, mark_of, mark_at, unmark_all}

zero-ne-suc : (j : ℕ) → (0 == suc j) ≡ false
zero-ne-suc j = ground arith

suc-ne-zero : (i : ℕ) → (suc i == 0) ≡ false
suc-ne-zero i = ground arith

suc-eq-suc : (i j : ℕ) → (suc i == suc j) ≡ (i == j)
suc-eq-suc i j = ground arith

module _ {ℓ} {A : Type ℓ} where
  ok-injective : {xs ys : List (Marked A)} → ok xs ≡ ok ys → xs ≡ ys
  ok-injective h = cc

  pub same_item : (x m : Marked A) → some x ≡ some m → m.item ≡ x.item
  same_item x m h = cc

  -- Reading the mark at `j` after it was set at `i`.
  pub mark_of-set :
      (items : List (Marked A)) (i j : ℕ) (m : Marked A)
      → get_elem? items i ≡ some m
      → mark_of (get_elem? (set items i (record m { marked_as_deleted = true })) j)
        ≡ (if i == j then ok true else mark_of (get_elem? items j))
  unfolding mark_of
  mark_of-set [] i j m h = cc
  mark_of-set (x ∷ xs) zero zero m h = refl
  mark_of-set (x ∷ xs) zero (suc j) m h = rw (zero-ne-suc j)
  mark_of-set (x ∷ xs) (suc i) zero m h = rw (suc-ne-zero i)
  mark_of-set (x ∷ xs) (suc i) (suc j) m h = rw (suc-eq-suc i j) (mark_of-set xs i j m h)

  unmark-set :
      (items : List (Marked A)) (i : ℕ) (m : Marked A)
      → get_elem? items i ≡ some m
      → unmark_all (set items i (record m { marked_as_deleted = true })) ≡ unmark_all items
  unfolding unmark_all
  unmark-set [] i m h = refl
  unmark-set (x ∷ xs) zero m h =
      ap (λ a. record { item = a; marked_as_deleted = false } ∷ unmark_all xs) (same_item x m h)
  unmark-set (x ∷ xs) (suc i) m h =
      ap (λ ys. record x { marked_as_deleted = false } ∷ ys) (unmark-set xs i m h)

  marked-at :
      (items : List (Marked A)) (i j : ℕ) (o : Option (Marked A)) (marked : List (Marked A))
      → get_elem? items i ≡ o
      → mark_at items i o ≡ ok marked
      → (is_marked marked j ≡ (if i == j then ok true else is_marked items j))
        × (unmark_all marked ≡ unmark_all items)
  unfolding is_marked mark_at
  marked-at items i j none marked e h = cc
  marked-at items i j (some m) marked e h =
      let set_eq = ok-injective h in
      subst
        (λ ys.
          (mark_of (get_elem? ys j) ≡ (if i == j then ok true else mark_of (get_elem? items j)))
          × (unmark_all ys ≡ unmark_all items))
        set_eq (mark_of-set items i j m e, unmark-set items i m e)

  -- Marking a message marks it and no other, and taking back all marks afterwards gives what it would
  -- have given before.
  pub is_marked-mark :
      (items : List (Marked A)) (i j : ℕ) (marked : List (Marked A))
      → mark items i ≡ ok marked
      → (is_marked marked j ≡ (if i == j then ok true else is_marked items j))
        × (unmark_all marked ≡ unmark_all items)
  unfolding mark
  is_marked-mark items i j marked h = marked-at items i j (get_elem? items i) marked refl h
