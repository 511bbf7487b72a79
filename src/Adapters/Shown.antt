-- ===== src/Adapters/Shown.antt =====
-- The mailbox that ListAdapter shows, and its marks.
use pop3sf.Prelude.{
  ℕ, zero, suc, ◌<◌, ◌≡◌, refl, sym, ap, ◌∙◌, Bool, true, false, Option, none, some, List, [], ◌∷◌,
  pos, arith, length, length-map, get_elem?, set, if◌then◌else◌, ◌==◌,
}
use pop3sf.Text.{Text}
use pop3sf.Text.Encoding.{Encoding}
use pop3sf.Adapter.{Result, ok}
use pop3sf.Adapters.{Library, Marked, is_marked, mark, mark_of, mark_at, unmark_all}
use pop3sf.Adapters.ListAdapter.{ListState, list_adapter, content_at}
use pop3sf.Adapters.Marks.{mark_of-set, same_item}
use pop3sf.Helper.Listing.{Mailbox, Shows, Marks, with_mark, without_marks}

get_elem?-some :
    {A : Type 0} (items : List A) (i : ℕ)
    → i < length items
    → (a : A) × (get_elem? items i ≡ some a)
get_elem?-some [] i l = absurd (omega (arith, l))
get_elem?-some (x ∷ xs) zero l = (x, refl)
get_elem?-some (x ∷ xs) (suc i) l = get_elem?-some xs i (omega (arith, l))

content_at-some :
    (items : List (Marked Text)) (i : ℕ) (m : Marked Text)
    → get_elem? items i ≡ some m
    → content_at items i ≡ ok m.item
unfolding content_at
content_at-some items i m h = cc

if-ok : {A : Type 0} (b : Bool) (x y : A) → (if b then ok x else ok y) ≡ ok (if b then x else y)
if-ok true x y = refl
if-ok false x y = refl

with_state :
    {A : Type 0} {r q : Result A} (s : ListState)
    → r ≡ q
    → ◌≡◌ {A = Result A × ListState} (r, s) (q, s)
with_state s e = ap (λ x. (x, s)) e

length-set : {A : Type 0} (items : List A) (i : ℕ) (a : A) → length (set items i a) ≡ length items
length-set [] i a = refl
length-set (x ∷ xs) zero a = refl
length-set (x ∷ xs) (suc i) a = ap suc (length-set xs i a)

content_at-set :
    (items : List (Marked Text)) (i j : ℕ) (m : Marked Text)
    → get_elem? items i ≡ some m
    → content_at (set items i (record m { marked_as_deleted = true })) j ≡ content_at items j
unfolding content_at
content_at-set [] i j m h = refl
content_at-set (x ∷ xs) zero zero m h = ap (λ t. ok t) (same_item x m h)
content_at-set (x ∷ xs) zero (suc j) m h = refl
content_at-set (x ∷ xs) (suc i) zero m h = refl
content_at-set (x ∷ xs) (suc i) (suc j) m h = content_at-set xs i j m h

is_marked-unmark :
    (items : List (Marked Text)) (i : ℕ)
    → i < length items
    → is_marked (unmark_all items) i ≡ ok false
unfolding is_marked unmark_all mark_of
is_marked-unmark [] i l = absurd (omega (arith, l))
is_marked-unmark (x ∷ xs) zero l = refl
is_marked-unmark (x ∷ xs) (suc i) l = is_marked-unmark xs i (omega (arith, l))

content_at-unmark :
    (items : List (Marked Text)) (i : ℕ) → content_at (unmark_all items) i ≡ content_at items i
unfolding content_at unmark_all
content_at-unmark [] i = refl
content_at-unmark (x ∷ xs) zero = refl
content_at-unmark (x ∷ xs) (suc i) = content_at-unmark xs i

abbrev pub flag_or : Option (Marked Text) → Bool
flag_or none = false
flag_or (some m) = m.marked_as_deleted

abbrev pub item_or : Option (Marked Text) → Text
item_or none = []
item_or (some m) = m.item

abbrev pub mailbox_of : ListState → Mailbox
mailbox_of s = record {
  message_count = length s.message_objects;
  deleted = λ i. flag_or (get_elem? s.message_objects i);
  content = λ i. item_or (get_elem? s.message_objects i);
}

module _ (library : Library) (encoding : Encoding) where
  pub list_adapter-Shows : (s : ListState) → Shows (list_adapter library) encoding s (mailbox_of s)
  unfolding is_marked mark_of content_at
  list_adapter-Shows s = record {
    shows_count = refl;
    shows_deleted = λ i l. let (m, e) = get_elem?-some s.message_objects i l in rw e refl;
    shows_content = λ i l.
        let (m, e) = get_elem?-some s.message_objects i l in
        rw (content_at-some s.message_objects i m e, e) refl;
  }

  module _ (s : ListState) (mailbox : Mailbox)
      (shows : Shows (list_adapter library) encoding s mailbox) where
    count_is : mailbox.message_count ≡ length s.message_objects
    count_is = let h = shows.shows_count in cc

    deleted_is :
        (i : ℕ) → i < mailbox.message_count → is_marked s.message_objects i ≡ ok (mailbox.deleted i)
    deleted_is i l = ap (λ p. p.0) (shows.shows_deleted i l)

    content_is :
        (i : ℕ)
        → i < mailbox.message_count
        → content_at s.message_objects i ≡ ok (mailbox.content i)
    content_is i l = ap (λ p. p.0) (shows.shows_content i l)

    marks_one :
        (index : ℕ)
        → index < mailbox.message_count
        → (s' : ListState) × ((list_adapter library).mark_message_as_deleted index s ≡ (ok tt, s'))
          × Shows (list_adapter library) encoding s' (with_mark index mailbox)
    unfolding mark mark_at is_marked mark_of
    marks_one index l =
        let (m, e) = get_elem?-some s.message_objects index (omega (arith, l, count_is)) in
        (
          record s {
            message_objects = set s.message_objects index (record m { marked_as_deleted = true });
          },
          rw e refl,
          record {
            shows_count =
                with_state _
                  (ap (λ n. ok (pos n)) (length-set s.message_objects index _ ∙ sym count_is));
            shows_deleted = λ i k. with_state _ (
                mark_of-set s.message_objects index i m e
                ∙ rw (deleted_is i k) (if-ok (index == i) true (mailbox.deleted i)));
            shows_content =
                λ i k. with_state _ (content_at-set s.message_objects index i m e ∙ content_is i k);
          },
        )

    unmarks_all :
        (s' : ListState) × ((list_adapter library).unmark_messages_marked_as_deleted s
          ≡ (ok tt, s'))
        × Shows (list_adapter library) encoding s' (without_marks mailbox)
    unfolding unmark_all
    unmarks_all = (
      record s { message_objects = unmark_all s.message_objects },
      refl,
      record {
        shows_count =
            with_state _ (ap (λ n. ok (pos n)) (length-map _ s.message_objects ∙ sym count_is));
        shows_deleted =
            λ i k. with_state _ (is_marked-unmark s.message_objects i (omega (arith, k, count_is)));
        shows_content =
            λ i k. with_state _ (content_at-unmark s.message_objects i ∙ content_is i k);
      },
    )

  -- Whatever mailbox ListAdapter shows in a state, marking a message succeeds and leads to a state that
  -- shows the same mailbox with that mark, and taking the marks away succeeds and leads to a state that
  -- shows it with none.
  pub list_adapter-Marks : Marks (list_adapter library) encoding
  list_adapter-Marks = record { marks = marks_one; unmarks = unmarks_all }
