-- ===== src/Text/Lines.antt =====
-- Laws of splitting a text into lines, joining lines and making line breaks canonical.
use pop3sf.Prelude.{ℕ, ◌≡◌, ◌≢◌, refl, ap, ◌∙◌, Bool, false, List, [], ◌∷◌, ◌++◌, arith, All, ◌==◌}
use pop3sf.Text.{
  Text, cr, lf, crlf, join, prepend, split_from, split_lines_without_discarding_empty_lines,
  sub_from, canonicalize_newlines,
}

-- A text with no line break in it.
abbrev pub IsLine : Text → Type 0
IsLine = All (λ c. (c ≢ cr) × (c ≢ lf))

prepend-ne-nil : (c : ℕ) (ls : List Text) → prepend c ls ≢ []
unfolding prepend
prepend-ne-nil c [] = λ e. cc
prepend-ne-nil c (l ∷ ls) = λ e. cc

pub split_from-ne-nil : (after_cr : Bool) (s : Text) → split_from after_cr s ≢ []
unfolding split_from
split_from-ne-nil b [] = λ e. cc
split_from-ne-nil b (c ∷ cs) =
    ground (arith, split_from-ne-nil (c == cr) cs, prepend-ne-nil c (split_from (c == cr) cs))

-- A split text has at least one line.
pub split_lines-ne-nil : (s : Text) → split_lines_without_discarding_empty_lines s ≢ []
unfolding split_lines_without_discarding_empty_lines
split_lines-ne-nil = split_from-ne-nil false

prepend-IsLine :
    (c : ℕ) (ls : List Text) → c ≢ cr → c ≢ lf → All IsLine ls → All IsLine (prepend c ls)
unfolding prepend
prepend-IsLine c [] p q h = (((p, q), tt), tt)
prepend-IsLine c (l ∷ ls) p q h = (((p, q), h.0), h.1)

pub split_from-IsLine : (after_cr : Bool) (s : Text) → All IsLine (split_from after_cr s)
unfolding split_from
split_from-IsLine b [] = (tt, tt)
split_from-IsLine b (c ∷ cs) =
    ground (arith, split_from-IsLine (c == cr) cs, prepend-IsLine c (split_from (c == cr) cs))

-- No line of a split text holds a line break.
pub split_lines-IsLine : (s : Text) → All IsLine (split_lines_without_discarding_empty_lines s)
unfolding split_lines_without_discarding_empty_lines
split_lines-IsLine = split_from-IsLine false

join-nil-cons : (ls : List Text) → ls ≢ [] → join crlf ([] ∷ ls) ≡ crlf ++ join crlf ls
unfolding join
join-nil-cons [] h = absurd (h refl)
join-nil-cons (m ∷ ms) h = refl

join-prepend : (c : ℕ) (ls : List Text) → ls ≢ [] → join crlf (prepend c ls) ≡ c ∷ join crlf ls
unfolding join prepend
join-prepend c [] h = absurd (h refl)
join-prepend c (l ∷ []) h = refl
join-prepend c (l ∷ m ∷ ms) h = refl

sub_from-eq-join :
    (after_cr : Bool) (s : Text) → sub_from after_cr s ≡ join crlf (split_from after_cr s)
unfolding sub_from split_from
sub_from-eq-join b [] = unfold join in refl
sub_from-eq-join b (c ∷ cs) = ground (
  arith,
  sub_from-eq-join (c == cr) cs,
  split_from-ne-nil (c == cr) cs,
  join-nil-cons (split_from (c == cr) cs),
  join-prepend c (split_from (c == cr) cs),
)

-- Substituting the line breaks is splitting at them and joining again.
pub canonicalize-eq-join :
    (s : Text) → canonicalize_newlines s ≡ join crlf (split_lines_without_discarding_empty_lines s)
unfolding canonicalize_newlines split_lines_without_discarding_empty_lines
canonicalize-eq-join = sub_from-eq-join false

split_from-line : (l : Text) (b : Bool) → IsLine l → split_from b l ≡ l ∷ []
unfolding split_from prepend
split_from-line [] b h = refl
split_from-line (c ∷ cs) b h = ground (arith, split_from-line cs (c == cr) h.1)

split_from-line-crlf :
    (l s : Text) (b : Bool) → IsLine l → split_from b (l ++ (crlf ++ s)) ≡ l ∷ split_from false s
unfolding split_from prepend
split_from-line-crlf [] s b h = refl
split_from-line-crlf (c ∷ cs) s b h = ground (arith, split_from-line-crlf cs s (c == cr) h.1)

-- Lines that are joined by CRLF are split again into the same lines.
pub split_lines-join :
    (l : Text) (ls : List Text)
    → All IsLine (l ∷ ls)
    → split_lines_without_discarding_empty_lines (join crlf (l ∷ ls)) ≡ l ∷ ls
unfolding split_lines_without_discarding_empty_lines join
split_lines-join l [] h = split_from-line l false h.0
split_lines-join l (m ∷ ms) h =
    split_from-line-crlf l (join crlf (m ∷ ms)) false h.0 ∙ ap (◌∷◌ l) (split_lines-join m ms h.1)
