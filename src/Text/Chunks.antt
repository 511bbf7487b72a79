-- ===== src/Text/Chunks.antt =====
-- Splitting a text that arrives in two parts.
use pop3sf.Prelude.{
  ℕ, ◌≡◌, ◌≢◌, refl, sym, ap, ◌∙◌, Bool, true, false, List, [], ◌∷◌, ◌++◌, arith, All, ◌==◌,
}
use pop3sf.Text.{
  Text, cr, lf, prepend, split_from, split_lines_without_discarding_empty_lines, unsnoc, take_lines,
}
use pop3sf.Text.Lines.{IsLine, split_from-ne-nil, split_from-IsLine}

-- The last line of what came first goes on with the first line of what comes next.
abbrev pub glue : Text → List Text → List Text
glue last [] = last ∷ []
glue last (l ∷ ls) = (last ++ l) ∷ ls

-- whether a carriage return came last
abbrev pub ends_in_cr : Bool → Text → Bool
ends_in_cr flag [] = flag
ends_in_cr flag (c ∷ cs) = ends_in_cr (c == cr) cs

-- The split with the last line apart, behind what follows it.
abbrev continue_split : List Text → List Text → List Text
continue_split [] more = more
continue_split (l ∷ []) more = glue l more
continue_split (l ∷ m ∷ ms) more = l ∷ continue_split (m ∷ ms) more

continue-prepend :
    (c : ℕ) (ls more : List Text)
    → ls ≢ []
    → continue_split (prepend c ls) more ≡ prepend c (continue_split ls more)
unfolding prepend
continue-prepend c [] more h = absurd (h refl)
continue-prepend c (l ∷ []) [] h = refl
continue-prepend c (l ∷ []) (m ∷ ms) h = refl
continue-prepend c (l ∷ m ∷ ms) more h = refl

continue-nil-cons :
    (ls more : List Text) → ls ≢ [] → continue_split ([] ∷ ls) more ≡ [] ∷ continue_split ls more
continue-nil-cons [] more h = absurd (h refl)
continue-nil-cons (m ∷ ms) more h = refl

glue-nil : (ls : List Text) → ls ≢ [] → glue [] ls ≡ ls
glue-nil [] h = absurd (h refl)
glue-nil (l ∷ ls) h = refl

pub split_from-append :
    (flag : Bool) (a b : Text)
    → split_from flag (a ++ b)
      ≡ continue_split (split_from flag a) (split_from (ends_in_cr flag a) b)
unfolding split_from
split_from-append flag [] b = sym (glue-nil (split_from flag b) (split_from-ne-nil flag b))
split_from-append flag (c ∷ cs) b =
    let more = split_from (ends_in_cr (c == cr) cs) b in
    ground (
      arith,
      split_from-append (c == cr) cs b,
      split_from-ne-nil (c == cr) cs,
      continue-prepend c (split_from (c == cr) cs) more,
      continue-nil-cons (split_from (c == cr) cs) more,
    )

-- A line without its break does not change how what follows is split.
prepend-glue : (c : ℕ) (l : Text) (ls : List Text) → prepend c (glue l ls) ≡ glue (c ∷ l) ls
unfolding prepend
prepend-glue c l [] = refl
prepend-glue c l (m ∷ ms) = refl

split_from-line-append :
    (l b : Text) → IsLine l → split_from false (l ++ b) ≡ glue l (split_from false b)
unfolding split_from
split_from-line-append [] b h = sym (glue-nil (split_from false b) (split_from-ne-nil false b))
split_from-line-append (c ∷ cs) b h =
    ground (arith, split_from-line-append cs b h.1, prepend-glue c cs (split_from false b))

-- Only a line feed at the front is split differently behind a carriage return.
split_from-flag :
    (b : Text) (flag : Bool)
    → ((flag ≡ true) → (rest : Text) → b ≢ lf ∷ rest)
    → split_from flag b ≡ split_from false b
unfolding split_from
split_from-flag [] flag h = refl
split_from-flag (c ∷ cs) false h = refl
split_from-flag (c ∷ cs) true h = ground (arith, h refl cs)

unsnoc-cons :
    (l : Text) (ls : List Text) → ls ≢ [] → unsnoc (l ∷ ls) ≡ (l ∷ (unsnoc ls).0, (unsnoc ls).1)
unfolding unsnoc
unsnoc-cons l [] h = absurd (h refl)
unsnoc-cons l (m ∷ ms) h = refl

continue-ne-nil : (l : Text) (ls more : List Text) → continue_split (l ∷ ls) more ≢ []
continue-ne-nil l [] [] = λ e. cc
continue-ne-nil l [] (m ∷ ms) = λ e. cc
continue-ne-nil l (k ∷ ks) more = λ e. cc

unsnoc-continue :
    (ls more : List Text)
    → ls ≢ []
    → unsnoc (continue_split ls more) ≡ (
      (unsnoc ls).0 ++ (unsnoc (glue (unsnoc ls).1 more)).0,
      (unsnoc (glue (unsnoc ls).1 more)).1,
    )
unfolding unsnoc
unsnoc-continue [] more h = absurd (h refl)
unsnoc-continue (l ∷ []) more h = refl
unsnoc-continue (l ∷ m ∷ ms) more h = rw (
  unsnoc-cons l (continue_split (m ∷ ms) more) (continue-ne-nil m ms more),
  unsnoc-continue (m ∷ ms) more (λ e. cc),
)

unsnoc-IsLine : (ls : List Text) → All IsLine ls → IsLine (unsnoc ls).1
unfolding unsnoc
unsnoc-IsLine [] h = tt
unsnoc-IsLine (l ∷ []) h = h.0
unsnoc-IsLine (l ∷ m ∷ ms) h = unsnoc-IsLine (m ∷ ms) h.1

take_lines-flag :
    (a b : Text) (more : List Text)
    → split_from (ends_in_cr false a) b ≡ more
    → take_lines (a ++ b) ≡ (
      (take_lines a).0 ++ (unsnoc (glue (take_lines a).1 more)).0,
      (unsnoc (glue (take_lines a).1 more)).1,
    )
unfolding take_lines split_lines_without_discarding_empty_lines
take_lines-flag a b more e =
    ap unsnoc (split_from-append false a b ∙ ap (continue_split (split_from false a)) e)
    ∙ unsnoc-continue (split_from false a) more (split_from-ne-nil false a)

take_lines-rest :
    (a b : Text)
    → take_lines ((take_lines a).1 ++ b) ≡ unsnoc (glue (take_lines a).1 (split_from false b))
unfolding take_lines split_lines_without_discarding_empty_lines
take_lines-rest a b = ap unsnoc (
    split_from-line-append (unsnoc (split_from false a)).1 b
      (unsnoc-IsLine (split_from false a) (split_from-IsLine false a)))

-- Take a text that arrives in two parts, where not both the first part ends in a carriage return and
-- the second begins with a line feed. The lines that are complete after the first part, then those
-- that are complete after what was left over and the second part, are the complete lines of the
-- whole text, and the same is left over.
pub take_lines-append :
    (a b : Text)
    → (ends_in_cr false a ≡ true → (rest : Text) → b ≢ lf ∷ rest)
    → let (lines, left) = take_lines a in
      let (more_lines, rest) = take_lines (left ++ b) in
      take_lines (a ++ b) ≡ (lines ++ more_lines, rest)
take_lines-append a b h =
    take_lines-flag a b (split_from false b) (split_from-flag b (ends_in_cr false a) h)
    ∙ ap (λ r. ((take_lines a).0 ++ r.0, r.1)) (sym (take_lines-rest a b))

ends_in_cr-append : (a : Text) (flag : Bool) → ends_in_cr flag (a ++ cr ∷ []) ≡ true
ends_in_cr-append [] flag = refl
ends_in_cr-append (c ∷ cs) flag = ends_in_cr-append cs (c == cr)

split_from-cr : (flag : Bool) → split_from flag (cr ∷ []) ≡ [] ∷ [] ∷ []
unfolding split_from
split_from-cr flag = refl

left_after_cr : (a : Text) → (take_lines (a ++ cr ∷ [])).1 ≡ []
unfolding unsnoc
left_after_cr a =
    ap (λ r. r.1) (take_lines-flag a (cr ∷ []) ([] ∷ [] ∷ []) (split_from-cr (ends_in_cr false a)))

split_from-lf : (b : Text) → split_from true (lf ∷ b) ≡ split_from false b
unfolding split_from
split_from-lf b = refl

take_lines-lf : (b : Text) → take_lines (lf ∷ b) ≡ ([] ∷ (take_lines b).0, (take_lines b).1)
unfolding take_lines split_lines_without_discarding_empty_lines split_from
take_lines-lf b = unsnoc-cons [] (split_from false b) (split_from-ne-nil false b)

take_lines-glue : (b : Text) → unsnoc (glue [] (split_from false b)) ≡ take_lines b
unfolding take_lines split_lines_without_discarding_empty_lines
take_lines-glue b = ap unsnoc (glue-nil (split_from false b) (split_from-ne-nil false b))

-- Where a text is cut between a carriage return and its line feed, nothing is left over of the first
-- part, and the second part yields one line more than the whole text does: an empty one, in front of
-- the lines that are due.
pub take_lines-cut_crlf :
    (a b : Text)
    → let (lines, left) = take_lines (a ++ cr ∷ []) in
      let (more_lines, rest) = take_lines b in
      (take_lines ((a ++ cr ∷ []) ++ lf ∷ b) ≡ (lines ++ more_lines, rest))
      × (take_lines (left ++ lf ∷ b) ≡ ([] ∷ more_lines, rest))
take_lines-cut_crlf a b = (
  take_lines-flag (a ++ cr ∷ []) (lf ∷ b) (split_from false b)
        (ap (λ f. split_from f (lf ∷ b)) (ends_in_cr-append a false) ∙ split_from-lf b)
      ∙ rw (left_after_cr a, take_lines-glue b),
  rw left_after_cr (take_lines-lf b),
)
