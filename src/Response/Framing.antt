-- ===== src/Response/Framing.antt =====
-- A client that reads by RFC 1939 gets back what the server put into a multi-line answer.
use pop3sf.Prelude.{
  ℕ, suc, ◌≡◌, refl, sym, ap, ◌∙◌, ◌≢◌, Bool, true, false, not, ◌||◌, Option, none, some, List, [],
  ◌∷◌, ◌++◌, map, append_assoc, arith, All, length, if◌then◌else◌,
}
use pop3sf.Text.{
  Text, crlf, cr, lf, dot, text_eq, ends_with, join, split_lines_without_discarding_empty_lines,
}
use pop3sf.Text.Lines.{IsLine, split_lines-IsLine, split_lines-ne-nil}
use pop3sf.Response.{Response, first_line, compose, stuff, terminate}
use pop3sf.Response.Reader.{received, read_line, unstuff, read_lines, read_multiline}

abbrev pub is_nil : Text → Bool
is_nil [] = true
is_nil (c ∷ cs) = false

-- The lines of the text that reach the client: all of them, but for an empty last line that the
-- caller has not forced.
abbrev pub delivered : Bool → List Text → List Text
delivered force [] = []
delivered force (l ∷ []) = if force || not (is_nil l) then l ∷ [] else []
delivered force (l ∷ m ∷ ms) = l ∷ delivered force (m ∷ ms)

-- Stuffed lines, each with its line break, and the final dot.
abbrev pub wire : List Text → Text
wire [] = dot ∷ crlf
wire (l ∷ ls) = stuff l ++ (crlf ++ wire ls)

text_eq-long : (c d e : ℕ) (s : Text) → text_eq (c ∷ d ∷ e ∷ s) crlf ≡ false
unfolding text_eq
text_eq-long c d e s = ground arith

ends_with-line : (l : Text) → IsLine l → ends_with crlf l ≡ false
unfolding ends_with
ends_with-line [] h = refl
ends_with-line (c ∷ cs) h = unfold text_eq in ground (arith, ends_with-line cs h.1)

text_eq-lf-cons : (c : ℕ) (s : Text) → text_eq (lf ∷ c ∷ s) crlf ≡ false
unfolding text_eq
text_eq-lf-cons c s = refl

ends_with-crlf : (p l : Text) → IsLine l → ends_with crlf (p ++ (crlf ++ l)) ≡ is_nil l
unfolding ends_with
ends_with-crlf [] [] h = refl
ends_with-crlf [] (c ∷ cs) h =
    ground (arith, text_eq-long cr lf c cs, text_eq-lf-cons c cs, ends_with-line (c ∷ cs) h)
ends_with-crlf (c ∷ []) l h = ground (arith, text_eq-long c cr lf l, ends_with-crlf [] l h)
ends_with-crlf (c ∷ d ∷ []) l h =
    ground (arith, text_eq-long c d cr (lf ∷ l), ends_with-crlf (d ∷ []) l h)
ends_with-crlf (c ∷ d ∷ e ∷ p) l h =
    ground (arith, text_eq-long c d e (p ++ (crlf ++ l)), ends_with-crlf (d ∷ e ∷ p) l h)

stuff-IsLine : (l : Text) → IsLine l → IsLine (stuff l)
unfolding stuff
stuff-IsLine [] h = tt
stuff-IsLine (c ∷ cs) h = ground arith

is_nil-stuff : (l : Text) → is_nil (stuff l) ≡ is_nil l
unfolding stuff
is_nil-stuff [] = refl
is_nil-stuff (c ∷ cs) = ground arith

-- The end of the message is as `delivered` and `wire` say, whatever stands before the lines.
terminate-lines :
    (force : Bool) (p l : Text) (ls : List Text)
    → All IsLine (l ∷ ls)
    → terminate force (p ++ (crlf ++ join crlf (map stuff (l ∷ ls))))
      ≡ p ++ (crlf ++ wire (delivered force (l ∷ ls)))
unfolding terminate join
terminate-lines true p l [] h = simp append_assoc
terminate-lines false p [] [] h = unfold stuff in rw (ends_with-crlf p [] tt) (simp append_assoc)
terminate-lines false p (c ∷ cs) [] h =
    rw (ends_with-crlf p (stuff (c ∷ cs)) (stuff-IsLine (c ∷ cs) h.0), is_nil-stuff (c ∷ cs))
      (simp append_assoc)
terminate-lines force p l (m ∷ ms) h =
    ap (terminate force)
      (sym (append_assoc p (crlf ++ stuff l) (crlf ++ join crlf (map stuff (m ∷ ms)))))
    ∙ terminate-lines force (p ++ (crlf ++ stuff l)) m ms h.1
    ∙ append_assoc p (crlf ++ stuff l) (crlf ++ wire (delivered force (m ∷ ms)))

read_line-crlf : (l rest : Text) → IsLine l → read_line (l ++ (crlf ++ rest)) ≡ some (l, rest)
unfolding read_line
read_line-crlf [] rest h = refl
read_line-crlf (c ∷ []) rest h = ground (arith, read_line-crlf [] rest tt)
read_line-crlf (c ∷ d ∷ l) rest h = ground (arith, read_line-crlf (d ∷ l) rest h.1)

unstuff-stuff : (l : Text) → unstuff (stuff l) ≡ received l
unfolding unstuff stuff
unstuff-stuff [] = refl
unstuff-stuff (c ∷ []) = ground arith
unstuff-stuff (c ∷ d ∷ l) = ground arith

read_lines-wire :
    (ls : List Text) (rest : Text)
    → All IsLine ls
    → read_lines (suc (length ls)) (wire ls ++ rest) ≡ some (ls, rest)
unfolding read_lines
read_lines-wire [] rest h = unfold read_line unstuff in refl
read_lines-wire (l ∷ ls) rest h = rw (
  append_assoc (stuff l) (crlf ++ wire ls) rest,
  read_line-crlf (stuff l) (wire ls ++ rest) (stuff-IsLine l h.0),
  unstuff-stuff l,
  read_lines-wire ls rest h.1,
  read_lines,
)

delivered-IsLine : (force : Bool) (ls : List Text) → All IsLine ls → All IsLine (delivered force ls)
delivered-IsLine force [] h = tt
delivered-IsLine force (l ∷ []) h = ground arith
delivered-IsLine force (l ∷ m ∷ ms) h = (h.0, delivered-IsLine force (m ∷ ms) h.1)

terminate-split :
    (force : Bool) (p : Text) (ls : List Text)
    → ls ≢ []
    → All IsLine ls
    → terminate force (p ++ (crlf ++ join crlf (map stuff ls)))
      ≡ p ++ (crlf ++ wire (delivered force ls))
terminate-split force p [] n h = absurd (n refl)
terminate-split force p (l ∷ ls) n h = terminate-lines force p l ls h

compose-wire :
    (r : Response) (language : Option Text) (body : Text)
    → r.message_multiline ≡ some body
    → compose r language
      ≡ first_line r language
        ++ (crlf
            ++ wire (delivered r.force_add_crlf (split_lines_without_discarding_empty_lines body)))
unfolding compose
compose-wire r language body e =
    let lines = split_lines_without_discarding_empty_lines body in
    rw (e, compose)
      (rw append_assoc (
        terminate-split r.force_add_crlf (first_line r language) lines (split_lines-ne-nil body)
          (split_lines-IsLine body)))

-- A client that gets a multi-line answer whose first line holds no line break, with any input behind
-- it, reads that first line, then the lines of the message as they were before the byte-stuffing
-- (all of them, but for an empty last line if no line break was forced), and stops exactly where the
-- answer ends.
pub read_multiline-compose :
    (r : Response) (language : Option Text) (body rest : Text)
    → r.message_multiline ≡ some body
    → IsLine (first_line r language)
    → let lines = delivered r.force_add_crlf (split_lines_without_discarding_empty_lines body) in
      read_multiline (suc (length lines)) (compose r language ++ rest)
      ≡ some (first_line r language, lines, rest)
unfolding read_multiline
read_multiline-compose r language body rest e h =
    let lines = delivered r.force_add_crlf (split_lines_without_discarding_empty_lines body) in
    rw (
      compose-wire r language body e,
      append_assoc (first_line r language) (crlf ++ wire lines) rest,
      read_line-crlf (first_line r language) (wire lines ++ rest) h,
      read_lines-wire lines rest (delivered-IsLine _ _ (split_lines-IsLine body)),
      read_multiline,
    )

-- A single-line answer whose text holds no line break is one line on the wire, with nothing behind.
pub read_line-compose :
    (r : Response) (language : Option Text) (rest : Text)
    → r.message_multiline ≡ none
    → IsLine (first_line r language)
    → read_line (compose r language ++ rest) ≡ some (first_line r language, rest)
unfolding compose
read_line-compose r language rest e h =
    rw (e, compose) (rw append_assoc (read_line-crlf (first_line r language) rest h))
