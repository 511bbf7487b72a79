-- ===== src/Response/Reader.antt =====
-- A client's side of the protocol, as RFC 1939 section 3 and RFC 2449 section 4 describe it: the
-- description that the server's answers are held against. It is not part of the program.
use pop3sf.Prelude.{ℕ, zero, suc, Option, none, some, List, [], ◌∷◌, ◌==◌, if◌then◌else◌}
use pop3sf.Text.{Text, cr, lf, dot}

-- What follows a CRLF at the front.
unfoldable pub after_crlf : ℕ → Text → Option Text
after_crlf c [] = none
after_crlf c (d ∷ ds) = if c == cr then (if d == lf then some ds else none) else none

-- The input up to the first CRLF, and what follows it; `none` if there is no CRLF.
unfoldable pub read_line : Text → Option (Text × Text)
unfolding after_crlf
read_line [] = none
read_line (c ∷ cs) = elim (after_crlf c cs) [
  | some rest ↦ some ([], rest)
  | none ↦ elim (read_line cs) [ none ↦ none | some (l, rest) ↦ some (c ∷ l, rest) ]
]

-- A line of a multi-line answer is the final dot, or gives a line with the stuffed dot taken off.
pub data Received : Type 0 where
  final_dot : Received
  received : Text → Received

unfoldable pub unstuff : Text → Received
unstuff [] = received []
unstuff (c ∷ []) = if c == dot then final_dot else received (c ∷ [])
unstuff (c ∷ d ∷ ds) = if c == dot then received (d ∷ ds) else received (c ∷ d ∷ ds)

-- The lines of a multi-line answer behind its first line, up to the final dot, and the rest of the
-- input. The fuel bounds the number of lines.
unfoldable pub read_lines : ℕ → Text → Option (List Text × Text)
unfolding read_line unstuff
read_lines zero s = none
read_lines (suc f) s = elim (read_line s) [
  | none ↦ none
  | some (l, rest) ↦ elim (unstuff l) [
    | final_dot ↦ some ([], rest)
    | received m ↦ elim (read_lines f rest) [
      | none ↦ none
      | some (ls, rest') ↦ some (m ∷ ls, rest')
    ]
  ]
]

-- A whole multi-line answer: its first line, the lines behind it, and the rest of the input.
unfoldable pub read_multiline : ℕ → Text → Option (Text × List Text × Text)
unfolding read_line read_lines
read_multiline fuel s = elim (read_line s) [
  | none ↦ none
  | some (first, rest) ↦ elim (read_lines fuel rest) [
    | none ↦ none
    | some (ls, rest') ↦ some (first, ls, rest')
  ]
]
