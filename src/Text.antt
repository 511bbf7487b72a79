-- ===== src/Text.antt =====
-- Python's `str` and the operations on it that the program uses, with the two helpers of
-- src/pop3sf/Auxiliaries.py that work on text and numbers.
-- A text is the list of its code points.
pub mod Lines
pub mod Chunks
pub mod Words
pub mod Decimal
pub mod Encoding
pub mod Order
pub mod Ascii
pub mod Utf8
pub mod Numbers
use Prim.Native.Char.{code}
use pop3sf.Prelude.{
  ℕ, ◌+◌, String, Bool, true, false, not, ◌&&◌, ◌||◌, List, [], ◌∷◌, ◌++◌, leb, ◌==◌, if◌then◌else◌,
}

abbrev pub Text : Type 0
Text = List ℕ

abbrev pub cr : ℕ
cr = 13

abbrev pub lf : ℕ
lf = 10

abbrev pub crlf : Text
crlf = cr ∷ lf ∷ []

abbrev pub dot : ℕ
dot = 46

abbrev pub space : ℕ
space = 32

-- The text of a literal in the source.
unfoldable pub text : String → Text
text String.[] = []
text (String.◌∷◌ c s) = code c ∷ text s

-- `a == b` for texts
unfoldable pub text_eq : Text → Text → Bool
text_eq [] [] = true
text_eq [] (y ∷ ys) = false
text_eq (x ∷ xs) [] = false
text_eq (x ∷ xs) (y ∷ ys) = x == y && text_eq xs ys

-- `s.endswith(suffix)`
unfoldable pub ends_with : Text → Text → Bool
unfolding text_eq
ends_with suffix [] = text_eq [] suffix
ends_with suffix (c ∷ cs) = text_eq (c ∷ cs) suffix || ends_with suffix cs

-- `separator.join(parts)`
unfoldable pub join : Text → List Text → Text
join separator [] = []
join separator (p ∷ []) = p
join separator (p ∷ q ∷ ps) = p ++ (separator ++ join separator (q ∷ ps))

pub prepend : ℕ → List Text → List Text
prepend c [] = (c ∷ []) ∷ []
prepend c (l ∷ ls) = (c ∷ l) ∷ ls

-- `re.split(r'\r\n|\r|\n', s)`; the flag says that the character before was a carriage return, which
-- has ended a line, so that a line feed here belongs to the same match.
unfoldable pub split_from : Bool → Text → List Text
unfolding prepend
split_from after_cr [] = [] ∷ []
split_from after_cr (c ∷ cs) =
    let rest = split_from (c == cr) cs in
    if c == cr
    then [] ∷ rest
    else if c == lf
    then (if after_cr then rest else [] ∷ rest)
    else prepend c rest

unfoldable pub split_lines_without_discarding_empty_lines : Text → List Text
unfolding split_from
split_lines_without_discarding_empty_lines = split_from false

-- `items.pop()`: the items before the last, and the last
unfoldable pub unsnoc : List Text → List Text × Text
unsnoc [] = ([], [])
unsnoc (l ∷ []) = ([], l)
unsnoc (l ∷ m ∷ ms) = let (front, last) = unsnoc (m ∷ ms) in (l ∷ front, last)

-- The complete lines of a buffer, and what is left over: the split and the `pop` of
-- `_line_receiver_generator` in src/pop3sf/ClientHandler.py.
unfoldable pub take_lines : Text → List Text × Text
unfolding split_lines_without_discarding_empty_lines unsnoc
take_lines buffer = unsnoc (split_lines_without_discarding_empty_lines buffer)

-- `re.sub(r'\r\n|\r|\n', '\r\n', s)`, with the same flag
unfoldable pub sub_from : Bool → Text → Text
sub_from after_cr [] = []
sub_from after_cr (c ∷ cs) =
    let rest = sub_from (c == cr) cs in
    if c == cr
    then crlf ++ rest
    else if c == lf
    then (if after_cr then rest else crlf ++ rest)
    else c ∷ rest

unfoldable pub canonicalize_newlines : Text → Text
unfolding sub_from
canonicalize_newlines = sub_from false

unfoldable pub convert_index_to_message_number : ℕ → ℕ
convert_index_to_message_number index = index + 1

abbrev within : ℕ → ℕ → ℕ → Bool
within lo hi c = leb lo c && leb c hi

-- `c.isspace()`
unfoldable pub is_space : ℕ → Bool
is_space c =
    within 9 13 c
    || within 28 32 c
    || c == 0x85
    || c == 0xa0
    || c == 0x1680
    || within 0x2000 0x200a c
    || c == 0x2028
    || c == 0x2029
    || c == 0x202f
    || c == 0x205f
    || c == 0x3000

-- `s.lstrip()`
unfoldable pub lstrip : Text → Text
unfolding is_space
lstrip [] = []
lstrip (c ∷ cs) = if is_space c then lstrip cs else c ∷ cs

abbrev is_nil : Text → Bool
is_nil [] = true
is_nil (c ∷ cs) = false

-- `s.rstrip()`: a character stays if it is no space or something stays behind it.
unfoldable pub rstrip : Text → Text
unfolding is_space
rstrip [] = []
rstrip (c ∷ cs) = let rest = rstrip cs in if is_space c && is_nil rest then [] else c ∷ rest

-- `s.strip()`
unfoldable pub strip : Text → Text
unfolding lstrip rstrip
strip s = rstrip (lstrip s)

flush : Text → List Text → List Text
flush word rest = if is_nil word then rest else word ∷ rest

-- `s.split()`, behind the part `word` of a word that was begun
unfoldable pub words_from : Text → Text → List Text
unfolding is_space flush
words_from word [] = flush word []
words_from word (c ∷ cs) =
    let rest = words_from (if is_space c then [] else word ++ c ∷ []) cs in
    if is_space c then flush word rest else rest

unfoldable pub split : Text → List Text
unfolding words_from
split = words_from []

-- A text without a line feed at its end: what `$` of a regular expression lets in front of it.
unfoldable pub drop_final_newline : Text → Text
drop_final_newline [] = []
drop_final_newline (c ∷ []) = if c == lf then [] else c ∷ []
drop_final_newline (c ∷ d ∷ ds) = c ∷ drop_final_newline (d ∷ ds)
