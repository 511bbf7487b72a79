-- ===== src/Commands/Top.antt =====
-- What a client reads in the answer to TOP.
use mathlib.Core.List.{tail}
use pop3sf.Prelude.{
  ℕ, zero, suc, ◌≡◌, ◌≢◌, refl, subst, true, Option, some, List, [], ◌∷◌, ◌++◌, All, take, length,
  pos, ◌==◌,
}
use pop3sf.Text.{Text, text, crlf, join, split_lines_without_discarding_empty_lines}
use pop3sf.Text.Decimal.{int}
use pop3sf.Text.Lines.{IsLine, split_lines-IsLine, split_lines-ne-nil, split_lines-join}
use pop3sf.Response.{Response, first_line, compose, ok_multiline, ok_response}
use pop3sf.Response.Reader.{read_multiline}
use pop3sf.Response.Framing.{delivered, read_multiline-compose}
use pop3sf.Adapter.{ok, raised, send_data}
use pop3sf.Session.{World, ◌>>=◌}
use pop3sf.Helper.{get_headers_and_first_n_lines_of_a_message, Env, header_lines, requested_lines}
use pop3sf.Helper.Listing.{Mailbox, Shows, visible, get_headers_and_first_n_lines_of_a_message_lem}
use pop3sf.Commands.Arguments.{
  mem_count, check_argument_count, check_lines, parse_message_number_argument_to_index,
  parse_number_of_lines_argument,
}
use pop3sf.Commands.Listing.{parse_message_number_argument_to_index-accepts, visible-below}
use pop3sf.Commands.Transaction.{command_top}

module _ (P : Text → Type 0) where
  All-append : (xs ys : List Text) → All P xs → All P ys → All P (xs ++ ys)
  All-append [] ys h k = k
  All-append (x ∷ xs) ys h k = (h.0, All-append xs ys h.1 k)

  All-take : (n : ℕ) (xs : List Text) → All P xs → All P (take n xs)
  All-take zero xs h = tt
  All-take (suc n) [] h = tt
  All-take (suc n) (x ∷ xs) h = (h.0, All-take n xs h.1)

  All-tail : (xs : List Text) → All P xs → All P (tail xs)
  All-tail [] h = tt
  All-tail (x ∷ xs) h = h.1

  All-header : (ls : List Text) → All P ls → All P (header_lines ls).0 × All P (header_lines ls).1
  unfolding header_lines
  All-header [] h = (tt, tt)
  All-header ([] ∷ ls) h = (tt, h)
  All-header ((c ∷ cs) ∷ ls) h = let (k, l) = All-header ls h.1 in ((h.0, k), l)

  All-requested : (n : ℕ) (ls : List Text) → All P ls → All P (requested_lines n ls)
  unfolding requested_lines
  All-requested n ls h =
      let (k, l) = All-header ls h in
      let rest = (header_lines ls).1 in
      All-append (header_lines ls).0 (take 1 rest ++ take n (tail rest)) k (
        All-append (take 1 rest) (take n (tail rest)) (All-take 1 rest l)
          (All-take n (tail rest) (All-tail rest l)))

requested-ne-nil : (n : ℕ) (ls : List Text) → ls ≢ [] → requested_lines n ls ≢ []
unfolding requested_lines header_lines
requested-ne-nil n [] h = absurd (h refl)
requested-ne-nil n ([] ∷ ls) h = λ e. cc
requested-ne-nil n ((c ∷ cs) ∷ ls) h = λ e. cc

split-join :
    (ls : List Text)
    → ls ≢ []
    → All IsLine ls
    → split_lines_without_discarding_empty_lines (join crlf ls) ≡ ls
split-join [] n h = absurd (n refl)
split-join (l ∷ ls) n h = split_lines-join l ls h

-- What TOP shows of a message's lines if `n` lines of the body are asked for: the headers, the empty
-- line behind them and the first `n` lines of the body, or all lines if none of them is empty.
pub data IsTop (n : ℕ) : List Text → List Text → Type 0 where
  up_to_body :
      (headers body : List Text)
      → All (λ l. l ≢ []) headers
      → IsTop n (headers ++ [] ∷ body) (headers ++ [] ∷ take n body)
  no_body : (headers : List Text) → All (λ l. l ≢ []) headers → IsTop n headers headers

IsTop-header :
    (n : ℕ) (l : Text) (ls shown : List Text)
    → l ≢ []
    → IsTop n ls shown
    → IsTop n (l ∷ ls) (l ∷ shown)
IsTop-header n l _ _ h (up_to_body headers body all) = up_to_body (l ∷ headers) body (h, all)
IsTop-header n l _ _ h (no_body headers all) = no_body (l ∷ headers) (h, all)

requested-IsTop : (n : ℕ) (ls : List Text) → IsTop n ls (requested_lines n ls)
unfolding requested_lines header_lines
requested-IsTop zero [] = no_body [] tt
requested-IsTop (suc n) [] = no_body [] tt
requested-IsTop n ([] ∷ ls) = up_to_body [] ls tt
requested-IsTop n ((c ∷ cs) ∷ ls) = IsTop-header n (c ∷ cs) ls _ (λ e. cc) (requested-IsTop n ls)

-- The answer to TOP that shows these lines, where `n` lines of the body are asked for.
abbrev pub top_answer : ℕ → List Text → Response
top_answer n lines =
    ok_multiline (text "Sending the message's partial content") (join crlf lines) (n == 0)

abbrev top_lines : ℕ → Text → List Text
top_lines n content = requested_lines n (split_lines_without_discarding_empty_lines content)

split-top :
    (n : ℕ) (content : Text)
    → split_lines_without_discarding_empty_lines (join crlf (top_lines n content))
      ≡ top_lines n content
split-top n content =
    split-join (top_lines n content) (requested-ne-nil n _ (split_lines-ne-nil content))
      (All-requested IsLine n _ (split_lines-IsLine content))

module _ {S : Type 0} (env : Env S) (mailbox : Mailbox) (w : World S)
    (shows : Shows env.adapter w.status.encoding w.adapter mailbox) where
  -- If the adapter shows a mailbox, and the arguments are the number of a message that LIST lists and a
  -- number `n` of lines, TOP answers without any change with the message's headers, the empty line
  -- behind them and the first `n` lines behind that, or with all lines if none is empty; and a client
  -- that reads the answer, with any input behind it, gets these lines, but for an empty last one if `n`
  -- is not 0, and stops where the answer ends.
  pub command_top-read :
      (a b : Text) (index n : ℕ) (language : Option Text) (rest : Text)
      → int env.unicode a ≡ some (pos (suc index))
      → mem_count index (visible mailbox w.status.read_only_mailbox_access) ≡ true
      → int env.unicode b ≡ some (pos n)
      → IsLine (first_line (top_answer n []) language)
      → (lines : List Text) × IsTop n
          (split_lines_without_discarding_empty_lines (mailbox.content index))
          lines
        × (command_top env (a ∷ b ∷ []) w ≡ (raised (send_data (top_answer n lines)), w))
        × (read_multiline
              (suc (length (delivered (n == 0) lines)))
              (compose (top_answer n lines) language ++ rest)
            ≡ some (first_line (top_answer n []) language, delivered (n == 0) lines, rest))
  unfolding ◌>>=◌ command_top check_argument_count mem_count parse_number_of_lines_argument
      check_lines ok_multiline ok_response first_line
  command_top-read a b index n language rest number listed lines_number line = (
    lines,
    requested-IsTop n (split_lines_without_discarding_empty_lines (mailbox.content index)),
    rw (accepted, lines_number, got) refl,
    subst
        (λ ls.
          read_multiline (suc (length (delivered (n == 0) ls))) (compose answer language ++ rest)
          ≡ some (first_line answer language, delivered (n == 0) ls, rest))
        (split-top n (mailbox.content index))
        (read_multiline-compose answer language (join crlf lines) rest refl line),
  )
    where
      lines : List Text
      lines = top_lines n (mailbox.content index)

      answer : Response
      answer = top_answer n lines

      accepted : parse_message_number_argument_to_index env a w ≡ (ok index, w)
      accepted =
          let (there, back) =
            parse_message_number_argument_to_index-accepts env mailbox w shows a index in
          back (number, listed)

      got : ◌≡◌ (get_headers_and_first_n_lines_of_a_message env index n w) (ok (join crlf lines), w)
      got =
          get_headers_and_first_n_lines_of_a_message_lem env w index n (mailbox.content index)
            (shows.shows_content index (visible-below mailbox _ index listed))
