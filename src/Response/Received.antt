-- ===== src/Response/Received.antt =====
-- What a client makes of the bytes of an answer.
use pop3sf.Prelude.{
  ℕ, suc, ◌≡◌, refl, sym, subst, ap, ◌∙◌, inl, inr, Bool-cases, Option, none, some, [], ◌∷◌,
  append-nil, length, ltb,
}
use pop3sf.Text.{Text, split_lines_without_discarding_empty_lines}
use pop3sf.Text.Lines.{IsLine}
use pop3sf.Text.Encoding.{Bytes, Encoding, ascii, utf8, encode_char, append?, encode, decode_utf8}
use pop3sf.Text.Utf8.{decode_utf8-encode}
use pop3sf.Response.{Response, first_line, compose, build_message}
use pop3sf.Response.Reader.{read_multiline}
use pop3sf.Response.Framing.{delivered, read_multiline-compose}

-- The first encoding fails, or gives what the second gives.
abbrev FailsOrAgrees : Option Bytes → Option Bytes → Type 0
FailsOrAgrees none o = Unit
FailsOrAgrees (some b) o = o ≡ some b

encode_char-ascii : (c : ℕ) → FailsOrAgrees (encode_char ascii c) (encode_char utf8 c)
unfolding encode_char
encode_char-ascii c = elim (Bool-cases (ltb c 0x80)) [ inl e ↦ rw e refl | inr e ↦ rw e tt ]

append-agrees :
    (a b c d : Option Bytes)
    → FailsOrAgrees a b
    → FailsOrAgrees c d
    → FailsOrAgrees (append? a c) (append? b d)
append-agrees none b c d h k = tt
append-agrees (some x) b none d h k = tt
append-agrees (some x) b (some y) d h k = rw (h, k) refl

encode-ascii : (s : Text) → FailsOrAgrees (encode ascii s) (encode utf8 s)
unfolding encode
encode-ascii [] = refl
encode-ascii (c ∷ cs) =
    append-agrees (encode_char ascii c) (encode_char utf8 c) (encode ascii cs) (encode utf8 cs)
      (encode_char-ascii c) (encode-ascii cs)

-- A text that was encoded in either encoding is decoded as UTF-8.
pub decode_utf8-either :
    (e : Encoding) (s : Text) (bs : Bytes) → encode e s ≡ some bs → decode_utf8 bs ≡ some s
decode_utf8-either utf8 s bs h = decode_utf8-encode s bs h
decode_utf8-either ascii s bs h =
    decode_utf8-encode s bs (subst (λ o. FailsOrAgrees o (encode utf8 s)) h (encode-ascii s))

-- If an answer of several lines, whose first line holds no line break, can be built for a session, in
-- either encoding, then its bytes are valid UTF-8, and a client that decodes them reads, by RFC 1939, the
-- first line and the lines of the message, with nothing left.
pub build_message-read :
    (r : Response) (language : Option Text) (encoding : Encoding) (body : Text) (bytes : Bytes)
    → r.message_multiline ≡ some body
    → IsLine (first_line r language)
    → build_message r language encoding ≡ some bytes
    → let lines = delivered r.force_add_crlf (split_lines_without_discarding_empty_lines body) in
      (s : Text) × (decode_utf8 bytes ≡ some s)
      × (read_multiline (suc (length lines)) s ≡ some (first_line r language, lines, []))
unfolding build_message
build_message-read r language encoding body bytes e h b =
    let lines = delivered r.force_add_crlf (split_lines_without_discarding_empty_lines body) in
    (
      compose r language,
      decode_utf8-either encoding (compose r language) bytes b,
      ap (read_multiline (suc (length lines))) (sym (append-nil (compose r language)))
          ∙ read_multiline-compose r language body [] e h,
    )
