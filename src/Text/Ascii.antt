-- ===== src/Text/Ascii.antt =====
-- Texts of visible ASCII characters: their encoding is the text itself, and `strip` leaves them.
use pop3sf.Prelude.{ℕ, ◌≤◌, ◌≡◌, refl, ap, ◌∙◌, false, some, [], ◌∷◌, All, arith}
use pop3sf.Text.{Text, is_space, lstrip, rstrip, strip}
use pop3sf.Text.Encoding.{
  Bytes, Encoding, ascii, utf8, encode, encode_char, decode_utf8, decode_from, decode_byte,
  decode_end, lead, nothing_pending,
}

abbrev pub IsVisible : ℕ → Type 0
IsVisible c = (0x21 ≤ c) × (c ≤ 0x7e)

encode_char-IsVisible : (e : Encoding) (c : ℕ) → IsVisible c → encode_char e c ≡ some (c ∷ [])
unfolding encode_char
encode_char-IsVisible ascii c h = ground arith
encode_char-IsVisible utf8 c h = ground arith

pub encode-IsVisible : (e : Encoding) (s : Text) → All IsVisible s → encode e s ≡ some s
unfolding encode
encode-IsVisible e [] h = refl
encode-IsVisible e (c ∷ s) h = rw (encode_char-IsVisible e c h.0, encode-IsVisible e s h.1) refl

lead-IsVisible : (c : ℕ) → IsVisible c → lead c ≡ some (nothing_pending, c ∷ [])
unfolding lead
lead-IsVisible c h = ground arith

decode_from-IsVisible : (s : Bytes) → All IsVisible s → decode_from nothing_pending s ≡ some s
unfolding decode_from decode_byte decode_end
decode_from-IsVisible [] h = refl
decode_from-IsVisible (c ∷ s) h = ground (arith, lead-IsVisible c h.0, decode_from-IsVisible s h.1)

pub decode_utf8-IsVisible : (s : Bytes) → All IsVisible s → decode_utf8 s ≡ some s
unfolding decode_utf8
decode_utf8-IsVisible = decode_from-IsVisible

is_space-IsVisible : (c : ℕ) → IsVisible c → is_space c ≡ false
unfolding is_space
is_space-IsVisible c h = ground arith

rstrip-IsVisible : (s : Text) → All IsVisible s → rstrip s ≡ s
unfolding rstrip
rstrip-IsVisible [] h = refl
rstrip-IsVisible (c ∷ s) h = rw (is_space-IsVisible c h.0, rstrip-IsVisible s h.1) refl

lstrip-IsVisible : (s : Text) → All IsVisible s → lstrip s ≡ s
unfolding lstrip
lstrip-IsVisible [] h = refl
lstrip-IsVisible (c ∷ s) h = rw (is_space-IsVisible c h.0) refl

pub strip-IsVisible : (s : Text) → All IsVisible s → strip s ≡ s
unfolding strip
strip-IsVisible s h = ap rstrip (lstrip-IsVisible s h) ∙ rstrip-IsVisible s h
