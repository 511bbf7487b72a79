-- ===== src/Text/Utf8.antt =====
-- That decoding takes back encoding in UTF-8.
use mathlib.Core.Option.{map}
use pop3sf.Prelude.{
  ℕ, suc, ◌+◌, ◌-◌, ◌*◌, ◌/◌, ◌%◌, ◌<◌, ◌≤◌, ◌≡◌, refl, ap, ◌∙◌, subst, inl, inr, true, false,
  Option, none, some, [], ◌∷◌, ◌++◌, ltb, leb, Bool-cases, arith,
}
use pop3sf.Text.{Text}
use pop3sf.Text.Encoding.{
  Bytes, utf8, is_surrogate, encode_char, append?, encode, Pending, nothing_pending, lead, complete,
  follow, decode_byte, decode_end, decode_from, decode_utf8,
}

lead_two :
    (k : ℕ)
    → 2 ≤ k
    → k < 32
    → lead (0xc0 + k) ≡ some (record { missing = 1; bits = k; least = 0x80 }, [])
unfolding lead
lead_two k h l = ground arith

lead_three :
    (k : ℕ) → k < 16 → lead (0xe0 + k) ≡ some (record { missing = 2; bits = k; least = 0x800 }, [])
unfolding lead
lead_three k l = ground arith

lead_four :
    (k : ℕ) → k < 5 → lead (0xf0 + k) ≡ some (record { missing = 3; bits = k; least = 0x10000 }, [])
unfolding lead
lead_four k l = ground arith

decode_byte-tail :
    (m bits least t : ℕ)
    → t < 64
    → decode_byte (suc m) bits least (0x80 + t) ≡ follow m (bits * 64 + t) least
unfolding decode_byte
decode_byte-tail m bits least t l =
    let not_below : leb 0x80 (0x80 + t) ≡ true = ground arith in
    let not_above : ltb (0x80 + t) 0xc0 ≡ true = ground arith in
    let same : 0x80 + t - 0x80 ≡ t = omega arith in rw (not_below, not_above, same) refl

complete-char :
    (c least : ℕ)
    → least ≤ c
    → c < 0x110000
    → is_surrogate c ≡ false
    → complete c least ≡ some (nothing_pending, c ∷ [])
unfolding complete
complete-char c least h l e =
    let long_enough : leb least c ≡ true = ground arith in
    let in_range : ltb c 0x110000 ≡ true = ground arith in rw (long_enough, in_range, e) refl

decode_from_step :
    (p q : Pending) (out : Text) (b : ℕ) (bs : Bytes)
    → decode_byte p.missing p.bits p.least b ≡ some (q, out)
    → decode_from p (b ∷ bs) ≡ map (λ rest. out ++ rest) (decode_from q bs)
unfolding decode_from
decode_from_step p q out b bs e = rw (e, decode_from) refl

map_nil : (o : Option Text) → map (λ rest. [] ++ rest) o ≡ o
map_nil none = refl
map_nil (some s) = refl

-- a byte that is not the last one of its code point
decode_from_within :
    (p q : Pending) (b : ℕ) (bs : Bytes)
    → decode_byte p.missing p.bits p.least b ≡ some (q, [])
    → decode_from p (b ∷ bs) ≡ decode_from q bs
decode_from_within p q b bs e = decode_from_step p q [] b bs e ∙ map_nil (decode_from q bs)

-- a byte that ends its code point
decode_from_last :
    (m least bits c b : ℕ) (rest : Bytes)
    → decode_byte m bits least b ≡ some (nothing_pending, c ∷ [])
    → decode_from (record { missing = m; bits = bits; least = least }) (b ∷ rest)
      ≡ map (λ s. c ∷ s) (decode_from nothing_pending rest)
decode_from_last m least bits c b rest e =
    decode_from_step (record { missing = m; bits = bits; least = least }) nothing_pending (c ∷ []) b
      rest e

decode_from_tail :
    (m bits least t : ℕ) (rest : Bytes)
    → t < 64
    → decode_from (record { missing = suc (suc m); bits = bits; least = least }) ((0x80 + t) ∷ rest)
      ≡ decode_from (record { missing = suc m; bits = bits * 64 + t; least = least }) rest
unfolding follow
decode_from_tail m bits least t rest l =
    decode_from_within (record { missing = suc (suc m); bits = bits; least = least })
      (record { missing = suc m; bits = bits * 64 + t; least = least }) (0x80 + t) rest
      (decode_byte-tail (suc m) bits least t l)

decode_from_final :
    (c bits least t : ℕ) (rest : Bytes)
    → bits * 64 + t ≡ c
    → t < 64
    → least ≤ c
    → c < 0x110000
    → is_surrogate c ≡ false
    → decode_from (record { missing = 1; bits = bits; least = least }) ((0x80 + t) ∷ rest)
      ≡ map (λ s. c ∷ s) (decode_from nothing_pending rest)
unfolding follow
decode_from_final c bits least t rest same l h k e =
    decode_from_last 1 least bits c (0x80 + t) rest (
      decode_byte-tail 0 bits least t l
      ∙ ap (λ x. complete x least) same
      ∙ complete-char c least h k e)

-- `b` is read as the one code point `c`, whatever follows.
abbrev IsReadAs : ℕ → Bytes → Type 0
IsReadAs c b =
    (rest : Bytes)
    → decode_from nothing_pending (b ++ rest) ≡ map (λ s. c ∷ s) (decode_from nothing_pending rest)

lead_one : (c : ℕ) → c < 0x80 → lead c ≡ some (nothing_pending, c ∷ [])
unfolding lead
lead_one c h = ground arith

one-IsReadAs : (c : ℕ) → c < 0x80 → IsReadAs c (c ∷ [])
unfolding decode_byte
one-IsReadAs c h rest = decode_from_last 0 0 0 c c rest (lead_one c h)

two-IsReadAs :
    (c : ℕ)
    → 0x80 ≤ c
    → c < 0x800
    → is_surrogate c ≡ false
    → IsReadAs c ((0xc0 + c / 64) ∷ (0x80 + c % 64) ∷ [])
unfolding decode_byte
two-IsReadAs c h l e rest =
    decode_from_within nothing_pending (record { missing = 1; bits = c / 64; least = 0x80 })
      (0xc0 + c / 64) _ (lead_two (c / 64) (omega arith) (omega arith))
    ∙ decode_from_final c (c / 64) 0x80 (c % 64) rest (omega arith) (omega arith) h (omega arith) e

three-IsReadAs :
    (c : ℕ)
    → 0x800 ≤ c
    → c < 0x10000
    → is_surrogate c ≡ false
    → IsReadAs c ((0xe0 + c / 4096) ∷ (0x80 + c / 64 % 64) ∷ (0x80 + c % 64) ∷ [])
unfolding decode_byte
three-IsReadAs c h l e rest =
    decode_from_within nothing_pending (record { missing = 2; bits = c / 4096; least = 0x800 })
      (0xe0 + c / 4096) _ (lead_three (c / 4096) (omega arith))
    ∙ decode_from_tail 0 (c / 4096) 0x800 (c / 64 % 64) _ (omega arith)
    ∙ decode_from_final c (c / 4096 * 64 + c / 64 % 64) 0x800 (c % 64) rest (omega arith)
        (omega arith) h (omega arith) e

four-IsReadAs :
    (c : ℕ)
    → 0x10000 ≤ c
    → c < 0x110000
    → is_surrogate c ≡ false
    → IsReadAs c
        ((0xf0 + c / 262144) ∷ (0x80 + c / 4096 % 64) ∷ (0x80 + c / 64 % 64) ∷ (0x80 + c % 64) ∷ [])
unfolding decode_byte
four-IsReadAs c h l e rest =
    decode_from_within nothing_pending (record { missing = 3; bits = c / 262144; least = 0x10000 })
      (0xf0 + c / 262144) _ (lead_four (c / 262144) (omega arith))
    ∙ decode_from_tail 1 (c / 262144) 0x10000 (c / 4096 % 64) _ (omega arith)
    ∙ decode_from_tail 0 (c / 262144 * 64 + c / 4096 % 64) 0x10000 (c / 64 % 64) _ (omega arith)
    ∙ decode_from_final c ((c / 262144 * 64 + c / 4096 % 64) * 64 + c / 64 % 64) 0x10000 (c % 64)
        rest (omega arith) (omega arith) h l e

-- What a code point has been encoded as is read as that code point.
abbrev IsReadBack : ℕ → Option Bytes → Type 0
IsReadBack c none = Unit
IsReadBack c (some b) = IsReadAs c b

below-surrogates : (c : ℕ) → c < 0x800 → is_surrogate c ≡ false
unfolding is_surrogate
below-surrogates c h = ground arith

encode_char-IsReadBack : (c : ℕ) → IsReadBack c (encode_char utf8 c)
unfolding encode_char
encode_char-IsReadBack c = elim (Bool-cases (ltb c 0x80)) [
  | inl e ↦ rw e (one-IsReadAs c (ground arith))
  | inr n ↦ elim (Bool-cases (ltb c 0x800)) [
    | inl e ↦
        rw (n, e) (two-IsReadAs c (ground arith) (ground arith) (below-surrogates c (ground arith)))
    | inr m ↦ elim (Bool-cases (is_surrogate c)) [
      | inl e ↦ rw (n, m, e) tt
      | inr k ↦ elim (Bool-cases (ltb c 0x10000)) [
        | inl e ↦ rw (n, m, k, e) (three-IsReadAs c (ground arith) (ground arith) k)
        | inr l ↦ elim (Bool-cases (ltb c 0x110000)) [
          | inl e ↦ rw (n, m, k, l, e) (four-IsReadAs c (ground arith) (ground arith) k)
          | inr e ↦ rw (n, m, k, l, e) tt
        ]
      ]
    ]
  ]
]

abbrev IsReadAsText : Text → Option Bytes → Type 0
IsReadAsText s none = Unit
IsReadAsText s (some bs) = decode_from nothing_pending bs ≡ some s

append-IsReadAsText :
    (c : ℕ) (cs : Text) (b bs : Option Bytes)
    → IsReadBack c b
    → IsReadAsText cs bs
    → IsReadAsText (c ∷ cs) (append? b bs)
append-IsReadAsText c cs none bs h k = tt
append-IsReadAsText c cs (some b) none h k = tt
append-IsReadAsText c cs (some b) (some bs) h k = h bs ∙ ap (map (λ s. c ∷ s)) k

encode-IsReadAsText : (s : Text) → IsReadAsText s (encode utf8 s)
unfolding encode decode_from decode_end
encode-IsReadAsText [] = refl
encode-IsReadAsText (c ∷ cs) =
    append-IsReadAsText c cs (encode_char utf8 c) (encode utf8 cs) (encode_char-IsReadBack c)
      (encode-IsReadAsText cs)

-- If a text can be encoded in UTF-8, decoding the bytes gives the text back.
pub decode_utf8-encode : (s : Text) (bs : Bytes) → encode utf8 s ≡ some bs → decode_utf8 bs ≡ some s
unfolding decode_utf8
decode_utf8-encode s bs e = subst (IsReadAsText s) e (encode-IsReadAsText s)
