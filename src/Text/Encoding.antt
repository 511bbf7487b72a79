-- ===== src/Text/Encoding.antt =====
-- `str.encode` and `bytes.decode` for the two encodings of a session, "ascii" and "utf-8".
use mathlib.Core.Option.{map}
use pop3sf.Prelude.{
  ℕ, zero, suc, ◌+◌, ◌-◌, ◌*◌, ◌/◌, ◌%◌, Bool, not, ◌&&◌, Option, none, some, List, [], ◌∷◌, ◌++◌,
  ltb, leb, if◌then◌else◌,
}
use pop3sf.Text.{Text}

abbrev pub Bytes : Type 0
Bytes = List ℕ

pub data Encoding : Type 0 where
  ascii utf8 : Encoding

unfoldable pub is_surrogate : ℕ → Bool
is_surrogate c = leb 0xd800 c && leb c 0xdfff

abbrev tail_byte : ℕ → ℕ
tail_byte n = 0x80 + n % 64

-- The bytes of one code point; `none` is a `UnicodeEncodeError`.
unfoldable pub encode_char : Encoding → ℕ → Option Bytes
unfolding is_surrogate
encode_char ascii c = if ltb c 0x80 then some (c ∷ []) else none
encode_char utf8 c =
    if ltb c 0x80
    then some (c ∷ [])
    else if ltb c 0x800
    then some ((0xc0 + c / 64) ∷ tail_byte c ∷ [])
    else if is_surrogate c
    then none
    else if ltb c 0x10000
    then some ((0xe0 + c / 4096) ∷ tail_byte (c / 64) ∷ tail_byte c ∷ [])
    else if ltb c 0x110000
    then some ((0xf0 + c / 262144) ∷ tail_byte (c / 4096) ∷ tail_byte (c / 64) ∷ tail_byte c ∷ [])
    else none

abbrev pub append? : Option Bytes → Option Bytes → Option Bytes
append? none rest = none
append? (some b) none = none
append? (some b) (some rest) = some (b ++ rest)

-- `s.encode(encoding)`
unfoldable pub encode : Encoding → Text → Option Bytes
unfolding encode_char
encode e [] = some []
encode e (c ∷ cs) = append? (encode_char e c) (encode e cs)

-- What a decoder has read of a code point: how many bytes are missing, the bits so far, and the
-- least code point that needs as many bytes.
pub record Pending : Type 0 where
  pub missing : ℕ
  pub bits : ℕ
  pub least : ℕ

abbrev pub nothing_pending : Pending
nothing_pending = record { missing = 0; bits = 0; least = 0 }

abbrev is_tail_byte : ℕ → Bool
is_tail_byte b = leb 0x80 b && ltb b 0xc0

-- The first byte of a code point.
unfoldable pub lead : ℕ → Option (Pending × Text)
lead b =
    if ltb b 0x80
    then some (nothing_pending, b ∷ [])
    else if ltb b 0xc2
    then none
    else if ltb b 0xe0
    then some (record { missing = 1; bits = b - 0xc0; least = 0x80 }, [])
    else if ltb b 0xf0
    then some (record { missing = 2; bits = b - 0xe0; least = 0x800 }, [])
    else if ltb b 0xf5
    then some (record { missing = 3; bits = b - 0xf0; least = 0x10000 }, [])
    else none

-- A code point with all its bytes read.
unfoldable pub complete : ℕ → ℕ → Option (Pending × Text)
unfolding is_surrogate
complete c least =
    if leb least c && ltb c 0x110000 && not (is_surrogate c)
    then some (nothing_pending, c ∷ [])
    else none

unfoldable pub follow : ℕ → ℕ → ℕ → Option (Pending × Text)
unfolding complete
follow zero bits least = complete bits least
follow (suc m) bits least = some (record { missing = suc m; bits = bits; least = least }, [])

-- One byte: the new state and the code points that it completes.
unfoldable pub decode_byte : ℕ → ℕ → ℕ → ℕ → Option (Pending × Text)
unfolding lead follow
decode_byte zero bits least b = lead b
decode_byte (suc m) bits least b =
    if is_tail_byte b then follow m (bits * 64 + (b - 0x80)) least else none

unfoldable pub decode_end : ℕ → Option Text
decode_end zero = some []
decode_end (suc m) = none

unfoldable pub decode_from : Pending → Bytes → Option Text
unfolding decode_byte decode_end
decode_from p [] = decode_end p.missing
decode_from p (b ∷ bs) = elim (decode_byte p.missing p.bits p.least b) [
  | none ↦ none
  | some (q, out) ↦ map (λ rest. out ++ rest) (decode_from q bs)
]

-- `b.decode("utf-8")`; `none` is a `UnicodeDecodeError`.
unfoldable pub decode_utf8 : Bytes → Option Text
unfolding decode_from
decode_utf8 = decode_from nothing_pending
