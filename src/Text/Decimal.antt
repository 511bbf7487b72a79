-- ===== src/Text/Decimal.antt =====
-- `int(s)` and `str(n)` in base ten, and what the Unicode database adds to them.
use pop3sf.Prelude.{
  ℕ, zero, suc, ◌+◌, ◌-◌, ◌*◌, ◌/◌, ◌%◌, ◌<◌, ◌≡◌, Bool, true, false, ◌&&◌, Option, none, some, [],
  ◌∷◌, ◌++◌, map, All, ℤ, pos, neg, ltb, leb, ◌==◌, if◌then◌else◌,
}
use pop3sf.Text.{Text, strip}

-- What Python takes from the Unicode database: `s.upper()`, and the value of a decimal digit.
pub record Unicode : Type 0 where
  pub upper : Text → Text
  pub decimal : ℕ → Option ℕ

abbrev pub upper_ascii : ℕ → ℕ
upper_ascii c = if leb b'a' c && leb c b'z' then c - 32 else c

abbrev pub decimal_ascii : ℕ → Option ℕ
decimal_ascii c = if leb b'0' c && leb c b'9' then some (c - 48) else none

-- The documented behaviour of both on ASCII text.
pub record AgreesOnAscii (u : Unicode) : Type 0 where
  pub upper_agrees : (s : Text) → All (λ c. c < 128) s → u.upper s ≡ map upper_ascii s
  pub decimal_agrees : (c : ℕ) → c < 128 → u.decimal c ≡ decimal_ascii c

module _ (u : Unicode) where
  -- The digits behind a sign, with single underscores between them; the flag says that the last
  -- character was a digit.
  unfoldable pub int_digits : ℕ → Bool → Text → Option ℕ
  int_digits n after_digit [] = if after_digit then some n else none
  int_digits n after_digit (c ∷ cs) = elim (u.decimal c) [
    | some d ↦ int_digits (n * 10 + d) true cs
    | none ↦ elim (c == b'_' && after_digit) [ true ↦ int_digits n false cs | false ↦ none ]
  ]

  abbrev to_pos : Option ℕ → Option ℤ
  to_pos none = none
  to_pos (some n) = some (pos n)

  abbrev to_neg : Option ℕ → Option ℤ
  to_neg none = none
  to_neg (some n) = some (neg n)

  unfoldable pub int_signed : Text → Option ℤ
  unfolding int_digits
  int_signed [] = none
  int_signed (c ∷ cs) =
      if c == b'-'
      then to_neg (int_digits 0 false cs)
      else if c == b'+'
      then to_pos (int_digits 0 false cs)
      else to_pos (int_digits 0 false (c ∷ cs))

  -- `int(s)`; `none` is a `ValueError`.
  unfoldable pub int : Text → Option ℤ
  unfolding int_signed
  int s = int_signed (strip s)

abbrev digit : ℕ → ℕ
digit d = 48 + d

unfoldable pub decimal_fuel : ℕ → ℕ → Text
decimal_fuel zero n = []
decimal_fuel (suc f) n =
    let front = decimal_fuel f (n / 10) in
    if ltb n 10 then digit n ∷ [] else front ++ digit (n % 10) ∷ []

-- `str(n)`, for `n >= 0`
unfoldable pub to_decimal : ℕ → Text
unfolding decimal_fuel
to_decimal n = decimal_fuel (suc n) n
