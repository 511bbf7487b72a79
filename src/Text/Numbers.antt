-- ===== src/Text/Numbers.antt =====
-- That `int` reads what `str` prints.
use pop3sf.Prelude.{
  ℕ, zero, suc, ◌+◌, ◌*◌, ◌/◌, ◌%◌, ◌<◌, ◌≤◌, ◌≡◌, refl, sym, ap, ◌∙◌, inl, inr, Bool, true, false,
  some, [], ◌∷◌, ◌++◌, append_assoc, append-nil, ◌==◌, All, pos, ltb, Bool-cases, arith,
}
use pop3sf.Text.{Text}
use pop3sf.Text.Ascii.{IsVisible, strip-IsVisible}
use pop3sf.Text.Decimal.{
  Unicode, AgreesOnAscii, int_digits, int_signed, int, decimal_fuel, to_decimal,
}

abbrev pub IsDigit : ℕ → Type 0
IsDigit c = (48 ≤ c) × (c ≤ 57)

-- The text begins with a digit.
abbrev StartsWithDigit : Text → Type 0
StartsWithDigit [] = ⊥
StartsWithDigit (c ∷ cs) = IsDigit c

All-append : (P : ℕ → Type 0) (xs ys : Text) → All P xs → All P ys → All P (xs ++ ys)
All-append P [] ys h k = k
All-append P (x ∷ xs) ys h k = (h.0, All-append P xs ys h.1 k)

starts-append : (xs ys : Text) → StartsWithDigit xs → StartsWithDigit (xs ++ ys)
starts-append [] ys h = absurd h
starts-append (x ∷ xs) ys h = h

decimal_fuel-IsVisible : (f n : ℕ) → All IsVisible (decimal_fuel f n)
unfolding decimal_fuel
decimal_fuel-IsVisible zero n = tt
decimal_fuel-IsVisible (suc f) n = elim (Bool-cases (ltb n 10)) [
  | inl e ↦ rw e ((ground arith, ground arith), tt)
  | inr e ↦ rw e (
      All-append IsVisible (decimal_fuel f (n / 10)) _ (decimal_fuel-IsVisible f (n / 10))
        ((omega arith, omega arith), tt))
]

decimal_fuel-starts : (f n : ℕ) → n < f → StartsWithDigit (decimal_fuel f n)
unfolding decimal_fuel
decimal_fuel-starts zero n h = absurd (omega arith)
decimal_fuel-starts (suc f) n h = elim (Bool-cases (ltb n 10)) [
  | inl e ↦ rw e (ground arith, ground arith)
  | inr e ↦
      rw e
        (starts-append (decimal_fuel f (n / 10)) _ (decimal_fuel-starts f (n / 10) (ground arith)))
]

module _ (u : Unicode) (agrees : AgreesOnAscii u) where
  decimal-digit : (d : ℕ) → d < 10 → u.decimal (48 + d) ≡ some d
  decimal-digit d h = agrees.decimal_agrees (48 + d) (omega arith) ∙ ground arith

  -- one more digit
  int_digits-digit :
      (n d : ℕ) (after_digit : Bool) (rest : Text)
      → d < 10
      → int_digits u n after_digit ((48 + d) ∷ rest) ≡ int_digits u (n * 10 + d) true rest
  unfolding int_digits
  int_digits-digit n d after_digit rest h = rw (decimal-digit d h, int_digits) refl

  int_digits-decimal :
      (f n : ℕ) (rest : Text)
      → n < f
      → int_digits u 0 false (decimal_fuel f n ++ rest) ≡ int_digits u n true rest
  unfolding decimal_fuel
  int_digits-decimal zero n rest h = absurd (omega arith)
  int_digits-decimal (suc f) n rest h = elim (Bool-cases (ltb n 10)) [
    | inl e ↦ rw e (
        int_digits-digit 0 n false rest (ground arith)
        ∙ ap (λ m. int_digits u m true rest) (omega arith))
    | inr e ↦ rw e (
        ap (int_digits u 0 false) (append_assoc (decimal_fuel f (n / 10)) ((48 + n % 10) ∷ []) rest)
        ∙ int_digits-decimal f (n / 10) ((48 + n % 10) ∷ rest) (ground arith)
        ∙ int_digits-digit (n / 10) (n % 10) true rest (omega arith)
        ∙ ap (λ m. int_digits u m true rest) (omega arith))
  ]

  int_signed-digits :
      (s : Text) (n : ℕ)
      → StartsWithDigit s
      → int_digits u 0 false s ≡ some n
      → int_signed u s ≡ some (pos n)
  unfolding int_signed
  int_signed-digits [] n h e = absurd h
  int_signed-digits (c ∷ cs) n h e =
      let no_minus : (c == 45) ≡ false = ground arith in
      let no_plus : (c == 43) ≡ false = ground arith in rw (no_minus, no_plus, e) refl

  -- If the Unicode database agrees with ASCII, `int` reads a number that `str` printed.
  pub int-to_decimal : (n : ℕ) → int u (to_decimal n) ≡ some (pos n)
  unfolding int to_decimal int_digits
  int-to_decimal n =
      ap (int_signed u)
        (strip-IsVisible (decimal_fuel (suc n) n) (decimal_fuel-IsVisible (suc n) n))
      ∙ int_signed-digits (decimal_fuel (suc n) n) n (decimal_fuel-starts (suc n) n (omega arith)) (
          ap (int_digits u 0 false) (sym (append-nil (decimal_fuel (suc n) n)))
          ∙ int_digits-decimal (suc n) n [] (omega arith))
