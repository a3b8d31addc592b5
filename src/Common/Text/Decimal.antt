-- ===== src/Common/Text/Decimal.antt =====
-- The decimal digits that `show_int` writes, as `atoi` reads them.
use tareas_elo.Common.{
  ◌∙◌, subst, sym, ap, ℕ, zero, suc, ◌+◌, ◌-◌, ◌*◌, ◌/◌, ◌%◌, ◌^◌, ◌<◌, ◌≡◌, refl, List, [], ◌∷◌,
  ◌++◌, true, false, ◌==◌, leb, dec_lt, ltb_of_lt, ltb_of_le, arith,
}
use tareas_elo.Common.Int.{ℤ, pos, negsuc, i32, Fits, i32-Fits}
use tareas_elo.Common.Text.{
  is_digit, is_space, digits_value, skip_space, strtol, atoi, show_digits, show_int,
}

digit : (n : ℕ) → n < 10 → is_digit (b'0' + n) ≡ true
digit n h = ground arith

-- A digit behind a number of digits only.
abbrev pub AllDigits : List ℕ → Type 0
AllDigits [] = Unit
AllDigits (c ∷ s) = (is_digit c ≡ true) × AllDigits s

digits_value-snoc :
    (acc : ℕ) (s : List ℕ) (n : ℕ)
    → AllDigits s
    → n < 10
    → digits_value acc (s ++ ((b'0' + n) ∷ [])) ≡ digits_value acc s * 10 + n
unfolding digits_value
digits_value-snoc acc [] n h below = rw (digit n below) omega arith
digits_value-snoc acc (c ∷ s) n h below =
    rw (h.0) (digits_value-snoc (acc * 10 + (c - b'0')) s n h.1 below)

snoc-AllDigits : (s : List ℕ) (n : ℕ) → AllDigits s → n < 10 → AllDigits (s ++ ((b'0' + n) ∷ []))
snoc-AllDigits [] n h below = (digit n below, tt)
snoc-AllDigits (c ∷ s) n h below = (h.0, snoc-AllDigits s n h.1 below)

-- With a round for each digit the digits of a number are digits, and have its value.
pub show_digits-value :
    (rounds n : ℕ)
    → n < rounds
    → AllDigits (show_digits rounds n) × (digits_value 0 (show_digits rounds n) ≡ n)
unfolding show_digits digits_value
show_digits-value zero n h = absurd omega arith
show_digits-value (suc rounds) n h = elim (dec_lt n 10) [
  | yes one ↦ rw (ltb_of_lt n 10 one) ((digit n one, tt), rw (digit n one) omega arith)
  | no more ↦
      let (digits, value) = show_digits-value rounds (n / 10) (omega arith) in
      rw (ltb_of_le n 10 (omega arith)) (
        snoc-AllDigits _ (n % 10) digits (omega arith),
        digits_value-snoc 0 _ (n % 10) digits (omega arith) ∙ rw value omega arith,
      )
]

-- A number starts with a digit, and is not empty.
pub show_digits-starts :
    (rounds n : ℕ)
    → n < rounds
    → (c : ℕ) × (s : List ℕ) × (show_digits rounds n ≡ c ∷ s) × (is_digit c ≡ true)
unfolding show_digits
show_digits-starts zero n h = absurd omega arith
show_digits-starts (suc rounds) n h = elim (dec_lt n 10) [
  | yes one ↦ (b'0' + n, [], rw (ltb_of_lt n 10 one) refl, digit n one)
  | no more ↦
      let (c, s, e, starts) = show_digits-starts rounds (n / 10) (omega arith) in
      (c, s ++ ((b'0' + n % 10) ∷ []), rw (ltb_of_le n 10 (omega arith), e) refl, starts)
]

strtol-digits :
    (c : ℕ) (s : List ℕ)
    → is_digit c ≡ true
    → digits_value 0 (c ∷ s) < 2 ^ 63
    → strtol (c ∷ s) ≡ pos (digits_value 0 (c ∷ s))
unfolding strtol skip_space
strtol-digits c s starts small = rw (not_space, not_minus, not_plus, ltb_of_lt _ _ small) refl
  where
    not_space : is_space c ≡ false
    not_space = ground arith

    not_minus : (c == b'-') ≡ false
    not_minus = ground arith

    not_plus : (c == b'+') ≡ false
    not_plus = ground arith

strtol-minus :
    (s : List ℕ) (n : ℕ) → digits_value 0 s ≡ n + 1 → n < 2 ^ 63 → strtol (b'-' ∷ s) ≡ negsuc n
unfolding strtol skip_space
strtol-minus s n value small =
    rw (value, ltb_of_le (2 ^ 63) (n + 1) (omega arith), leb_of_lt (n + 1) 0 (omega arith))
      (ap negsuc {y = n} (omega arith))
  where
    leb_of_lt : (a b : ℕ) → b < a → leb a b ≡ false
    leb_of_lt a b h = ground arith

-- `atoi` reads what a stream writes for an int.
pub atoi-show_int : (z : ℤ) → Fits (2 ^ 31) z → atoi (show_int z) ≡ z
unfolding atoi show_int
atoi-show_int (pos n) fits =
    let (c, s, e, starts) = show_digits-starts (n + 1) n (omega arith) in
    let value = (show_digits-value (n + 1) n (omega arith)).1 in
    let read = subst (λ t. digits_value 0 t ≡ n) e value in
    subst (λ t. i32 (strtol t) ≡ pos n) (sym e)
      (rw (strtol-digits c s starts (rw (read) omega arith), read) (i32-Fits (pos n) fits))
atoi-show_int (negsuc n) fits =
    rw
      (strtol-minus (show_digits (n + 2) (n + 1)) n
        (show_digits-value (n + 2) (n + 1) (omega arith)).1 (omega arith))
      (i32-Fits (negsuc n) fits)
