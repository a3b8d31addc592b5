-- ===== src/Common/Int.antt =====
-- Signed integers over the native numbers, and the wrap-around of C's int16_t, int and long.
use Prim.Native.Nat.{ℕ, suc, ◌+◌, ◌-◌, ◌*◌, ◌/◌, ◌%◌, ◌^◌, ◌≤◌, ◌<◌}
use mathlib.Core.Path.{◌≡◌, refl}
use mathlib.Core.Logic.{◌⊎◌, inl, inr}
use mathlib.Core.Bool.{Bool, true}
use mathlib.Core.List.{List}
use mathlib.Core.Option.{Option, none, some}
use native.Mathlib.Omega.{arith}
use tareas_elo.Common.Tests.{ltb, leb, ◌==◌, if◌then◌else◌}
use tareas_elo.Common.Lists.{get_elem?}

-- `negsuc n` is -(n + 1).
pub data ℤ : Type 0 where
  pos : ℕ → ℤ
  negsuc : ℕ → ℤ

abbrev pub pos_part : ℤ → ℕ
pos_part (pos n) = n
pos_part (negsuc n) = 0

abbrev pub neg_part : ℤ → ℕ
neg_part (pos n) = 0
neg_part (negsuc n) = suc n

-- a - b, as an integer.
abbrev pub sub_ℕ : ℕ → ℕ → ℤ
sub_ℕ a b = if leb b a then pos (a - b) else negsuc (b - a - 1)

infixl 65 ◌+ℤ◌ ◌-ℤ◌
infixl 70 ◌*ℤ◌
infix 50 ◌≤ℤ◌
unfoldable pub ◌+ℤ◌ : ℤ → ℤ → ℤ
a +ℤ b = sub_ℕ (pos_part a + pos_part b) (neg_part a + neg_part b)

unfoldable pub ◌-ℤ◌ : ℤ → ℤ → ℤ
a -ℤ b = sub_ℕ (pos_part a + neg_part b) (neg_part a + pos_part b)

unfoldable pub ◌*ℤ◌ : ℤ → ℤ → ℤ
a *ℤ b =
    sub_ℕ (pos_part a * pos_part b + neg_part a * neg_part b)
      (pos_part a * neg_part b + neg_part a * pos_part b)

abbrev pub ◌≤ℤ◌ : ℤ → ℤ → Type 0
a ≤ℤ b = pos_part a + neg_part b ≤ pos_part b + neg_part a

abbrev pub ltb_ℤ : ℤ → ℤ → Bool
ltb_ℤ a b = ltb (pos_part a + neg_part b) (pos_part b + neg_part a)

abbrev pub eqb_ℤ : ℤ → ℤ → Bool
eqb_ℤ a b = (pos_part a + neg_part b) == (pos_part b + neg_part a)

-- |a|, as a number.
abbrev pub magnitude : ℤ → ℕ
magnitude a = pos_part a + neg_part a

-- C's `a / b`, rounded towards zero; a fault at 0.
abbrev pub div? : ℤ → ℤ → Option ℤ
div? (pos a) (pos b) = if b == 0 then none else some (pos (a / b))
div? (pos a) (negsuc b) = some (sub_ℕ 0 (a / suc b))
div? (negsuc a) (pos b) = if b == 0 then none else some (sub_ℕ 0 (suc a / b))
div? (negsuc a) (negsuc b) = some (pos (suc a / suc b))

-- `xs[i]` at a signed index: a fault outside the array.
abbrev pub read? {ℓ} : {A : Type ℓ} → List A → ℤ → Option A
read? xs (pos n) = get_elem? xs n
read? xs (negsuc n) = none

-- A value kept in two's complement, in a word with `half` = 2 ^ (w - 1).
abbrev pub wrap : ℕ → ℤ → ℤ
wrap half (pos n) =
    if ltb (n % (2 * half)) half
    then pos (n % (2 * half))
    else negsuc (2 * half - 1 - n % (2 * half))
wrap half (negsuc n) =
    if ltb (n % (2 * half)) half
    then negsuc (n % (2 * half))
    else pos (2 * half - 1 - n % (2 * half))

-- The conversions to int16_t, int and long.
unfoldable pub i16 : ℤ → ℤ
i16 = wrap (2 ^ 15)

unfoldable pub i32 : ℤ → ℤ
i32 = wrap (2 ^ 31)

unfoldable pub i64 : ℤ → ℤ
i64 = wrap (2 ^ 63)

abbrev pub Fits : ℕ → ℤ → Type 0
Fits half a = (pos_part a < half) × (neg_part a ≤ half)

-- A value in range is kept; every value lands in range.
pub i16-Fits : (a : ℤ) → Fits (2 ^ 15) a → i16 a ≡ a
unfolding i16
i16-Fits (pos n) h = ground arith
i16-Fits (negsuc n) h = ground arith

pub i32-Fits : (a : ℤ) → Fits (2 ^ 31) a → i32 a ≡ a
unfolding i32
i32-Fits (pos n) h = ground arith
i32-Fits (negsuc n) h = ground arith

pub i64-Fits : (a : ℤ) → Fits (2 ^ 63) a → i64 a ≡ a
unfolding i64
i64-Fits (pos n) h = ground arith
i64-Fits (negsuc n) h = ground arith

pub Fits-i16 : (a : ℤ) → Fits (2 ^ 15) (i16 a)
unfolding i16
Fits-i16 (pos n) = ground arith
Fits-i16 (negsuc n) = ground arith

-- One lemma for each operation lets `omega` work with the operations shut, at any depth.
pub +ℤ_parts :
    (a b : ℤ)
    → pos_part (a +ℤ b) + neg_part a + neg_part b ≡ neg_part (a +ℤ b) + pos_part a + pos_part b
unfolding ◌+ℤ◌
+ℤ_parts a b = ground arith

pub -ℤ_parts :
    (a b : ℤ)
    → pos_part (a -ℤ b) + neg_part a + pos_part b ≡ neg_part (a -ℤ b) + pos_part a + neg_part b
unfolding ◌-ℤ◌
-ℤ_parts a b = ground arith

pub eq_of_parts : (a b : ℤ) → pos_part a + neg_part b ≡ pos_part b + neg_part a → a ≡ b
eq_of_parts a b h = ground arith

pub one_part : (a : ℤ) → (pos_part a ≡ 0) ⊎ (neg_part a ≡ 0)
one_part (pos n) = inr refl
one_part (negsuc n) = inl refl

pub eqb_ℤ-refl : (a : ℤ) → eqb_ℤ a a ≡ true
eqb_ℤ-refl a = ground arith

pub eqb_ℤ→≡ : (a b : ℤ) → eqb_ℤ a b ≡ true → a ≡ b
eqb_ℤ→≡ a b h = eq_of_parts a b (ground arith)

pub ruleset int_laws = (arith, +ℤ_parts, -ℤ_parts, eq_of_parts, one_part)
