-- ===== src/Common/Doubles.antt =====
-- C's `double` and the library calls on it. The arithmetic of IEEE 754 is not this program's code:
-- it enters as a parameter, and what a theorem needs of it is a named law.
use tareas_elo.Common.Tests.{if◌then◌else◌}
use mathlib.Core.Bool.{Bool}
use tareas_elo.Common.Int.{◌-ℤ◌}
use native.Mathlib.Nat.{one-mul}
use native.Mathlib.Omega.{arith}
use Prim.Native.Nat.{ℕ, zero, suc, ◌+◌, ◌-◌, ◌*◌, ◌/◌, ◌<◌, ◌^◌}
use mathlib.Core.Path.{◌≡◌}
use mathlib.Core.Bool.{true, ◌&&◌}
use mathlib.Core.List.{List, [], ◌∷◌}
use mathlib.Core.Option.{Option, none, some}
use tareas_elo.Common.Tests.{ltb, leb, if◌then◌else◌, ◌>>=◌}
use tareas_elo.Common.Int.{ℤ, pos, negsuc, pos_part, neg_part, magnitude, sub_ℕ, ltb_ℤ, ◌*ℤ◌, ◌+ℤ◌}

pub record Doubles : Type 1 where
  pub Double : Type 0
  -- the conversion of an int
  pub of_int : ℤ → Double
  pub add : Double → Double → Double
  pub sub : Double → Double → Double
  pub mul : Double → Double → Double
  pub div : Double → Double → Double
  -- `x < y`, false where one is not a number
  pub lt : Double → Double → Bool
  -- `x <= y`, likewise
  pub le : Double → Double → Bool
  -- the value rounded towards zero; none for infinities and what is not a number
  pub truncate : Double → Option ℤ
  -- `atof`
  pub atof : List ℕ → Double

-- The range of a signed integer type with `half` = 2 ^ (w - 1).
abbrev pub in_range : ℕ → ℤ → Bool
in_range half z = ltb (pos_part z) half && leb (neg_part z) half

-- The conversion of a double to a signed integer type: a fault where the value does not fit, which
-- the C standard leaves undefined.
abbrev pub convert : (d : Doubles) → ℕ → d.Double → Option ℤ
convert d half x = d.truncate x >>= λ z. if in_range half z then some z else none

-- What IEEE 754 says of signs: a quotient by ±1 times a number is the number or its opposite.
pub record SignLaws (d : Doubles) : Type 0 where
  pub one_mul : (x : d.Double) → d.mul (d.of_int (pos 1)) x ≡ x
  pub neg_one_mul :
      (n : ℕ) (y : d.Double)
      → d.mul (d.of_int (negsuc 0)) (d.div (d.of_int (pos (suc n))) y)
        ≡ d.div (d.of_int (negsuc n)) y

-- What IEEE 754 says of the order: ints convert exactly, so that a quotient by a greater positive int is
-- below 1, and the difference of a smaller and a greater number is below 0.
pub record OrderLaws (d : Doubles) : Type 0 where
  pub below_one :
      (z : ℤ) (n : ℕ)
      → pos_part z < n
      → n < 2 ^ 31
      → d.lt (d.div (d.of_int z) (d.of_int (pos n))) (d.of_int (pos 1)) ≡ true
  pub below_zero : (x y : d.Double) → d.lt x y ≡ true → d.lt (d.sub x y) (d.of_int (pos 0)) ≡ true

-- Fractions over the integers, as an instance to run the code with.
pub record Fraction : Type 0 where
  pub num : ℤ
  pub den : ℕ

abbrev pub flip_sign : ℤ → ℤ → ℤ
flip_sign (pos n) z = z
flip_sign (negsuc n) z = sub_ℕ (neg_part z) (pos_part z)

abbrev round_towards_zero : ℤ → ℕ → Option ℤ
round_towards_zero z zero = none
round_towards_zero (pos n) (suc d) = some (pos (n / suc d))
round_towards_zero (negsuc n) (suc d) = some (sub_ℕ 0 (suc n / suc d))

-- The digits up to the first other byte.
abbrev leading_digits : List ℕ → ℕ → ℕ
leading_digits [] acc = acc
leading_digits (c ∷ cs) acc =
    let rest = leading_digits cs (acc * 10 + (c - 48)) in if leb 48 c && ltb c 58 then rest else acc

unfoldable pub fractions : Doubles
unfolding ◌*ℤ◌ ◌+ℤ◌ ◌-ℤ◌
fractions = record {
  Double = Fraction;
  of_int = λ z. record { num = z; den = 1 };
  add = λ x y. record { num = x.num *ℤ pos y.den +ℤ y.num *ℤ pos x.den; den = x.den * y.den };
  sub = λ x y. record { num = x.num *ℤ pos y.den -ℤ y.num *ℤ pos x.den; den = x.den * y.den };
  mul = λ x y. record { num = x.num *ℤ y.num; den = x.den * y.den };
  div = λ x y. record { num = flip_sign y.num (x.num *ℤ pos y.den); den = x.den * magnitude y.num };
  lt = λ x y. ltb_ℤ (x.num *ℤ pos y.den) (y.num *ℤ pos x.den);
  le = λ x y. if ltb_ℤ (y.num *ℤ pos x.den) (x.num *ℤ pos y.den) then Bool.false else Bool.true;
  truncate = λ x. round_towards_zero x.num x.den;
  atof = λ s. record { num = pos (leading_digits s 0); den = 1 };
}

one_times : (z : ℤ) → pos 1 *ℤ z ≡ z
unfolding ◌*ℤ◌
one_times (pos n) = ground arith
one_times (negsuc n) = ground arith

minus_times :
    (n k : ℕ) (y : ℤ)
    → negsuc 0 *ℤ flip_sign y (pos (suc n) *ℤ pos k) ≡ flip_sign y (negsuc n *ℤ pos k)
unfolding ◌*ℤ◌
minus_times n k (pos m) = ground arith
minus_times n k (negsuc m) = ground arith

pub fractions-SignLaws : SignLaws fractions
unfolding fractions
fractions-SignLaws = record {
  one_mul = λ x i. record { num = one_times x.num i; den = one-mul x.den i };
  neg_one_mul =
      λ n y i. record { num = minus_times n y.den y.num i; den = one-mul (1 * magnitude y.num) i };
}

quotient_below :
    (z : ℤ) (n : ℕ)
    → pos_part z < n
    → ltb_ℤ (z *ℤ pos 1 *ℤ pos 1) (pos 1 *ℤ pos (1 * (n + 0))) ≡ true
unfolding ◌*ℤ◌
quotient_below (pos m) n h = ground arith
quotient_below (negsuc m) n h = ground arith

difference_below :
    (a b : ℤ) (n : ℕ) → ltb_ℤ a b ≡ true → ltb_ℤ ((a -ℤ b) *ℤ pos 1) (pos 0 *ℤ pos n) ≡ true
unfolding ◌*ℤ◌ ◌-ℤ◌
difference_below (pos a) (pos b) n h = ground arith
difference_below (pos a) (negsuc b) n h = ground arith
difference_below (negsuc a) (pos b) n h = ground arith
difference_below (negsuc a) (negsuc b) n h = ground arith

pub fractions-OrderLaws : OrderLaws fractions
unfolding fractions
fractions-OrderLaws = record {
  below_one = λ z n below fits. quotient_below z n below;
  below_zero =
      λ x y less. difference_below (x.num *ℤ pos y.den) (y.num *ℤ pos x.den) (x.den * y.den) less;
}
