-- ===== src/Csa/Smooth/Formula.antt =====
-- What the Lagrange expression of `suavizamientoDeSaturacion` computes for a block of one sample.
use tareas_elo.Common.{ℕ, suc, ◌+◌, ◌/◌, ◌^◌, ◌≤◌, ◌<◌, ◌≡◌, refl, some, arith, ap, ◌∙◌}
use tareas_elo.Common.Int.{
  ℤ, pos, negsuc, ◌+ℤ◌, ◌-ℤ◌, ◌*ℤ◌, sub_ℕ, i16, i32, div?, Fits, i32-Fits, int_laws,
}
use tareas_elo.Csa.Smooth.{summand, lagrange, ◌+i◌, ◌-i◌, ◌*i◌}

-- Rounded towards zero.
abbrev pub quot : ℤ → ℕ → ℤ
quot (pos a) n = pos (a / n)
quot (negsuc a) n = sub_ℕ 0 (suc a / n)

-- Positions near i, as i + a - 3: their differences are exact.
offset : (i a b : ℕ) → i < 2 ^ 30 → a ≤ 5 → b ≤ 5 → sub_ℕ (i + a) 3 -i sub_ℕ (i + b) 3 ≡ sub_ℕ a b
unfolding ◌-i◌ ◌-ℤ◌ i32
offset i a b h ha hb = ground arith

prod0 : (v : ℤ) → Fits (2 ^ 15) v → v *i pos 2 *i pos 1 *i negsuc 0 *i negsuc 1 ≡ v *ℤ pos 4
unfolding ◌*i◌ ◌*ℤ◌ i32
prod0 (pos n) h = ground arith
prod0 (negsuc n) h = ground arith

-- The value of one summand, whose five points and k are offsets from i.
module _ (v : ℤ) (h : Fits (2 ^ 15) v) (i : ℕ) (near : i < 2 ^ 30) where
  abbrev at : ℕ → ℤ
  at a = sub_ℕ (i + a) 3

  differences :
      (k x a b c e : ℕ)
      → (k ≤ 5) × (x ≤ 5) × (a ≤ 5) × (b ≤ 5) × (c ≤ 5) × (e ≤ 5)
      → summand v (at k) (at x) (at a) (at b) (at c) (at e)
        ≡ div?
            (v *i sub_ℕ k a *i sub_ℕ k b *i sub_ℕ k c *i sub_ℕ k e)
            (sub_ℕ x a *i sub_ℕ x b *i sub_ℕ x c *i sub_ℕ x e)
  unfolding summand
  differences k x a b c e (hk, hx, ha, hb, hc, he) = rw (
    offset i k a near hk ha,
    offset i k b near hk hb,
    offset i k c near hk hc,
    offset i k e near hk he,
    offset i x a near hx ha,
    offset i x b near hx hb,
    offset i x c near hx hc,
    offset i x e near hx he,
  )

-- The numerators and denominators at offset 3 = i.
numerator_0 :
    (v : ℤ)
    → Fits (2 ^ 15) v
    → div? (v *i pos 2 *i pos 1 *i negsuc 0 *i negsuc 1) (pos 40) ≡ some (quot v 10)
unfolding ◌*i◌ ◌*ℤ◌ i32
numerator_0 (pos n) h = ground arith
numerator_0 (negsuc n) h = ground arith

numerator_1 :
    (v : ℤ)
    → Fits (2 ^ 15) v
    → div? (v *i pos 3 *i pos 1 *i negsuc 0 *i negsuc 1) (negsuc 11) ≡ some (pos 0 -ℤ quot v 2)
unfolding ◌*i◌ ◌*ℤ◌ i32 ◌-ℤ◌
numerator_1 (pos n) h = ground arith
numerator_1 (negsuc n) h = ground arith

numerator_2 :
    (v : ℤ) → Fits (2 ^ 15) v → div? (v *i pos 3 *i pos 2 *i negsuc 0 *i negsuc 1) (pos 12) ≡ some v
unfolding ◌*i◌ ◌*ℤ◌ i32
numerator_2 (pos n) h = ground arith
numerator_2 (negsuc n) h = ground arith

numerator_3 :
    (v : ℤ)
    → Fits (2 ^ 15) v
    → div? (v *i pos 3 *i pos 2 *i pos 1 *i negsuc 1) (negsuc 23) ≡ some (quot v 2)
unfolding ◌*i◌ ◌*ℤ◌ i32
numerator_3 (pos n) h = ground arith
numerator_3 (negsuc n) h = ground arith

numerator_4 :
    (v : ℤ)
    → Fits (2 ^ 15) v
    → div? (v *i pos 3 *i pos 2 *i pos 1 *i negsuc 0) (pos 60) ≡ some (pos 0 -ℤ quot v 10)
unfolding ◌*i◌ ◌*ℤ◌ i32 ◌-ℤ◌
numerator_4 (pos n) h = ground arith
numerator_4 (negsuc n) h = ground arith

-- The five points as offsets.
points : (i : ℕ) → i < 2 ^ 30 → record {
  x0 : pos i -i pos 3 ≡ sub_ℕ (i + 0) 3;
  x1 : pos i -i pos 2 ≡ sub_ℕ (i + 1) 3;
  x2 : pos i -i pos 1 ≡ sub_ℕ (i + 2) 3;
  k : pos i ≡ sub_ℕ (i + 3) 3;
  y0 : pos i +i pos 0 +i pos 1 ≡ sub_ℕ (i + 4) 3;
  y1 : pos i +i pos 0 +i pos 2 ≡ sub_ℕ (i + 5) 3;
}
unfolding ◌-i◌ ◌+i◌ ◌-ℤ◌ ◌+ℤ◌ i32
points i h = record {
  x0 = ground arith;
  x1 = ground arith;
  x2 = ground arith;
  k = ground arith;
  y0 = ground arith;
  y1 = ground arith;
}

-- The weights 1/10, -1/2, 1, 1/2, -1/10 of the polynomial at the middle point, each product rounded.
abbrev pub middle : ℤ → ℤ → ℤ → ℤ → ℤ → ℤ
middle v0 v1 v2 w0 w1 =
    quot v0 10 +ℤ (pos 0 -ℤ quot v1 2) +ℤ v2 +ℤ quot w0 2 +ℤ (pos 0 -ℤ quot w1 10)

module _ (v : ℤ) (h : Fits (2 ^ 15) v) (i : ℕ) (near : i < 2 ^ 30) where
  abbrev point : ℕ → ℤ
  point a = sub_ℕ (i + a) 3

  summand_0 :
      summand v (point 3) (point 0) (point 1) (point 2) (point 4) (point 5) ≡ some (quot v 10)
  summand_0 = differences v h i near 3 0 1 2 4 5 (omega arith) ∙ rw denominator (numerator_0 v h)
    where
      denominator : negsuc 0 *i negsuc 1 *i negsuc 3 *i negsuc 4 ≡ pos 40
      denominator = unfold ◌*i◌ ◌*ℤ◌ i32 in refl

  summand_1 :
      summand v (point 3) (point 1) (point 0) (point 2) (point 4) (point 5)
      ≡ some (pos 0 -ℤ quot v 2)
  summand_1 = differences v h i near 3 1 0 2 4 5 (omega arith) ∙ rw denominator (numerator_1 v h)
    where
      denominator : pos 1 *i negsuc 0 *i negsuc 2 *i negsuc 3 ≡ negsuc 11
      denominator = unfold ◌*i◌ ◌*ℤ◌ i32 in refl

  summand_2 : summand v (point 3) (point 2) (point 0) (point 1) (point 4) (point 5) ≡ some (v)
  summand_2 = differences v h i near 3 2 0 1 4 5 (omega arith) ∙ rw denominator (numerator_2 v h)
    where
      denominator : pos 2 *i pos 1 *i negsuc 1 *i negsuc 2 ≡ pos 12
      denominator = unfold ◌*i◌ ◌*ℤ◌ i32 in refl

  summand_3 :
      summand v (point 3) (point 4) (point 0) (point 1) (point 2) (point 5) ≡ some (quot v 2)
  summand_3 = differences v h i near 3 4 0 1 2 5 (omega arith) ∙ rw denominator (numerator_3 v h)
    where
      denominator : pos 4 *i pos 3 *i pos 2 *i negsuc 0 ≡ negsuc 23
      denominator = unfold ◌*i◌ ◌*ℤ◌ i32 in refl

  summand_4 :
      summand v (point 3) (point 5) (point 0) (point 1) (point 2) (point 4)
      ≡ some (pos 0 -ℤ quot v 10)
  summand_4 = differences v h i near 3 5 0 1 2 4 (omega arith) ∙ rw denominator (numerator_4 v h)
    where
      denominator : pos 5 *i pos 4 *i pos 3 *i pos 1 ≡ pos 60
      denominator = unfold ◌*i◌ ◌*ℤ◌ i32 in refl

-- Sums of five such terms stay far inside an int.
sum_exact :
    (a b c e f : ℤ)
    → Fits (2 ^ 17) a × Fits (2 ^ 17) b × Fits (2 ^ 17) c × Fits (2 ^ 17) e × Fits (2 ^ 17) f
    → a +i b +i c +i e +i f ≡ a +ℤ b +ℤ c +ℤ e +ℤ f
unfolding ◌+i◌
sum_exact a b c e f h = rw (
  i32-Fits (a +ℤ b) (omega int_laws),
  i32-Fits (a +ℤ b +ℤ c) (omega int_laws),
  i32-Fits (a +ℤ b +ℤ c +ℤ e) (omega int_laws),
  i32-Fits (a +ℤ b +ℤ c +ℤ e +ℤ f) (omega int_laws),
)

quot-Fits : (v : ℤ) (n : ℕ) → Fits (2 ^ 15) v → 0 < n → Fits (2 ^ 16) (quot v n)
quot-Fits (pos a) n h p = grind arith
quot-Fits (negsuc a) n h p = grind arith

-- For int16_t samples and a block of the one sample at i, below 2 ^ 30, the assignment divides by
-- no zero and stores the middle value of the polynomial over the integers, wrapped to int16_t.
pub lagrange-middle :
    (v0 v1 v2 w0 w1 : ℤ) (i : ℕ)
    → Fits (2 ^ 15) v0 × Fits (2 ^ 15) v1 × Fits (2 ^ 15) v2 × Fits (2 ^ 15) w0 × Fits (2 ^ 15) w1
    → i < 2 ^ 30
    → lagrange v0 v1 v2 w0 w1 (pos i) (pos 0) (pos i) ≡ some (i16 (middle v0 v1 v2 w0 w1))
unfolding lagrange
lagrange-middle v0 v1 v2 w0 w1 i (h0, h1, h2, k0, k1) near =
    let record { x0 = x0; x1 = x1; x2 = x2; k = k; y0 = y0; y1 = y1 } = points i near in
    rw
      (
        x0,
        x1,
        x2,
        y0,
        y1,
        k,
        summand_0 v0 h0 i near,
        summand_1 v1 h1 i near,
        summand_2 v2 h2 i near,
        summand_3 w0 k0 i near,
        summand_4 w1 k1 i near,
      )
      (ap (λ z. some (i16 z))
        (sum_exact _ _ _ _ _ (
          omega (arith, quot-Fits v0 10 h0 (omega arith)),
          omega (int_laws, quot-Fits v1 2 h1 (omega arith)),
          omega arith,
          omega (arith, quot-Fits w0 2 k0 (omega arith)),
          omega (int_laws, quot-Fits w1 10 k1 (omega arith)),
        )))
