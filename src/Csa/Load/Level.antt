-- ===== src/Csa/Load/Level.antt =====
-- The levels at which `obtencionDatos` clips are the ones that `suavizamientoDeSaturacion` looks
-- for (tarea2/src/csa.c).
use native.Mathlib.Nat.{add-zero, zero-add, div_self}
use tareas_elo.Common.{
  ℕ, zero, suc, ◌+◌, ◌^◌, ◌≡◌, some, ◌>>=◌, arith, true, inl, inr, if◌then◌else◌, Bool-cases,
  >>=-eq-some,
}
use tareas_elo.Common.Int.{ℤ, pos, negsuc, magnitude, Fits, i32-Fits, div?, ltb_ℤ}
use tareas_elo.Common.Doubles.{Doubles, SignLaws, convert}
use tareas_elo.Csa.Load.{abs, saturado}
use tareas_elo.Csa.Smooth.{Limits, limits}

-- The level on the sample's side.
abbrev pub level_of : Limits → ℤ → ℤ
level_of l (pos n) = l.superior
level_of l (negsuc n) = l.inferior

unit_pos : (n : ℕ) → div? (pos (suc n)) (pos (suc n + 0)) ≡ some (pos 1)
unit_pos n = rw add-zero (ground (arith, div_self {n = suc n} (omega arith)))

unit_neg : (n : ℕ) → div? (negsuc n) (pos (0 + suc n)) ≡ some (negsuc 0)
unit_neg n = rw zero-add (ground (arith, div_self {n = suc n} (omega arith)))

module _ (d : Doubles) (laws : SignLaws d) (g : d.Double) where
  limits-parts :
      (l : Limits)
      → d.lt (d.of_int (pos 1)) g ≡ true
      → limits d g ≡ some l
      → (convert d (2 ^ 15) (d.div (d.of_int (pos 0x7fff)) g) ≡ some l.superior)
        × (convert d (2 ^ 15) (d.div (d.of_int (negsuc 0x7ffe)) g) ≡ some l.inferior)
  unfolding limits
  limits-parts l loud e = (ground arith, ground arith)

  abs-int16 : (v : ℤ) → Fits (2 ^ 15) v → abs v ≡ pos (magnitude v)
  abs-int16 v h = i32-Fits (pos (magnitude v)) (omega arith)

  -- What the clipping stores is the level on the sample's side.
  clipped :
      (l : Limits) (v s : ℤ)
      → Fits (2 ^ 15) v
      → d.lt (d.of_int (pos 1)) g ≡ true
      → limits d g ≡ some l
      → (div? v (pos (magnitude v)) >>= λ sign.
          convert d (2 ^ 15) (d.mul (d.of_int sign) (d.div (d.of_int (pos 0x7fff)) g)))
        ≡ some s
      → s ≡ level_of l v
  clipped l (pos zero) s h loud e r = cc r
  clipped l (pos (suc n)) s h loud e r =
      cc (rw (unit_pos n, laws.one_mul) at r, (limits-parts l loud e).0)
  clipped l (negsuc n) s h loud e r =
      cc (rw (unit_neg n, laws.neg_one_mul) at r, (limits-parts l loud e).1)

  -- With a gain above 1, levels that an int16_t holds, and multiplication by ±1 as in IEEE 754, an
  -- int16_t sample is kept where its product with the gain, as an int, is below 0x7fff in absolute
  -- value, and else becomes the level on its side, as the smoothing computes that level.
  pub saturado-level :
      (l : Limits) (v s : ℤ)
      → Fits (2 ^ 15) v
      → d.lt (d.of_int (pos 1)) g ≡ true
      → limits d g ≡ some l
      → saturado d g v ≡ some s
      → (amplified : ℤ) × (convert d (2 ^ 31) (d.mul g (d.of_int v)) ≡ some amplified)
        × (s ≡ (if ltb_ℤ (abs amplified) (pos 0x7fff) then v else level_of l v))
  unfolding saturado
  saturado-level l v s h loud e r =
      let (amplified, at, r') = >>=-eq-some (convert d (2 ^ 31) (d.mul g (d.of_int v))) _ r in
      elim (Bool-cases (ltb_ℤ (abs amplified) (pos 0x7fff))) [
        | inl fits ↦ (amplified, at, rw fits (cc (rw fits at r')))
        | inr loud_sample ↦ (
          amplified,
          at,
          rw loud_sample (clipped l v s h loud e (rw (loud_sample, abs-int16 v h) at r')),
        )
      ]
