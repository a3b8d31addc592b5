-- ===== src/Erp/Delay/Bounds.antt =====
-- How long the emulator sleeps before it sends a packet (tarea3/src/erp_udp.c).
use tareas_elo.Common.{
  ℕ, ◌*◌, ◌%◌, ◌^◌, ◌≤◌, ◌<◌, ◌≡◌, arith, none, some, ◌⊎◌, inl, inr, ◌↔◌, ap, ◌∙◌, Bool-cases, sym,
}
use tareas_elo.Common.Int.{
  ℤ, pos, ◌+ℤ◌, ◌-ℤ◌, ◌≤ℤ◌, i64-Fits, magnitude, pos_part, neg_part, int_laws, ltb_ℤ,
}
use tareas_elo.Erp.Config.{Config}
use tareas_elo.Erp.Delay.{max, rand_mod, retardo, ◌+l◌, ◌-l◌}

-- Microseconds that leave room in a long, an average delay that is an int, and a variation v ≥ 0.
pub record InRange (c : Config) (v : ℕ) (t_ll t_re : ℤ) : Type 0 where
  pub variation : c.variacion_retardo ≡ pos v
  pub small : v < 2 ^ 31
  pub average : magnitude c.retardo_promedio ≤ 2 ^ 31
  pub arrival : magnitude t_ll ≤ 2 ^ 60
  pub sending : magnitude t_re ≤ 2 ^ 60

-- t2 - t1 over the integers.
abbrev pub width : Config → ℤ → ℤ → ℤ
width c t_ll t_re =
    t_ll
    +ℤ c.retardo_promedio
    +ℤ c.variacion_retardo
    -ℤ max (t_ll +ℤ c.retardo_promedio -ℤ c.variacion_retardo) t_re

max-cases : (a b : ℤ) → ((max a b ≡ a) × (b ≤ℤ a)) ⊎ ((max a b ≡ b) × (a ≤ℤ b))
unfolding max
max-cases a b = elim (Bool-cases (ltb_ℤ b a)) [
  | inl more ↦ inl (rw more, ground arith)
  | inr less ↦ inr (rw less, ground arith)
]

≤ℤ-cases : (a b : ℤ) → (a ≤ℤ b) ⊎ (b ≤ℤ a)
≤ℤ-cases a b = elim (Bool-cases (ltb_ℤ b a)) [
  | inl more ↦ inr (ground arith)
  | inr less ↦ inl (ground arith)
]

module _ (c : Config) (v : ℕ) (t_ll t_re : ℤ) (ok : InRange c v t_ll t_re) where
  abbrev earliest : ℤ
  earliest = t_ll +ℤ c.retardo_promedio -ℤ c.variacion_retardo

  abbrev latest : ℤ
  latest = t_ll +ℤ c.retardo_promedio +ℤ c.variacion_retardo

  var : (pos_part c.variacion_retardo ≡ v) × (neg_part c.variacion_retardo ≡ 0)
  var = (ap pos_part ok.variation, ap neg_part ok.variation)

  sizes :
      (v < 2 ^ 31)
      × (magnitude c.retardo_promedio ≤ 2 ^ 31)
      × (magnitude t_ll ≤ 2 ^ 60)
      × (magnitude t_re ≤ 2 ^ 60)
  sizes = (ok.small, ok.average, ok.arrival, ok.sending)

  earliest-fits : magnitude earliest < 2 ^ 61
  earliest-fits = omega (int_laws, var, sizes)

  latest-fits : magnitude latest < 2 ^ 61
  latest-fits = omega (int_laws, var, sizes)

  max-fits : magnitude (max earliest t_re) < 2 ^ 61
  max-fits = elim (max-cases earliest t_re) [
    | inl (e, le) ↦ rw e earliest-fits
    | inr (e, le) ↦ rw e (omega (arith, sizes))
  ]

  -- No sum or difference of the code overflows.
  retardo-exact : (r : ℕ) → retardo c t_ll t_re r ≡ rand_mod r (width c t_ll t_re)
  unfolding retardo ◌+l◌ ◌-l◌
  retardo-exact r = rw (
    i64-Fits (t_ll +ℤ c.retardo_promedio) (omega (int_laws, sizes)),
    i64-Fits earliest (omega (arith, earliest-fits)),
    i64-Fits latest (omega (arith, latest-fits)),
    i64-Fits (width c t_ll t_re) (omega (int_laws, max-fits, latest-fits)),
  )

  -- The width of the interval that the delay is drawn from is 2 v while the emulator keeps up, and
  -- the time that is left otherwise.
  width-cases :
      ((width c t_ll t_re ≡ pos (2 * v)) × (t_re ≤ℤ earliest))
      ⊎ ((width c t_ll t_re ≡ latest -ℤ t_re) × (earliest ≤ℤ t_re))
  width-cases = elim (max-cases earliest t_re) [
    | inl (e, le) ↦ inl (rw e (omega (int_laws, var)), le)
    | inr (e, le) ↦ inr (rw e, le)
  ]

  -- For times and settings in range and a variation v above 0: while the last packet went out
  -- early enough, the delay drawn is the remainder of the draw by 2 v, whatever the average delay
  -- is.
  pub retardo-idle :
      (r : ℕ)
      → 0 < v
      → t_re ≤ℤ t_ll +ℤ c.retardo_promedio -ℤ c.variacion_retardo
      → retardo c t_ll t_re r ≡ some (pos (r % (2 * v)))
  unfolding rand_mod
  retardo-idle r some_v early = elim (max-cases earliest t_re) [
    | inl (e, le) ↦ retardo-exact r ∙ rw (e, two_v) (ground arith)
    | inr (e, le) ↦ retardo-exact r ∙ rw (e, two_v' le) (ground arith)
  ]
    where
      two_v : latest -ℤ earliest ≡ pos (2 * v)
      two_v = omega (int_laws, var)

      two_v' : earliest ≤ℤ t_re → latest -ℤ t_re ≡ pos (2 * v)
      two_v' le = omega (int_laws, var)

  rand_mod-bounds :
      (r : ℕ) (m u : ℤ) → rand_mod r m ≡ some u → (neg_part u ≡ 0) × (pos_part u < magnitude m)
  unfolding rand_mod
  rand_mod-bounds r m u e = ground arith

  rand_mod-none : (r : ℕ) (m : ℤ) → (rand_mod r m ≡ none) ↔ (magnitude m ≡ 0)
  unfolding rand_mod
  rand_mod-none r m = (λ e. ground arith, λ e. ground arith)

  -- For times and settings in range, a delay that is drawn is not negative, and either the last
  -- packet went out by the latest time for this one and the delay is below 2 v, or it went out at
  -- or behind that time and the delay is below the time by which it was late.
  pub retardo-bounds :
      (r : ℕ) (u : ℤ)
      → retardo c t_ll t_re r ≡ some u
      → (neg_part u ≡ 0)
        × (((t_re ≤ℤ t_ll +ℤ c.retardo_promedio +ℤ c.variacion_retardo) × (pos_part u < 2 * v))
            ⊎ ((t_ll +ℤ c.retardo_promedio +ℤ c.variacion_retardo ≤ℤ t_re)
                × (u +ℤ pos 1 ≤ℤ t_re -ℤ (t_ll +ℤ c.retardo_promedio +ℤ c.variacion_retardo))))
  retardo-bounds r u e =
      let (nonneg, below) = rand_mod-bounds r (width c t_ll t_re) u (sym (retardo-exact r) ∙ e) in
      (
        nonneg,
        elim (≤ℤ-cases t_re latest) [
          | inl kept_up ↦ inl (
            kept_up,
            elim width-cases [
              | inl (w, le) ↦ omega (int_laws, below, var, ap pos_part w, ap neg_part w)
              | inr (w, le) ↦ omega (int_laws, below, var, ap pos_part w, ap neg_part w)
            ],
          )
          | inr late ↦ inr (
            late,
            elim width-cases [
              | inl (w, le) ↦ omega (int_laws, below, var, ap pos_part w, ap neg_part w)
              | inr (w, le) ↦ omega (int_laws, below, var, nonneg, ap pos_part w, ap neg_part w)
            ],
          )
        ],
      )

  -- For times and settings in range, the draw divides by zero exactly when the last packet went
  -- out at the latest time for this one, or the variation is 0 and it went out by then.
  pub retardo-fault :
      (r : ℕ)
      → (retardo c t_ll t_re r ≡ none) ↔ (
          (t_re ≡ t_ll +ℤ c.retardo_promedio +ℤ c.variacion_retardo)
          ⊎ ((v ≡ 0) × (t_re ≤ℤ t_ll +ℤ c.retardo_promedio +ℤ c.variacion_retardo)))
  retardo-fault r = (
    λ e.
        let zero_width = (rand_mod-none r (width c t_ll t_re)).0 (sym (retardo-exact r) ∙ e) in
        elim width-cases [
          | inl (w, le) ↦ inr (
            omega (arith, zero_width, ap pos_part w, ap neg_part w),
            omega (int_laws, zero_width, var, ap pos_part w, ap neg_part w),
          )
          | inr (w, le) ↦ inl (omega (int_laws, zero_width, ap pos_part w, ap neg_part w))
        ],
    λ h. retardo-exact r ∙ (rand_mod-none r (width c t_ll t_re)).1 (zero_width h),
  )
    where
      zero_width :
          ((t_re ≡ latest) ⊎ ((v ≡ 0) × (t_re ≤ℤ latest))) → magnitude (width c t_ll t_re) ≡ 0
      zero_width (inl e) = elim width-cases [
        | inl (w, le) ↦
            omega (int_laws, var, ap pos_part e, ap neg_part e, ap pos_part w, ap neg_part w)
        | inr (w, le) ↦
            omega (int_laws, var, ap pos_part e, ap neg_part e, ap pos_part w, ap neg_part w)
      ]
      zero_width (inr (e, le)) = elim width-cases [
        | inl (w, ge) ↦ omega (int_laws, var, ap pos_part w, ap neg_part w)
        | inr (w, ge) ↦ omega (int_laws, var, ap pos_part w, ap neg_part w)
      ]
