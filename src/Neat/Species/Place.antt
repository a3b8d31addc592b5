-- ===== src/Neat/Species/Place.antt =====
-- That the loops of `spatiation` (proyecto/NEAT/src/NEAT.cpp) end, with each organism in one niche.
use tareas_elo.Common.{
  ℕ, suc, ◌+◌, ◌%◌, ◌<◌, ◌≤◌, ◌≡◌, refl, sym, subst, List, [], ◌∷◌, false, ◌==◌, leb, length,
  get_elem?-inside, arith, Bool-cases, inl, inr,
}
use tareas_elo.Common.Doubles.{Doubles}
use tareas_elo.Neat.Population.{Population, Organism, Niche, rand, for_each}
use tareas_elo.Neat.Population.Rules.{All, Any}
use tareas_elo.Neat.Population.Drawing.{
  Drawn, Draws, Draws-pure, Draws-lift, Draws-bind, Draws-rand,
}
use tareas_elo.Neat.Species.{Sharing, representant, settle, place, place_all}
use tareas_elo.Neat.Species.Seek.{Within, zero_sack-Holds, Readable, seek-returns, All-at}
use tareas_elo.Neat.Species.Shared.{Shared, settle-Shared}

-- The niches to inherit have positions in the generation before.
abbrev pub InPrev : ℕ → Niche → Type 0
InPrev prev niche = All (λ m. m < prev) niche.organism_position

abbrev pub Inheritable : ℕ → Niche → Type 0
Inheritable prev niche = InPrev prev niche × (0 < length niche.organism_position)

module _ (d : Doubles) (exp fabs : d.Double → d.Double) where
  -- A population with `prev` organisms before and `total` now.
  abbrev pub Sizes : ℕ → ℕ → Population d.Double → Type 0
  Sizes prev total p = (length p.prev_organisms ≡ prev) × (length p.organisms ≡ total)

  pub Drawn-Sizes :
      (prev total : ℕ) (p q : Population d.Double)
      → Drawn p q
      → Sizes prev total p
      → Sizes prev total q
  Drawn-Sizes prev total p q (draws, e) sizes = subst (Sizes prev total) (sym e) sizes

  place-returns :
      (real prev total i : ℕ) (o : Organism d.Double) (s : Sharing) (p : Population d.Double)
      → Sizes prev total p
      → Shared real prev i s
      → i ≤ total
      → Draws (place d exp fabs real i o s) p (Shared real prev (suc i))
  unfolding place
  place-returns real prev total i o s p sizes ok within =
      Draws-bind _ _ p (Within (length s.niches)) _
        (seek-returns d exp fabs real s.representants o (length s.niches) (length s.niches) _ p
          (zero_sack-Holds d exp fabs (length s.niches)).0 ok.sizes readable)
        (λ found q drawn inside.
          let (s', run, ok') = settle-Shared real prev i s ok found inside in
          Draws-lift (settle real i found s) s' q _ run ok')
    where
      readable : Readable d exp fabs real s.representants p
      readable k r at = elim (Bool-cases (leb real k)) [
        | inl founded ↦ rw founded (omega (arith, sizes.1, (rw founded at (ok.readable k r at))))
        | inr inherited ↦
            rw inherited (omega (arith, sizes.0, (rw inherited at (ok.readable k r at))))
      ]

  pub place_all-returns :
      (real prev total i : ℕ) (os : List (Organism d.Double)) (s : Sharing)
      (p : Population d.Double)
      → Sizes prev total p
      → Shared real prev i s
      → length os + i ≡ total
      → Draws (place_all d exp fabs real i os s) p (Shared real prev total)
  unfolding place_all
  place_all-returns real prev total i [] s p sizes ok within =
      Draws-pure s p _ (subst (λ n. Shared real prev n s) (omega arith) ok)
  place_all-returns real prev total i (o ∷ os) s p sizes ok within =
      Draws-bind _ _ p (Shared real prev (suc i)) _
        (place-returns real prev total i o s p sizes ok (omega arith))
        (λ s' q drawn ok'.
          place_all-returns real prev total (i + 1) os s' q (Drawn-Sizes prev total p q drawn sizes)
            (subst (λ n. Shared real prev n s') (omega arith) ok') (omega arith))

  pub representants-return :
      (prev : ℕ) (niches : List Niche) (p : Population d.Double)
      → All (Inheritable prev) niches
      → Draws
          (for_each representant niches)
          p
          (λ rs. (length rs ≡ length niches) × All (λ r. r < prev) rs)
  unfolding for_each representant
  representants-return prev [] p ok = Draws-pure [] p _ (refl, tt)
  representants-return prev (niche ∷ niches) p ((inside, some_there), ok) =
      Draws-bind (representant niche) _ p (λ r. r < prev) _ one
        (λ r q drawn in_prev.
          Draws-bind (for_each representant niches) _ q _ _ (representants-return prev niches q ok)
            (λ rs q' drawn' (size, all).
              Draws-pure (r ∷ rs) q' _ (omega (arith, size), (in_prev, all))))
    where
      size : ℕ
      size = length niche.organism_position

      not_empty : (size == 0) ≡ false
      not_empty = ground arith

      one : Draws {D = d.Double} (representant niche) p (λ r. r < prev)
      one = Draws-bind rand _ p Any _ (Draws-rand p) (λ r q drawn _.
          let (m, at) = get_elem?-inside niche.organism_position (r % size) (ground arith) in
          rw not_empty (Draws-lift _ m q _ at (All-at _ niche.organism_position _ m inside at)))
