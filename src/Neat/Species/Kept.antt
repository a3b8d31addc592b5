-- ===== src/Neat/Species/Kept.antt =====
-- That `spatiation` of proyecto/NEAT/src/NEAT.cpp keeps the population sane.
use tareas_elo.Common.{
  ℕ, zero, suc, ◌+◌, ◌==◌, ◌≡◌, subst, none, some, List, [], ◌∷◌, length, get_elem?, set,
  Option-cases, inl, inr,
}
use mathlib.Core.Option.{some-injective}
use tareas_elo.Common.Int.{pos}
use tareas_elo.Common.Doubles.{Doubles}
use tareas_elo.Neat.Draw.{Probabilities}
use tareas_elo.Neat.Population.{Organism, Niche, get, rand, for_each}
use tareas_elo.Neat.Population.Rules.{
  All, Any, Keeps, Keeps-bind, Keeps-pure, Keeps-lift, Keeps-then, Keeps-lifted, Keeps-if,
  Keeps-get, Keeps-modify, Keeps-for_each, Keeps-weaken,
}
use tareas_elo.Neat.Mutation.Sane.{Sane, organisms-Sane, rand-Sane}
use tareas_elo.Neat.Mutation.Kept.{GoodOrganism}
use tareas_elo.Neat.Compatibility.{compatibility}
use tareas_elo.Neat.Species.{
  Sharing, keep_if, is_real, representant, settle, seek, place, place_all, share, set_niche,
  set_niches, spatiation,
}
use tareas_elo.Neat.Species.Seek.{All-at}

pub set-All :
    {A : Type 0} (P : A → Type 0) (xs : List A) (i : ℕ) (a : A)
    → All P xs
    → P a
    → All P (set xs i a)
set-All P [] i a h ha = tt
set-All P (x ∷ xs) zero a h ha = (ha, h.1)
set-All P (x ∷ xs) (suc i) a h ha = (h.0, set-All P xs i a h.1 ha)

module _ (d : Doubles) where
  set_niche-All :
      (k : ℕ) (is : List ℕ) (os os' : List (Organism d.Double))
      → All (GoodOrganism d) os
      → set_niche k is os ≡ some os'
      → All (GoodOrganism d) os'
  unfolding set_niche
  set_niche-All k [] os os' ok run = subst (All (GoodOrganism d)) (some-injective os os' run) ok
  set_niche-All k (i ∷ is) os os' ok run = elim (Option-cases (get_elem? os i)) [
    | inl out ↦ absurd (cc (rw (set_niche, out) at run))
    | inr (o, at) ↦
        set_niche-All k is (set os i (record o { niche = pos k })) os'
          (set-All (GoodOrganism d) os i (record o { niche = pos k }) ok
            (All-at (GoodOrganism d) os i o ok at))
          (rw (set_niche, at) at run)
  ]

  set_niches-All :
      (k : ℕ) (niches : List Niche) (os os' : List (Organism d.Double))
      → All (GoodOrganism d) os
      → set_niches k niches os ≡ some os'
      → All (GoodOrganism d) os'
  unfolding set_niches
  set_niches-All k [] os os' ok run = subst (All (GoodOrganism d)) (some-injective os os' run) ok
  set_niches-All k (niche ∷ niches) os os' ok run =
      elim (Option-cases (set_niche k niche.organism_position os)) [
        | inl out ↦ absurd (cc (rw (set_niches, out) at run))
        | inr (os1, at) ↦
            set_niches-All (k + 1) niches os1 os'
              (set_niche-All k niche.organism_position os os1 ok at) (rw (set_niches, at) at run)
      ]

  representant-Sane : (niche : Niche) → Keeps (Sane {D = d.Double}) Any (representant niche)
  unfolding representant
  representant-Sane niche = Keeps-then Sane Any rand _ rand-Sane (λ r.
      Keeps-if Sane Any (length niche.organism_position == 0) _ _
        (λ _. Keeps-lift Sane Any none (λ a e. tt)) (λ _. Keeps-lift Sane Any _ (λ a e. tt)))

module _ (d : Doubles) (exp fabs : d.Double → d.Double) where
  seek-Sane :
      (real : ℕ) (rs : List ℕ) (o : Organism d.Double) (rounds : ℕ) (sack : Probabilities d.Double)
      → Keeps Sane Any (seek d exp fabs real rs o rounds sack)
  unfolding seek
  seek-Sane real rs o zero sack = Keeps-pure Sane Any none tt
  seek-Sane real rs o (suc rounds) sack = Keeps-then Sane Any rand _ rand-Sane (λ r.
      Keeps-lifted Sane Any _ _ (λ taken _. Keeps-lifted Sane Any _ _ (λ m _.
        Keeps-bind Sane Sane Any get _ (Keeps-get Sane) (λ p _.
          Keeps-lifted Sane Any _ _ (λ other _.
            Keeps-if Sane Any
              (d.lt (compatibility d exp fabs p.settings o.genome other.genome)
                p.settings.distance_threshold)
              _ _ (λ _. Keeps-pure Sane Any (some taken.0) tt)
              (λ _. seek-Sane real rs o rounds taken.1))))))

  place_all-Sane :
      (real i : ℕ) (os : List (Organism d.Double)) (s : Sharing)
      → Keeps Sane Any (place_all d exp fabs real i os s)
  unfolding place_all place
  place_all-Sane real i [] s = Keeps-pure Sane Any s tt
  place_all-Sane real i (o ∷ os) s =
      Keeps-then Sane Any (place d exp fabs real i o s) _
        (Keeps-then Sane Any _ _ (seek-Sane real s.representants o (length s.niches) _)
          (λ found. Keeps-lift Sane Any (settle real i found s) (λ a e. tt)))
        (λ s'. place_all-Sane real (i + 1) os s')

  share-Sane : (niches : List Niche) → Keeps Sane Any (share d exp fabs niches)
  unfolding share
  share-Sane niches =
      Keeps-then Sane Any _ _
        (Keeps-weaken Sane (All Any) Any (for_each representant niches)
          (Keeps-for_each Sane Any Any representant (λ niche _. representant-Sane d niche) niches
            (all-any niches))
          (λ rs _. tt))
        (λ rs.
          Keeps-bind Sane Sane Any get _ (Keeps-get Sane)
            (λ p _. place_all-Sane (length niches) 0 p.organisms _))
    where
      all-any : {A : Type 0} (xs : List A) → All Any xs
      all-any [] = tt
      all-any (x ∷ xs) = (tt, all-any xs)

  -- Sharing out the organisms changes no genome and no history.
  pub spatiation-Sane : Keeps Sane Any (spatiation d exp fabs)
  unfolding spatiation
  spatiation-Sane = Keeps-bind Sane Sane Any get _ (Keeps-get Sane) (λ p ok.
      Keeps-then Sane Any _ _
        (Keeps-modify Sane _ (λ q ok_q.
          organisms-Sane q q.organisms q.prev_organisms q.champion q.fitness_champion []
            p.current_niches ok_q.historic ok_q.organisms ok_q.prev_organisms ok_q.champion))
        (λ _. Keeps-then Sane Any _ _ (share-Sane (keep_if is_real p.current_niches)) (λ s.
          Keeps-lifted Sane Any _ _ (λ os run. Keeps-modify Sane _ (λ q ok_q.
            organisms-Sane q os q.prev_organisms q.champion q.fitness_champion
              (keep_if (λ niche. niche.exist) s.niches) q.prev_niches ok_q.historic
              (set_niches-All d 0 _ p.organisms os ok.organisms run) ok_q.prev_organisms
              ok_q.champion)))))
