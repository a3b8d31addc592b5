-- ===== src/Neat/Epoch/Kept.antt =====
-- That `epoch` of proyecto/NEAT/src/NEAT.cpp keeps the population sane.
use tareas_elo.Common.{
  ℕ, zero, suc, ◌≡◌, refl, ap, subst, some, List, [], ◌∷◌, ◌++◌, Bool, true, false, if◌then◌else◌,
  length, get_elem?, Option-cases, inl, inr,
}
use mathlib.Core.Option.{some-injective}
use tareas_elo.Common.Int.{pos, pos_part}
use tareas_elo.Common.Doubles.{Doubles}
use tareas_elo.Neat.Genome.Nodes.{WellFormed}
use tareas_elo.Neat.Draw.{Probabilities}
use tareas_elo.Neat.Population.{Organism, Niche, Uninitialised, get, rand}
use tareas_elo.Neat.Population.Rules.{
  All, Any, Keeps, Keeps-bind, Keeps-pure, Keeps-then, Keeps-lifted, Keeps-get, Keeps-modify,
}
use tareas_elo.Neat.History.Kept.{Historic-same}
use tareas_elo.Neat.Mutation.Sane.{Sane, organisms-Sane, rand-Sane}
use tareas_elo.Neat.Mutation.Kept.{GoodOrganism}
use tareas_elo.Neat.Species.Seek.{All-at, All-append}
use tareas_elo.Neat.Species.Kept.{spatiation-Sane, set-All}
use tareas_elo.Neat.Reproduce.Kept.{epoch_reproduce-WellFormed}
use tareas_elo.Neat.Epoch.{
  Selection, Grading, sum_fitness, select, select_niches, grade_one, grade, grade_niches,
  change_window_of_fitness_generation, reproduce, grade_generation, epoch,
}

module _ (d : Doubles) where
  select-All :
      (os : List (Organism d.Double)) (mean : d.Double) (is : List ℕ)
      (kept : List (Organism d.Double)) (places : List ℕ) (kept' : List (Organism d.Double))
      (places' : List ℕ)
      → All (GoodOrganism d) os
      → All (GoodOrganism d) kept
      → select d os mean is kept places ≡ some (kept', places')
      → All (GoodOrganism d) kept'
  unfolding select
  select-All os mean [] kept places kept' places' ok ok_kept run =
      subst (All (GoodOrganism d))
        (ap (λ x. x.0) (some-injective (kept, places) (kept', places') run)) ok_kept
  select-All os mean (i ∷ is) kept places kept' places' ok ok_kept run =
      elim (Option-cases (get_elem? os i)) [
        | inl out ↦ absurd (cc (rw (select, out) at run))
        | inr (o, at) ↦
            select-All os mean is _ _ kept' places' ok
              (either (d.le mean o.fitness) o (All-at (GoodOrganism d) os i o ok at))
              (rw (select, at) at run)
      ]
    where
      either :
          (t : Bool) (o : Organism d.Double)
          → WellFormed o.genome
          → All (GoodOrganism d) (if t then kept ++ (o ∷ []) else kept)
      either true o good = All-append (GoodOrganism d) kept (o ∷ []) ok_kept (good, tt)
      either false o good = ok_kept

  select_niches-All :
      (junk : ℕ → Bool) (os : List (Organism d.Double)) (niches : List Niche)
      (s s' : Selection d.Double)
      → All (GoodOrganism d) os
      → All (GoodOrganism d) s.organisms
      → select_niches d junk os niches s ≡ some s'
      → All (GoodOrganism d) s'.organisms
  unfolding select_niches
  select_niches-All junk os [] s s' ok ok_s run =
      subst (λ (t : Selection d.Double). All (GoodOrganism d) t.organisms) (some-injective s s' run)
        ok_s
  select_niches-All junk os (niche ∷ niches) s s' ok ok_s run =
      elim (Option-cases (sum_fitness d os niche.organism_position (d.of_int (pos 0)))) [
        | inl out ↦ absurd (cc (rw (select_niches, out) at run))
        | inr (sum, summed) ↦
            elim (Option-cases (select d os (mean sum) niche.organism_position s.organisms [])) [
              | inl out ↦ absurd (cc (rw (select_niches, summed, out) at run))
              | inr ((kept, places), chosen) ↦
                  select_niches-All (λ i. junk (suc i)) os niches (next kept places) s' ok
                    (select-All os (mean sum) niche.organism_position s.organisms [] kept places ok
                      ok_s chosen)
                    (rw (select_niches, summed, chosen) at run)
            ]
      ]
    where
      mean : d.Double → d.Double
      mean sum = d.div sum (d.of_int (pos (length niche.organism_position)))

      next : List (Organism d.Double) → List ℕ → Selection d.Double
      next kept places = record {
        organisms = kept;
        niches = s.niches ++ (record { exist = junk 0; organism_position = places } ∷ []);
      }

  abbrev GoodGrading : Grading d.Double → Type 0
  GoodGrading g = All (GoodOrganism d) g.organisms × WellFormed g.champion.genome

  grade_one-Good :
      (size i : ℕ) (o : Organism d.Double) (g : Grading d.Double)
      → GoodGrading g
      → WellFormed o.genome
      → GoodGrading (grade_one d size i o g)
  grade_one-Good size i o g (ok, champion) good =
      (set-All (GoodOrganism d) g.organisms i _ ok good, chosen (d.lt g.fitness_champion o.fitness))
    where
      chosen :
          (t : Bool)
          → WellFormed
              (if t
                then record g { champion = o; fitness_champion = o.fitness }
                else g).champion.genome
      chosen true = good
      chosen false = champion

  grade-Good :
      (size : ℕ) (is : List ℕ) (g g' : Grading d.Double)
      → GoodGrading g
      → grade d size is g ≡ some g'
      → GoodGrading g'
  unfolding grade
  grade-Good size [] g g' ok run = subst GoodGrading (some-injective g g' run) ok
  grade-Good size (i ∷ is) g g' ok run = elim (Option-cases (get_elem? g.organisms i)) [
    | inl out ↦ absurd (cc (rw (grade, out) at run))
    | inr (o, at) ↦
        grade-Good size is (grade_one d size i o g) g'
          (grade_one-Good size i o g ok (All-at (GoodOrganism d) g.organisms i o ok.0 at))
          (rw (grade, at) at run)
  ]

  grade_niches-Good :
      (niches : List Niche) (g g' : Grading d.Double)
      → GoodGrading g
      → grade_niches d niches g ≡ some g'
      → GoodGrading g'
  unfolding grade_niches
  grade_niches-Good [] g g' ok run = subst GoodGrading (some-injective g g' run) ok
  grade_niches-Good (niche ∷ niches) g g' ok run =
      elim (Option-cases (grade d (length niche.organism_position) niche.organism_position g)) [
        | inl out ↦ absurd (cc (rw (grade_niches, out) at run))
        | inr (g1, graded) ↦
            grade_niches-Good niches g1 g'
              (grade-Good (length niche.organism_position) niche.organism_position g g1 ok graded)
              (rw (grade_niches, graded) at run)
      ]

  change_window-Sane :
      (mean : d.Double) → Keeps Sane Any (change_window_of_fitness_generation d mean)
  unfolding change_window_of_fitness_generation
  change_window-Sane mean = Keeps-bind Sane Sane Any get _ (Keeps-get Sane) (λ p _.
      Keeps-lifted Sane Any _ _ (λ window _. Keeps-modify Sane _ (λ q ok. record {
        historic = Historic-same q _ refl refl refl refl ok.historic;
        organisms = ok.organisms;
        prev_organisms = ok.prev_organisms;
        champion = ok.champion;
      })))

module _ (d : Doubles) (exp fabs : d.Double → d.Double) (junk : Uninitialised d.Double)
    (tries : ℕ) where
  grade_generation-Sane : Keeps Sane Any (grade_generation d exp fabs junk tries)
  unfolding grade_generation
  grade_generation-Sane = Keeps-bind Sane Sane Any get _ (Keeps-get Sane) (λ p ok.
      Keeps-lifted Sane Any _ _ (λ s selected. Keeps-lifted Sane Any _ _ (λ g graded.
        let (good, champion) =
          grade_niches-Good d s.niches _ g
            (
              select_niches-All d junk.niche_exist p.organisms p.current_niches _ s ok.organisms tt
                  selected,
              ok.champion,
            )
            graded in
        Keeps-then Sane Any _ _
          (Keeps-modify Sane _ (λ q ok_q.
            organisms-Sane q [] g.organisms g.champion g.fitness_champion s.niches q.prev_niches
              ok_q.historic tt good champion))
          (λ _. change_window-Sane d g.total))))

  reproduce-Sane :
      (rounds : ℕ) (sack : Probabilities d.Double)
      → Keeps Sane Any (reproduce d exp fabs junk tries rounds sack)
  unfolding reproduce
  reproduce-Sane zero sack = Keeps-pure Sane Any tt tt
  reproduce-Sane (suc rounds) sack = Keeps-bind Sane Sane Any get _ (Keeps-get Sane) (λ p ok.
      Keeps-then Sane Any rand _ rand-Sane (λ r. Keeps-lifted Sane Any _ _ (λ k _.
        Keeps-lifted Sane Any _ _ (λ o at.
          Keeps-bind Sane (GoodOrganism d) Any _ _
            (epoch_reproduce-WellFormed d junk tries k o
              (All-at (GoodOrganism d) p.prev_organisms k o ok.prev_organisms at))
            (λ child good.
              Keeps-then Sane Any _ _
                (Keeps-modify Sane _ (λ q ok_q.
                  organisms-Sane q (q.organisms ++ (child ∷ [])) q.prev_organisms q.champion
                    q.fitness_champion q.current_niches q.prev_niches ok_q.historic
                    (All-append (GoodOrganism d) q.organisms (child ∷ []) ok_q.organisms (good, tt))
                    ok_q.prev_organisms ok_q.champion))
                (λ _. reproduce-Sane rounds sack))))))

  -- A generation that does not end the process leaves all genomes well-formed, the champion's too,
  -- and the numbers of nodes and innovations apart.
  pub epoch-Sane : Keeps Sane Any (epoch d exp fabs junk tries)
  unfolding epoch
  epoch-Sane = Keeps-then Sane Any _ _ grade_generation-Sane (λ _.
      Keeps-bind Sane Sane Any get _ (Keeps-get Sane) (λ p _.
        Keeps-then Sane Any _ _ (reproduce-Sane (pos_part p.settings.population_max) _)
          (λ _. spatiation-Sane d exp fabs)))
