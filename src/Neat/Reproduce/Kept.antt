-- ===== src/Neat/Reproduce/Kept.antt =====
-- That `epoch_reproduce` of proyecto/NEAT/src/NEAT.cpp has well-formed children.
use tareas_elo.Common.{
  ℕ, zero, suc, ◌%◌, ◌≡◌, refl, subst, Option, none, some, List, ◌==◌, length, get_elem?,
  >>=-eq-some,
}
use mathlib.Core.Option.{some-injective}
use tareas_elo.Common.Int.{ℤ, pos, eqb_ℤ}
use tareas_elo.Common.Doubles.{Doubles}
use tareas_elo.Neat.Functions.{get_random_function}
use tareas_elo.Neat.Genome.{NodeGene, change_random_function_randomly, reset_past_values}
use tareas_elo.Neat.Genome.Nodes.{WellFormed}
use tareas_elo.Neat.Population.{Organism, Uninitialised, ◌>>=◌, pure, lift, get, rand, rand_share}
use tareas_elo.Neat.Population.Rules.{
  All, Any, Keeps, Keeps-bind, Keeps-pure, Keeps-lift, Keeps-then, Keeps-lifted, Keeps-if,
  Keeps-get, Keeps-Pointwise, Pointwise,
}
use tareas_elo.Neat.Population.Drawing.{Draws-map, Draws→Keeps}
use tareas_elo.Neat.Crossover.{crossover}
use tareas_elo.Neat.Crossover.Inherits.{crossover-IsChild}
use tareas_elo.Neat.Mutation.{with_genome, mutation_change_weight}
use tareas_elo.Neat.Mutation.Sane.{Sane, draws-Sane, rand-Sane}
use tareas_elo.Neat.Mutation.Kept.{GoodOrganism, mutation_change_weight-WellFormed}
use tareas_elo.Neat.Mutation.Genes.{mutation_node-WellFormed, mutation_connection-WellFormed}
use tareas_elo.Neat.Species.Seek.{All-at}
use tareas_elo.Neat.Genome.Renewed.{SamePlace, nodes-WellFormed, reset-WellFormed}
use tareas_elo.Neat.Reproduce.{
  Mated, done, going, other_niche, less, mate_elsewhere, mate_inside, mate, not_zero,
  without_crossover, change_function, change_functions, mutate, finish, epoch_reproduce,
}

module _ (d : Doubles) (junk : Uninitialised d.Double) where
  crossover-Sane :
      (o o' : Organism d.Double)
      → WellFormed o.genome
      → WellFormed o'.genome
      → Keeps Sane (GoodOrganism d) (crossover d junk o o')
  crossover-Sane o o' ok ok' =
      Draws→Keeps Sane (GoodOrganism d) (crossover d junk o o') draws-Sane (λ p _.
        Draws-map (crossover d junk o o') p _ _ (crossover-IsChild d junk o o' p ok ok')
          (λ c child. child.well_formed))

  abbrev GoodMated : Mated d.Double → Type 0
  GoodMated (done o) = WellFormed o.genome
  GoodMated (going o) = WellFormed o.genome

  less-Sane : (limit : d.Double) → Keeps Sane Any (less d limit)
  less-Sane limit = Keeps-then Sane Any rand _ rand-Sane (λ r. Keeps-pure Sane Any _ tt)

  other_niche-Sane :
      (tries amount : ℕ) (niche : ℤ)
      → Keeps (Sane {D = d.Double}) Any (other_niche tries niche amount)
  unfolding other_niche
  other_niche-Sane zero amount niche = Keeps-lift Sane Any none (λ a e. tt)
  other_niche-Sane (suc tries) amount niche = Keeps-then Sane Any rand _ rand-Sane (λ r.
      Keeps-if Sane Any (amount == 0) _ _ (λ _. Keeps-lift Sane Any none (λ a e. tt))
        (λ _.
          Keeps-if Sane Any (eqb_ℤ (pos (r % amount)) niche) _ _
            (λ _.
              Keeps-if Sane Any (amount == 1) _ _ (λ _. Keeps-pure Sane Any none tt)
                (λ _. other_niche-Sane tries amount niche))
            (λ _. Keeps-pure Sane Any (some (r % amount)) tt)))

  -- A child of the organism and of a mother in the generation before.
  child-Sane :
      (o : Organism d.Double) (prev : List (Organism d.Double)) (k : ℕ)
      → WellFormed o.genome
      → All (GoodOrganism d) prev
      → Keeps Sane GoodMated
          (do mother ← lift (get_elem? prev k); o' ← crossover d junk o mother; pure (going o'))
  child-Sane o prev k ok all = Keeps-lifted Sane GoodMated (get_elem? prev k) _ (λ mother at.
      Keeps-bind Sane (GoodOrganism d) GoodMated _ _
        (crossover-Sane o mother ok (All-at (GoodOrganism d) prev k mother all at))
        (λ o' ok'. Keeps-pure Sane GoodMated (going o') ok'))

  mutant-Sane :
      (o : Organism d.Double) (f : Organism d.Double → Mated d.Double)
      → WellFormed o.genome
      → ((o' : Organism d.Double) → WellFormed o'.genome → GoodMated (f o'))
      → Keeps Sane GoodMated (do o' ← mutation_change_weight d o; pure (f o'))
  mutant-Sane o f ok good =
      Keeps-bind Sane (GoodOrganism d) GoodMated _ _ (mutation_change_weight-WellFormed d o ok)
        (λ o' ok'. Keeps-pure Sane GoodMated (f o') (good o' ok'))

  mate_elsewhere-Sane :
      (tries : ℕ) (o : Organism d.Double) (niche : Option ℕ)
      → WellFormed o.genome
      → Keeps Sane GoodMated (mate_elsewhere d junk tries o niche)
  unfolding mate_elsewhere
  mate_elsewhere-Sane tries o none ok = mutant-Sane o done ok (λ o' ok'. ok')
  mate_elsewhere-Sane tries o (some n) ok =
      Keeps-bind Sane Sane GoodMated get _ (Keeps-get Sane) (λ p ok_p.
        Keeps-lifted Sane GoodMated _ _ (λ niche _. Keeps-then Sane GoodMated rand _ rand-Sane (λ r.
          Keeps-lifted Sane GoodMated _ _
            (λ k _. child-Sane o p.prev_organisms k ok ok_p.prev_organisms))))

  mate_inside-Sane :
      (tries place : ℕ) (o : Organism d.Double)
      → WellFormed o.genome
      → Keeps Sane GoodMated (mate_inside d junk tries o place)
  unfolding mate_inside
  mate_inside-Sane tries place o ok =
      Keeps-bind Sane Sane GoodMated get _ (Keeps-get Sane) (λ p ok_p.
        Keeps-lifted Sane GoodMated _ _ (λ n _. Keeps-lifted Sane GoodMated _ _ (λ niche _.
          Keeps-if Sane GoodMated (length niche.organism_position == 1) _ _
            (λ _. mutant-Sane o going ok (λ o' ok'. ok'))
            (λ _. Keeps-lifted Sane GoodMated _ _ (λ weights _.
              Keeps-then Sane GoodMated rand _ rand-Sane (λ r.
                Keeps-lifted Sane GoodMated _ _ (λ k _.
                  Keeps-lifted Sane GoodMated _ _
                    (λ m _. child-Sane o p.prev_organisms m ok ok_p.prev_organisms))))))))

  mate-Sane :
      (tries place : ℕ) (o : Organism d.Double)
      → WellFormed o.genome
      → Keeps Sane GoodMated (mate d junk tries o place)
  unfolding mate
  mate-Sane tries place o ok = Keeps-bind Sane Sane GoodMated get _ (Keeps-get Sane) (λ p _.
      Keeps-then Sane GoodMated rand _ rand-Sane (λ r.
        Keeps-if Sane GoodMated (without_crossover d p r) _ _
          (λ _. mutant-Sane o going ok (λ o' ok'. ok'))
          (λ _. Keeps-then Sane GoodMated _ _ (less-Sane _) (λ elsewhere.
            Keeps-if Sane GoodMated elsewhere _ _
              (λ _.
                Keeps-then Sane GoodMated _ _
                  (other_niche-Sane tries (length p.current_niches) o.niche)
                  (λ niche. mate_elsewhere-Sane tries o niche ok))
              (λ _. mate_inside-Sane tries place o ok)))))

  change_functions-Sane :
      (o : Organism d.Double)
      → WellFormed o.genome
      → Keeps Sane (GoodOrganism d) (change_functions d o)
  unfolding change_functions change_function
  change_functions-Sane o ok = Keeps-bind Sane Sane (GoodOrganism d) get _ (Keeps-get Sane) (λ p _.
      Keeps-if Sane (GoodOrganism d)
        (not_zero d p.settings.probability_change_node_function_per_node) _ _
        (λ _.
          Keeps-bind Sane (Pointwise SamePlace o.genome.lnode_genes) (GoodOrganism d) _ _
            (Keeps-Pointwise Sane SamePlace _
              (one p.settings.probability_change_node_function_per_node) o.genome.lnode_genes)
            (λ genes same.
              Keeps-pure Sane (GoodOrganism d) _ (nodes-WellFormed o.genome genes ok same)))
        (λ _. Keeps-pure Sane (GoodOrganism d) o ok))
    where
      one :
          (limit : d.Double) (g : NodeGene d.Double)
          → Keeps Sane (SamePlace g) (change_function d limit g)
      one limit g = Keeps-then Sane (SamePlace g) rand _ rand-Sane (λ r.
          Keeps-if Sane (SamePlace g) (d.le (rand_share d r) limit) _ _
            (λ _. Keeps-then Sane (SamePlace g) rand _ rand-Sane (λ r'.
              Keeps-lift Sane (SamePlace g) (change_random_function_randomly d r' g)
                (λ g' run. changed r' g' run)))
            (λ _. Keeps-pure Sane (SamePlace g) g (refl, refl, refl, refl)))
        where
          changed :
              (r : ℕ) (g' : NodeGene d.Double)
              → change_random_function_randomly d r g ≡ some g'
              → SamePlace g g'
          changed r g' run =
              let (f, drawn, is) = >>=-eq-some (get_random_function r) _ run in
              subst (SamePlace g) (some-injective _ g' is) (refl, refl, refl, refl)

  mutate-Sane :
      (tries : ℕ) (o : Organism d.Double)
      → WellFormed o.genome
      → Keeps Sane (GoodOrganism d) (mutate d junk tries o)
  unfolding mutate
  mutate-Sane tries o ok = Keeps-bind Sane Sane (GoodOrganism d) get _ (Keeps-get Sane) (λ p _.
      Keeps-then Sane (GoodOrganism d) _ _ (less-Sane _) (λ node.
        Keeps-bind Sane (GoodOrganism d) (GoodOrganism d) _ _
          (Keeps-if Sane (GoodOrganism d) node _ _ (λ _. mutation_node-WellFormed d junk o ok)
            (λ _. Keeps-pure Sane (GoodOrganism d) o ok))
          (λ o1 ok1. Keeps-then Sane (GoodOrganism d) _ _ (less-Sane _) (λ connection.
            Keeps-bind Sane (GoodOrganism d) (GoodOrganism d) _ _
              (Keeps-if Sane (GoodOrganism d) connection _ _
                (λ _. mutation_connection-WellFormed d junk o1 ok1)
                (λ _. Keeps-pure Sane (GoodOrganism d) o1 ok1))
              (λ o2 ok2. change_functions-Sane o2 ok2)))))

  -- A child of a well-formed organism in a sane population, where the process does not end, is well-
  -- formed, and the population stays sane.
  pub epoch_reproduce-WellFormed :
      (tries place : ℕ) (o : Organism d.Double)
      → WellFormed o.genome
      → Keeps Sane (GoodOrganism d) (epoch_reproduce d junk tries o place)
  unfolding epoch_reproduce finish
  epoch_reproduce-WellFormed tries place o ok =
      Keeps-bind Sane GoodMated (GoodOrganism d) _ _
        (mate-Sane tries place (with_genome d o (reset_past_values d o.genome))
          (reset-WellFormed d o.genome ok))
        finished
    where
      finished :
          (mated : Mated d.Double)
          → GoodMated mated
          → Keeps Sane (GoodOrganism d) (finish d junk tries mated)
      finished (done o') ok' = Keeps-pure Sane (GoodOrganism d) o' ok'
      finished (going o') ok' = mutate-Sane tries o' ok'
