-- ===== src/Neat/Reproduce.antt =====
-- `epoch_reproduce` of proyecto/NEAT/src/NEAT.cpp: one child of an organism.
use tareas_elo.Common.{
  ℕ, zero, suc, ◌+◌, ◌%◌, ◌≡◌, Option, none, some, List, [], ◌∷◌, Bool, true, false, ◌&&◌, not,
  ◌==◌, if◌then◌else◌, length, get_elem?,
}
use tareas_elo.Common.Int.{ℤ, pos, eqb_ℤ}
use tareas_elo.Common.Doubles.{Doubles}
use tareas_elo.Neat.Genome.{NodeGene, index, change_random_function_randomly, reset_past_values}
use tareas_elo.Neat.Draw.{
  Probabilities, empty_probabilities, add_element, obtain_uniformrandom_element,
}
use tareas_elo.Neat.Population.{
  Population, Organism, Niche, Uninitialised, M, ◌>>=◌, ◌>>◌, pure, lift, get, rand, for_each,
  rand_max, rand_share,
}
use tareas_elo.Neat.Crossover.{crossover}
use tareas_elo.Neat.Mutation.{
  with_genome, mutation_change_weight, mutation_node, mutation_connection,
}
pub mod Other
pub mod Kept

-- A child that is returned at once, or that goes on to the mutations.
pub data Mated (D : Type 0) : Type 0 where
  done going : Organism D → Mated D

-- A niche other than the organism's, drawn for at most `tries` times (`while(true)` in the code);
-- none where there is one niche only.
unfoldable pub other_niche : {D : Type 0} → ℕ → ℤ → ℕ → M D (Option ℕ)
other_niche zero niche amount = lift none
other_niche (suc tries) niche amount = do
  r ← rand
  if amount == 0
      then lift none
      else if eqb_ℤ (pos (r % amount)) niche
      then (if amount == 1 then pure none else other_niche tries niche amount)
      else pure (some (r % amount))

module _ (d : Doubles) where
  abbrev pub less : d.Double → M d.Double Bool
  less limit = do r ← rand; pure (d.lt (rand_share d r) limit)

  -- `100 * ((double)rand()) / RAND_MAX < PERCENTAGE_OFFSPRING_WITHOUT_CROSSOVER`.
  abbrev pub without_crossover : Population d.Double → ℕ → Bool
  without_crossover p r =
      d.lt (d.div (d.mul (d.of_int (pos 100)) (d.of_int (pos r))) (d.of_int (pos rand_max)))
        p.settings.percentage_offspring_without_crossover

  -- `x != 0`, true for what is not a number.
  abbrev pub not_zero : d.Double → Bool
  not_zero x = not (d.le x (d.of_int (pos 0)) && d.le (d.of_int (pos 0)) x)

  unfoldable pub change_function : d.Double → NodeGene d.Double → M d.Double (NodeGene d.Double)
  change_function limit g = do
    r ← rand
    if d.le (rand_share d r) limit
        then (do r' ← rand; lift (change_random_function_randomly d r' g))
        else pure g

  unfoldable pub change_functions : Organism d.Double → M d.Double (Organism d.Double)
  change_functions o = do
    p ← get
    if not_zero p.settings.probability_change_node_function_per_node
        then (do
          genes ←
              for_each (change_function p.settings.probability_change_node_function_per_node)
                o.genome.lnode_genes
          pure (with_genome d o (record o.genome { lnode_genes = genes })))
        else pure o

module _ (d : Doubles) (junk : Uninitialised d.Double) (tries : ℕ) where
  -- A mother of another niche: `organism_position[rand() % size]`.
  unfoldable pub mate_elsewhere : Organism d.Double → Option ℕ → M d.Double (Mated d.Double)
  mate_elsewhere o none = do o' ← mutation_change_weight d o; pure (done o')
  mate_elsewhere o (some random_niche_mother) = do
    p ← get
    niche ← lift (get_elem? p.current_niches random_niche_mother)
    r ← rand
    random_mother ← lift (
        if length niche.organism_position == 0
        then none
        else get_elem? niche.organism_position (r % length niche.organism_position))
    mother ← lift (get_elem? p.prev_organisms random_mother)
    o' ← crossover d junk o mother
    pure (going o')

  -- The weights of the mothers at hand: none for the organism itself.
  unfoldable pub mother_weights :
      ℕ
      → List (Organism d.Double)
      → List ℕ
      → Probabilities d.Double
      → Option (Probabilities d.Double)
  mother_weights place prev [] weights = some weights
  mother_weights place prev (i ∷ is) weights = elim (shared_at i) [
    | none ↦ none
    | some weight ↦ mother_weights place prev is (add_element d weight weights)
  ]
    where
      shared_at : ℕ → Option d.Double
      shared_at k =
          if k == place
          then some (d.of_int (pos 0))
          else elim (get_elem? prev k) [ none ↦ none | some o ↦ some o.shared_fitness ]

  -- A mother of the same niche, by shared fitness; an organism alone in its niche mutates instead.
  unfoldable pub mate_inside : Organism d.Double → ℕ → M d.Double (Mated d.Double)
  mate_inside o place = do
    p ← get
    n ← lift (index o.niche)
    niche ← lift (get_elem? p.current_niches n)
    if length niche.organism_position == 1
        then (do o' ← mutation_change_weight d o; pure (going o'))
        else do
          weights ← lift (
              mother_weights place p.prev_organisms niche.organism_position (empty_probabilities d))
          r ← rand
          k ← lift (obtain_uniformrandom_element d r weights)
          random_mother ← lift (get_elem? niche.organism_position k)
          mother ← lift (get_elem? p.prev_organisms random_mother)
          o' ← crossover d junk o mother
          pure (going o')

  -- The first part, up to the mutations.
  unfoldable pub mate : Organism d.Double → ℕ → M d.Double (Mated d.Double)
  mate o place = do
    p ← get
    r ← rand
    if without_crossover d p r then (do o' ← mutation_change_weight d o; pure (going o')) else do
      elsewhere ← less d p.settings.probability_interspacies_mating
      if elsewhere
          then (do
            niche ← other_niche tries o.niche (length p.current_niches)
            mate_elsewhere o niche)
          else mate_inside o place

  -- The second part.
  unfoldable pub mutate : Organism d.Double → M d.Double (Organism d.Double)
  mutate o = do
    p ← get
    node ← less d p.settings.larger_populations_probability_adding_new_node
    o1 ← if node then mutation_node d junk o else pure o
    connection ← less d p.settings.larger_populations_probability_adding_new_connection
    o2 ← if connection then mutation_connection d junk o1 else pure o1
    change_functions d o2

  unfoldable pub finish : Mated d.Double → M d.Double (Organism d.Double)
  finish (done o) = pure o
  finish (going o) = mutate o

  unfoldable pub epoch_reproduce : Organism d.Double → ℕ → M d.Double (Organism d.Double)
  epoch_reproduce o place = do
    mated ← mate (with_genome d o (reset_past_values d o.genome)) place
    finish mated
