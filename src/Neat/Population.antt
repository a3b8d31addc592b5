-- ===== src/Neat/Population.antt =====
-- The state of `Population` (proyecto/NEAT/headers/NEAT.hpp) and the steps on it. A process that ends
-- (exit(1), `at` out of range, an index outside a vector, a division by zero) is `none`. The numbers
-- of nodes, rows and innovations are each below the size of a vector, and fit an int.
use tareas_elo.Common.{
  ℕ, suc, ◌+◌, ◌-◌, ◌^◌, ◌≡◌, Option, none, some, List, [], ◌∷◌, Bool, true, false, get_elem?, set,
}
use tareas_elo.Common.Int.{ℤ, pos, negsuc}
use tareas_elo.Common.Doubles.{Doubles}
use tareas_elo.Neat.Genome.{Encoding, NodeGene, ConnectionGene}
pub mod Rules
pub mod Drawing

-- The user definitions.
pub record Settings (D : Type 0) : Type 0 where
  pub population_max : ℤ
  pub organism_distance_1 : D
  pub organism_distance_2 : D
  pub organism_distance_3 : D
  pub distance_threshold : D
  pub percentage_offspring_without_crossover : D
  pub probability_interspacies_mating : D
  pub smaller_populations_probability_adding_new_node : D
  pub smaller_populations_probability_adding_new_connection : D
  pub larger_populations_probability_adding_new_node : D
  pub larger_populations_probability_adding_new_connection : D
  pub prob_enable_an_disable_connection : D
  pub large_population_discriminator : D
  pub generations : ℤ
  pub probability_change_weight : D
  pub probability_change_node_function_per_node : D

-- The fields that are read: `total_shared_fitness` is set and not read, the others are not used.
pub record Niche : Type 0 where
  pub exist : Bool
  pub organism_position : List ℕ

-- A `Genetic_Encoding` with the fields that the population reads and sets.
pub record Organism (D : Type 0) : Type 0 where
  pub genome : Encoding D
  pub fitness : D
  pub shared_fitness : D
  pub niche : ℤ

-- What locals and members without an initialiser hold: a gene of each kind, an organism behind its
-- (empty) vectors, and the `exist` of each niche that `epoch` makes.
pub record Uninitialised (D : Type 0) : Type 0 where
  pub node : NodeGene D
  pub connection : ConnectionGene D
  pub fitness : D
  pub shared_fitness : D
  pub niche : ℤ
  pub niche_exist : ℕ → Bool

-- The members, and `draws`: what `rand()` will return. The fixed texts `name` and `save_path` and
-- the counter `current_generation` serve the names of files only; `lenght` and
-- `organims_position_orderer_by_fitness` are not read.
pub record Population (D : Type 0) : Type 0 where
  pub settings : Settings D
  pub expectative_iterations : D
  pub organisms : List (Organism D)
  pub prev_organisms : List (Organism D)
  pub current_niches : List Niche
  pub prev_niches : List Niche
  pub last_innovation : ℤ
  pub last_node : ℤ
  pub last_row : ℤ
  pub historical_nodes : List (List ℤ)
  pub historical_innovation : List (List ℤ)
  pub historical_row : List ℤ
  pub row_orderer_list : List ℤ
  pub champion : Organism D
  pub fitness_champion : D
  pub fitness_mean_of_past_generation : List D
  pub draws : ℕ → ℕ

abbrev pub M : Type 0 → Type 0 → Type 0
M D A = Population D → Option (A × Population D)

module _ {D : Type 0} where
  infixl 5 ◌>>=◌ ◌>>◌
  unfoldable pub ◌>>=◌ : {A B : Type 0} → M D A → (A → M D B) → M D B
  ◌>>=◌ m f p = elim (m p) [ none ↦ none | some (a, p') ↦ f a p' ]

  abbrev pub ◌>>◌ : {B : Type 0} → M D (Unit {0}) → M D B → M D B
  m >> k = m >>= λ _. k

  unfoldable pub pure : {A : Type 0} → A → M D A
  pure a p = some (a, p)

  -- A step that may end the process and leaves the population as it is.
  unfoldable pub lift : {A : Type 0} → Option A → M D A
  lift o p = elim o [ none ↦ none | some a ↦ some (a, p) ]

  -- The members, and an assignment to them.
  unfoldable pub get : M D (Population D)
  get p = some (p, p)

  unfoldable pub modify : (Population D → Population D) → M D (Unit {0})
  modify f p = some (tt, f p)

  unfoldable pub rand : M D ℕ
  rand p = some (p.draws 0, record p { draws = λ k. p.draws (k + 1) })

  -- A step on each element in turn.
  unfoldable pub for_each : {A B : Type 0} → (A → M D B) → List A → M D (List B)
  for_each f [] = pure []
  for_each f (a ∷ xs) = do b ← f a; bs ← for_each f xs; pure (b ∷ bs)

abbrev pub rand_max : ℕ
rand_max = 2 ^ 31 - 1

module _ (d : Doubles) where
  -- `((double)rand()) / RAND_MAX`.
  abbrev pub rand_share : ℕ → d.Double
  rand_share r = d.div (d.of_int (pos r)) (d.of_int (pos rand_max))

  -- An organism as its constructor leaves it, and `crossover` returns it.
  abbrev pub new_organism : Uninitialised d.Double → Encoding d.Double → Organism d.Double
  new_organism junk e = record {
    genome = e;
    fitness = junk.fitness;
    shared_fitness = junk.shared_fitness;
    niche = junk.niche;
  }
