-- ===== src/Neat/Examples.antt =====
-- The population of proyecto/NEAT on small genomes, and its theorems at populations that meet their
-- hypotheses.
use tareas_elo.Neat.Mutation.{change_weight, mutation_change_weight, doubled_draw, weight_delta}
use tareas_elo.Neat.Species.{
  place, place_all, representant, seek, set_niche, set_niches, settle, share, spatiation,
}
use tareas_elo.Neat.Slots.{store}
use tareas_elo.Neat.Genome.{add_connection_gene, add_node_gene, reset_past_values, Encoding}
use tareas_elo.Neat.Functions.{get_random_function}
use tareas_elo.Neat.Crossover.{cross, crossover, maybe_enable, pick_connection, pick_node, toss}
use tareas_elo.Neat.Compatibility.{compare_all, compatibility}
use tareas_elo.Common.Int.{i32, ◌+ℤ◌, ℤ, pos, negsuc, eqb_ℤ}
use tareas_elo.Neat.Reproduce.{
  epoch_reproduce, mate, change_function, change_functions, finish, mate_elsewhere, mate_inside,
  mother_weights, mutate, other_niche,
}
use tareas_elo.Neat.Draw.{uniform_loop, take_one_randomly}
use tareas_elo.Neat.Epoch.{
  grade_generation, select_niches, sum_fitness, select, grade_niches, grade,
  change_window_of_fitness_generation, reproduce, shared_sack, epoch,
}
use tareas_elo.Neat.Population.{
  ◌>>=◌, get, lift, modify, rand, for_each, pure, Settings, Organism, Uninitialised, Population,
}
use tareas_elo.Common.{
  ℕ, zero, suc, ◌+◌, ◌%◌, ◌<◌, ◌≡◌, refl, Option, none, some, [], ◌∷◌, Bool, true, false, arith,
  ◌^◌, ◌-◌,
}
use tareas_elo.Neat.Genome.Nodes.{
  WellFormed, add_node_gene-WellFormed, add_connection_gene-WellFormed,
}
use tareas_elo.Neat.Tests.{
  numbers, junk, out_node, one_output, output-added, empty, empty-WellFormed, edge, in_gene,
}
use tareas_elo.Neat.Population.Rules.{Any, Returns}
use tareas_elo.Neat.Table.{number_at}
use tareas_elo.Neat.History.{
  obtain_innovation, obtain_historical_node, obtain_row, find_row, known_row,
}
use tareas_elo.Neat.History.Kept.{
  Historic, obtain_innovation-numbers, obtain_historical_node-numbers,
}
use tareas_elo.Neat.History.Place.{obtain_row-adjacent}
use tareas_elo.Common.Doubles.{fractions, fractions-OrderLaws}
use tareas_elo.Neat.Mutation.Weights.{weight_delta-negative}
use tareas_elo.Neat.Mutation.Sane.{Sane}
use tareas_elo.Neat.Compatibility.Symmetric.{compatibility_comm}
use tareas_elo.Neat.Species.Partition.{Partitioned, spatiation-partition}
use tareas_elo.Neat.Reproduce.Other.{other_niche-first}
use tareas_elo.Neat.Epoch.Kept.{epoch-Sane}

-- An input and an output, and the connection from one to the other.
abbrev two_nodes : Encoding ℤ
two_nodes = record one_output {
  lnode_genes = in_gene ∷ record junk { exist = false; node_output_value = pos 0 } ∷ out_node ∷ [];
  nodes_at_row = (pos 0 ∷ []) ∷ (pos 2 ∷ []) ∷ [];
}

abbrev joined : Encoding ℤ
joined = record two_nodes { lconnection_genes = edge ∷ [] }

in-added : add_node_gene numbers junk in_gene one_output ≡ some two_nodes
unfolding add_node_gene store
in-added = refl

edge-joined : add_connection_gene numbers edge edge two_nodes ≡ some joined
unfolding add_connection_gene store
edge-joined = refl

one_output-WellFormed : WellFormed one_output
one_output-WellFormed =
    add_node_gene-WellFormed numbers junk out_node empty one_output empty-WellFormed output-added

two_nodes-WellFormed : WellFormed two_nodes
two_nodes-WellFormed =
    add_node_gene-WellFormed numbers junk in_gene one_output two_nodes one_output-WellFormed
      in-added

joined-WellFormed : WellFormed joined
joined-WellFormed =
    add_connection_gene-WellFormed numbers edge edge two_nodes joined two_nodes-WellFormed
      edge-joined

abbrev unset : Uninitialised ℤ
unset = record {
  node = junk;
  connection = record edge { exist = false };
  fitness = pos 0;
  shared_fitness = pos 0;
  niche = pos 0;
  niche_exist = λ i. true;
}

abbrev settings : Settings ℤ
settings = record {
  population_max = pos 2;
  organism_distance_1 = pos 1;
  organism_distance_2 = pos 1;
  organism_distance_3 = pos 1;
  distance_threshold = pos 1;
  percentage_offspring_without_crossover = pos 0;
  probability_interspacies_mating = pos 0;
  smaller_populations_probability_adding_new_node = pos 0;
  smaller_populations_probability_adding_new_connection = pos 0;
  larger_populations_probability_adding_new_node = pos 0;
  larger_populations_probability_adding_new_connection = pos 0;
  prob_enable_an_disable_connection = pos 0;
  large_population_discriminator = pos 0;
  generations = pos 1;
  probability_change_weight = pos 1;
  probability_change_node_function_per_node = pos 1;
}

abbrev organism : Encoding ℤ → Organism ℤ
organism e = record { genome = e; fitness = pos 1; shared_fitness = pos 1; niche = pos 0 }

-- Two organisms of one niche; the generation before was one.
abbrev couple : Population ℤ
couple = record {
  settings = settings;
  expectative_iterations = pos 1;
  organisms = organism joined ∷ organism two_nodes ∷ [];
  prev_organisms = organism joined ∷ [];
  current_niches = record { exist = true; organism_position = 0 ∷ [] } ∷ [];
  prev_niches = [];
  last_innovation = pos 1;
  last_node = pos 2;
  last_row = pos 2;
  historical_nodes = [];
  historical_innovation = (negsuc 0 ∷ negsuc 0 ∷ pos 0 ∷ []) ∷ [];
  historical_row = [];
  row_orderer_list = pos 0 ∷ pos 1 ∷ [];
  champion = organism joined;
  fitness_champion = pos 0;
  fitness_mean_of_past_generation = pos 0 ∷ pos 0 ∷ pos 0 ∷ pos 0 ∷ pos 0 ∷ [];
  draws = λ k. k;
}

only_zero :
    (a b n : ℕ) → number_at couple.historical_innovation a b ≡ some n → (a ≡ 0) × (b ≡ 2) × (n ≡ 0)
unfolding number_at
only_zero zero zero n e = cc
only_zero zero (suc zero) n e = cc
only_zero zero (suc (suc zero)) n e = (refl, refl, cc)
only_zero zero (suc (suc (suc b))) n e = cc
only_zero (suc a) b n e = cc

no_nodes : (a b n : ℕ) → number_at [] a b ≡ some n → ⊥
unfolding number_at
no_nodes a b n e = cc

couple-Historic : Historic couple
unfolding ◌+ℤ◌
couple-Historic = record {
  next_innovation = 1;
  next_node = 3;
  innovation = refl;
  node = refl;
  innovations = record {
    below = λ a b n e. omega (arith, only_zero a b n e);
    apart = λ a b a' b' n e e'. (
      omega (arith, only_zero a b n e, only_zero a' b' n e'),
      omega (arith, only_zero a b n e, only_zero a' b' n e'),
    );
  };
  nodes = record {
    below = λ a b n e. absurd (no_nodes a b n e);
    apart = λ a b a' b' n e e'. absurd (no_nodes a b n e);
  };
}

couple-Sane : Sane couple
couple-Sane = record {
  historic = couple-Historic;
  organisms = (joined-WellFormed, (two_nodes-WellFormed, tt));
  prev_organisms = (joined-WellFormed, tt);
  champion = joined-WellFormed;
}

abbrev id : ℤ → ℤ
id z = z

-- Node 0 to node 0 is a new connection: number 1.
obtain_innovation-numbers_example : Returns (obtain_innovation (pos 0) (pos 0)) couple (λ z q.
    (n : ℕ) × (z ≡ pos n)
    × (number_at q.historical_innovation 0 0 ≡ some n)
    × Historic q
    × ((x y m : ℕ)
        → number_at couple.historical_innovation x y ≡ some m
        → number_at q.historical_innovation x y ≡ some m))
obtain_innovation-numbers_example = obtain_innovation-numbers couple 0 0 couple-Historic

obtain_historical_node-numbers_example :
    Returns (obtain_historical_node (pos 0) (pos 2)) couple (λ z q.
      (n : ℕ) × (z ≡ pos n)
      × (number_at q.historical_nodes 0 2 ≡ some n)
      × Historic q
      × ((x y m : ℕ)
          → number_at couple.historical_nodes x y ≡ some m
          → number_at q.historical_nodes x y ≡ some m))
obtain_historical_node-numbers_example = obtain_historical_node-numbers couple 0 2 couple-Historic

obtain_row-adjacent_example :
    Returns
      (obtain_row (pos 3) (pos 0) (pos 1))
      couple
      (λ row q. (row ≡ pos 2) × (q.row_orderer_list ≡ pos 0 ∷ pos 2 ∷ pos 1 ∷ []))
    × Returns
        (obtain_row (pos 3) (pos 1) (pos 0))
        couple
        (λ row q. (row ≡ pos 2) × (q.row_orderer_list ≡ pos 2 ∷ pos 0 ∷ pos 1 ∷ []))
unfolding find_row known_row
obtain_row-adjacent_example = obtain_row-adjacent couple 3 (pos 0) (pos 1) [] [] refl refl refl refl

weight_delta-negative_example :
    (doubled_draw (2 ^ 30) ≡ negsuc (2 ^ 31 - 1))
    × (fractions.lt (weight_delta fractions (2 ^ 30)) (fractions.of_int (pos 0)) ≡ true)
weight_delta-negative_example = weight_delta-negative fractions fractions-OrderLaws (2 ^ 30)

compatibility_comm_example :
    compatibility numbers id (λ z. pos 0) settings joined two_nodes
    ≡ compatibility numbers id (λ z. pos 0) settings two_nodes joined
compatibility_comm_example =
    compatibility_comm numbers id (λ z. pos 0) (λ a b. refl) settings joined two_nodes

spatiation-partition_example :
    Returns (spatiation numbers id id) couple (λ _ q. Partitioned couple q)
spatiation-partition_example = spatiation-partition numbers id id couple ((omega arith, tt), tt)

-- The first draw is the niche of the organism, the second is not.
other_niche-first_example :
    other_niche 3 (pos 0) 2 couple ≡ some (some 1, record couple { draws = λ j. j + 2 })
other_niche-first_example =
    other_niche-first 3 1 2 (pos 0) couple (omega arith) (omega arith) first_is refl
  where
    first_is : (j : ℕ) → j < 1 → eqb_ℤ (pos (j % 2)) (pos 0) ≡ true
    first_is zero h = refl
    first_is (suc j) h = absurd (omega arith)

-- A whole generation.
abbrev outcome : Option (Unit {0} × Population ℤ) → Population ℤ
outcome none = couple
outcome (some (a, p)) = p

abbrev is_some : Option (Unit {0} × Population ℤ) → Bool
is_some none = false
is_some (some p) = true

abbrev after : Population ℤ
after = outcome (epoch numbers id id unset 3 couple)

epoch_runs : is_some (epoch numbers id id unset 3 couple) ≡ true
unfolding epoch ◌>>=◌ grade_generation get lift select_niches sum_fitness select grade_niches grade
    modify change_window_of_fitness_generation reproduce rand uniform_loop shared_sack
    epoch_reproduce mate i32 ◌+ℤ◌ compare_all compatibility cross crossover maybe_enable
    pick_connection pick_node toss take_one_randomly get_random_function add_connection_gene
    add_node_gene reset_past_values for_each pure change_function change_functions finish
    mate_elsewhere mate_inside mother_weights mutate other_niche store place place_all representant
    seek set_niche set_niches settle share spatiation change_weight mutation_change_weight
    doubled_draw
epoch_runs = refl

runs : (o : Option (Unit {0} × Population ℤ)) → is_some o ≡ true → o ≡ some (tt, outcome o)
runs none e = cc
runs (some (tt, p)) e = refl

epoch-Sane_example : Sane after × Any tt
epoch-Sane_example =
    epoch-Sane numbers id id unset 3 couple tt after couple-Sane (runs _ epoch_runs)
