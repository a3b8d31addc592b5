-- ===== src/Neat/Start.antt =====
-- The constructor of `Population` and `load_user_definitions` of proyecto/NEAT/src/NEAT.cpp.
use tareas_elo.Common.{
  ℕ, zero, suc, Option, none, some, List, [], ◌∷◌, ◌++◌, true, ◌&&◌, if◌then◌else◌, length,
  replicate,
}
use tareas_elo.Common.Int.{ℤ, pos, ◌+ℤ◌, ◌-ℤ◌, ltb_ℤ, pos_part}
use tareas_elo.Common.Doubles.{Doubles}
use tareas_elo.Common.Text.{atoi}
use tareas_elo.Neat.Genome.{ConnectionGene, Encoding}
use tareas_elo.Neat.Table.{obtain}
use tareas_elo.Neat.Tokens.{tokens}
use tareas_elo.Neat.Load.{load}
use tareas_elo.Neat.Population.{
  Settings, Population, Organism, Uninitialised, M, ◌>>=◌, ◌>>◌, pure, modify, new_organism,
}
use tareas_elo.Neat.Crossover.{no_genes}
use tareas_elo.Neat.Mutation.{put_randoms_weight}
use tareas_elo.Neat.Species.{spatiation}

module _ (d : Doubles) where
  -- Sixteen labels with a value each; a missing value is read through a null pointer.
  abbrev pub settings_of : List (List ℕ) → Option (Settings d.Double)
  settings_of
        (_ ∷ population ∷ _ ∷ distance1 ∷ _ ∷ distance2 ∷ _ ∷ distance3 ∷ _ ∷ threshold ∷ _
          ∷ without ∷ _ ∷ mating ∷ _ ∷ small_node ∷ _ ∷ small_connection ∷ _ ∷ large_node ∷ _
          ∷ large_connection ∷ _ ∷ enable ∷ _ ∷ discriminator ∷ _ ∷ generations ∷ _ ∷ weight ∷ _
          ∷ function ∷ rest) =
      some (record {
        population_max = atoi population;
        organism_distance_1 = d.atof distance1;
        organism_distance_2 = d.atof distance2;
        organism_distance_3 = d.atof distance3;
        distance_threshold = d.atof threshold;
        percentage_offspring_without_crossover = d.atof without;
        probability_interspacies_mating = d.atof mating;
        smaller_populations_probability_adding_new_node = d.atof small_node;
        smaller_populations_probability_adding_new_connection = d.atof small_connection;
        larger_populations_probability_adding_new_node = d.atof large_node;
        larger_populations_probability_adding_new_connection = d.atof large_connection;
        prob_enable_an_disable_connection = d.atof enable;
        large_population_discriminator = d.atof discriminator;
        generations = atoi generations;
        probability_change_weight = d.atof weight;
        probability_change_node_function_per_node = d.atof function;
      })
  settings_of _ = none

  unfoldable pub load_user_definitions : List ℕ → Option (Settings d.Double)
  load_user_definitions text = settings_of (tokens text)

-- `historical_innovation` and `last_innovation`.
pub record Registered : Type 0 where
  pub rows : List (List ℤ)
  pub last : ℤ

-- The loop over the connections of the first genome: a pair of nodes has the innovation of its first
-- connection.
unfoldable pub register_all :
    {D : Type 0} → List (ConnectionGene D) → Registered → Option Registered
register_all [] r = some r
register_all (c ∷ cs) r = elim (obtain c.innovation c.in_node c.out_node r.rows) [
  | none ↦ none
  | some o ↦ register_all cs (record {
    rows = o.rows;
    last = if o.is_new && ltb_ℤ r.last c.innovation then c.innovation else r.last;
  })
]

module _ (d : Doubles) (exp fabs : d.Double → d.Double) (junk : Uninitialised d.Double) where
  -- `POPULATION_MAX` organisms with the genome and weights of their own.
  unfoldable pub first_organisms : ℕ → Organism d.Double → M d.Double (Unit {0})
  first_organisms zero o = pure tt
  first_organisms (suc n) o = do
    o' ← put_randoms_weight d o
    modify (λ p. record p { organisms = p.organisms ++ (o' ∷ []) })
    first_organisms n o

  -- The members before the organisms are made.
  abbrev pub first_population :
      (ℕ → ℕ) → Settings d.Double → Organism d.Double → Registered → Population d.Double
  first_population draws settings o r = record {
    settings = settings;
    expectative_iterations = d.of_int (pos 1);
    organisms = [];
    prev_organisms = [];
    current_niches = [];
    prev_niches = [];
    last_innovation = r.last +ℤ pos 1;
    last_node = pos (length o.genome.lnode_genes) -ℤ pos 1;
    last_row = pos (length o.genome.row_orderer_list);
    historical_nodes = [];
    historical_innovation = r.rows;
    historical_row = [];
    row_orderer_list = o.genome.row_orderer_list;
    champion = o;
    fitness_champion = d.of_int (pos 0);
    fitness_mean_of_past_generation = replicate 5 (d.of_int (pos 0));
    draws = draws;
  }

  unfoldable pub first_generation : Organism d.Double → ℤ → M d.Double (Unit {0})
  first_generation o population_max = do
    first_organisms (pos_part population_max) o
    modify (λ p. record p {
      prev_organisms = o ∷ [];
      current_niches = record { exist = true; organism_position = 0 ∷ [] } ∷ [];
    })
    spatiation d exp fabs

  abbrev first_organism : Encoding d.Double → Organism d.Double
  first_organism e = record (new_organism d junk e) { niche = pos 0 }

  -- The first organism, and the innovations of its connections.
  unfoldable pub make_first : List ℕ → Option (Organism d.Double × Registered)
  make_first text = elim (load d junk.node junk.connection text (no_genes d junk)) [
    | none ↦ none
    | some e ↦ elim (register_all e.lconnection_genes (record { rows = []; last = pos 0 })) [
      | none ↦ none
      | some r ↦ some (first_organism e, r)
    ]
  ]

  -- `Population(path1, path2, …)` on the texts of its files.
  unfoldable pub population : (ℕ → ℕ) → List ℕ → List ℕ → Option (Unit {0} × Population d.Double)
  population draws text1 text2 = elim (load_user_definitions d text1) [
    | none ↦ none
    | some settings ↦ elim (make_first text2) [
      | none ↦ none
      | some (o, r) ↦
          first_generation o settings.population_max (first_population draws settings o r)
    ]
  ]
