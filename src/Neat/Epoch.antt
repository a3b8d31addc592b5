-- ===== src/Neat/Epoch.antt =====
-- `epoch` of proyecto/NEAT/src/NEAT.cpp: one generation. The deviation and the greatest fitness of a
-- niche are only printed.
use tareas_elo.Common.{
  ℕ, zero, suc, ◌+◌, ◌≡◌, Option, none, some, List, [], ◌∷◌, ◌++◌, Bool, true, false, ◌||◌,
  if◌then◌else◌, length, get_elem?, set, take,
}
use tareas_elo.Common.Int.{ℤ, pos, pos_part}
use tareas_elo.Common.Doubles.{Doubles}
use tareas_elo.Neat.Draw.{
  Probabilities, empty_probabilities, add_element, obtain_uniformrandom_element,
}
use tareas_elo.Neat.Population.{
  Population, Organism, Niche, Uninitialised, M, ◌>>=◌, ◌>>◌, pure, lift, get, modify, rand,
}
use tareas_elo.Neat.Species.{spatiation}
use tareas_elo.Neat.Reproduce.{epoch_reproduce}
pub mod Kept

-- `temp_current_organisms` and `temp_current_niches`.
pub record Selection (D : Type 0) : Type 0 where
  pub organisms : List (Organism D)
  pub niches : List Niche

-- The members that the grading sets.
pub record Grading (D : Type 0) : Type 0 where
  pub organisms : List (Organism D)
  pub champion : Organism D
  pub fitness_champion : D
  pub total : D

module _ (d : Doubles) where
  -- The sum of the fitness of the organisms at some positions.
  unfoldable pub sum_fitness : List (Organism d.Double) → List ℕ → d.Double → Option d.Double
  sum_fitness os [] acc = some acc
  sum_fitness os (i ∷ is) acc = elim (get_elem? os i) [
    | none ↦ none
    | some o ↦ sum_fitness os is (d.add acc o.fitness)
  ]

  -- Those not below the mean go on, with their new positions.
  unfoldable pub select :
      List (Organism d.Double)
      → d.Double
      → List ℕ
      → List (Organism d.Double)
      → List ℕ
      → Option (List (Organism d.Double) × List ℕ)
  select os mean [] kept places = some (kept, places)
  select os mean (i ∷ is) kept places = elim (get_elem? os i) [
    | none ↦ none
    | some o ↦
        select os mean is (if d.le mean o.fitness then kept ++ (o ∷ []) else kept)
          (if d.le mean o.fitness then places ++ (length kept ∷ []) else places)
  ]

  -- For each niche, with the mean of its fitness. `exist` of the new niche is not set.
  unfoldable pub select_niches :
      (ℕ → Bool)
      → List (Organism d.Double)
      → List Niche
      → Selection d.Double
      → Option (Selection d.Double)
  select_niches junk os [] s = some s
  select_niches junk os (niche ∷ niches) s =
      elim (sum_fitness os niche.organism_position (d.of_int (pos 0))) [
        | none ↦ none
        | some sum ↦
            elim (select os (d.div sum (d.of_int (pos (length niche.organism_position))))
              niche.organism_position s.organisms []) [
                | none ↦ none
                | some (kept, places) ↦
                    select_niches (λ i. junk (suc i)) os niches
                      (record {
                        organisms = kept;
                        niches =
                            s.niches
                            ++ (record { exist = junk 0; organism_position = places } ∷ []);
                      })
              ]
      ]

  abbrev pub with_champion : Organism d.Double → Grading d.Double → Grading d.Double
  with_champion o g =
      if d.lt g.fitness_champion o.fitness
      then record g { champion = o; fitness_champion = o.fitness }
      else g

  -- The shared fitness of an organism in a niche of `size`, and the champion of all times.
  abbrev pub grade_one : ℕ → ℕ → Organism d.Double → Grading d.Double → Grading d.Double
  grade_one size i o g =
      let shared = d.div o.fitness (d.of_int (pos size)) in
      record (with_champion o g) {
        organisms = set g.organisms i (record o { shared_fitness = shared });
        total = d.add g.total shared;
      }

  unfoldable pub grade : ℕ → List ℕ → Grading d.Double → Option (Grading d.Double)
  grade size [] g = some g
  grade size (i ∷ is) g = elim (get_elem? g.organisms i) [
    | none ↦ none
    | some o ↦ grade size is (grade_one size i o g)
  ]

  unfoldable pub grade_niches : List Niche → Grading d.Double → Option (Grading d.Double)
  grade_niches [] g = some g
  grade_niches (niche ∷ niches) g =
      elim (grade (length niche.organism_position) niche.organism_position g) [
        | none ↦ none
        | some g' ↦ grade_niches niches g'
      ]

  -- `obtain_while_limit`, in both forms.
  abbrev pub obtain_while_limit : d.Double → d.Double
  obtain_while_limit amount_of_times =
      d.div amount_of_times (d.add amount_of_times (d.of_int (pos 1)))

  abbrev pub obtain_while_limit_int : ℤ → d.Double
  obtain_while_limit_int amount_of_times = obtain_while_limit (d.of_int amount_of_times)

  -- Whether the mean is above one of those in the window.
  abbrev pub above_some : d.Double → List d.Double → Bool
  above_some mean [] = false
  above_some mean (m ∷ ms) = d.lt m mean || above_some mean ms

  abbrev pub next_expectative : Bool → d.Double → d.Double
  next_expectative better iterations =
      if better
      then d.add iterations (d.of_int (pos 1))
      else if d.lt (d.div iterations (d.of_int (pos 2))) (d.of_int (pos 1))
      then d.of_int (pos 1)
      else d.div iterations (d.of_int (pos 2))

  -- `change_window_of_fitness_generation`; a window of less than five ends the process.
  abbrev shift_window : d.Double → List d.Double → Option (List d.Double)
  shift_window mean (a ∷ b ∷ c ∷ e ∷ f ∷ rest) = some (b ∷ c ∷ e ∷ f ∷ mean ∷ rest)
  shift_window mean _ = none

  unfoldable pub change_window_of_fitness_generation : d.Double → M d.Double (Unit {0})
  change_window_of_fitness_generation mean = do
    p ← get
    window ← lift (shift_window mean p.fitness_mean_of_past_generation)
    let better = above_some mean (take 5 p.fitness_mean_of_past_generation)
    modify (λ q. record q {
      expectative_iterations = next_expectative better p.expectative_iterations;
      fitness_mean_of_past_generation = window;
    })

  unfoldable pub shared_sack :
      List (Organism d.Double) → Probabilities d.Double → Probabilities d.Double
  shared_sack [] sack = sack
  shared_sack (o ∷ os) sack = shared_sack os (add_element d o.shared_fitness sack)

module _ (d : Doubles) (exp fabs : d.Double → d.Double) (junk : Uninitialised d.Double)
    (tries : ℕ) where
  -- The loop that fills the generation.
  unfoldable pub reproduce : ℕ → Probabilities d.Double → M d.Double (Unit {0})
  reproduce zero sack = pure tt
  reproduce (suc rounds) sack = do
    p ← get
    r ← rand
    k ← lift (obtain_uniformrandom_element d r sack)
    o ← lift (get_elem? p.prev_organisms k)
    child ← epoch_reproduce d junk tries o k
    modify (λ q. record q { organisms = q.organisms ++ (child ∷ []) })
    reproduce rounds sack

  -- The worst of each niche out, the others graded; then they are the generation before.
  unfoldable pub grade_generation : M d.Double (Unit {0})
  grade_generation = do
    p ← get
    s ← lift (
        select_niches d junk.niche_exist p.organisms p.current_niches
          (record { organisms = []; niches = [] }))
    g ← lift (
        grade_niches d s.niches (record {
          organisms = s.organisms;
          champion = p.champion;
          fitness_champion = p.fitness_champion;
          total = d.of_int (pos 0);
        }))
    modify (λ q. record q {
      current_niches = s.niches;
      organisms = [];
      prev_organisms = g.organisms;
      champion = g.champion;
      fitness_champion = g.fitness_champion;
    })
    change_window_of_fitness_generation d g.total

  unfoldable pub epoch : M d.Double (Unit {0})
  epoch = do
    grade_generation
    p ← get
    reproduce (pos_part p.settings.population_max)
        (shared_sack d p.prev_organisms (empty_probabilities d))
    spatiation d exp fabs
