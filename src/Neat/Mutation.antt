-- ===== src/Neat/Mutation.antt =====
-- The mutations of proyecto/NEAT/src/NEAT.cpp.
use tareas_elo.Common.{
  ℕ, zero, suc, ◌+◌, ◌*◌, ◌%◌, ◌^◌, ◌≡◌, Option, none, some, List, [], ◌∷◌, ◌++◌, Bool, true, false,
  ◌&&◌, ◌==◌, if◌then◌else◌, not, length, get_elem?, set,
}
use tareas_elo.Common.Int.{ℤ, pos, negsuc, i32, read?}
use tareas_elo.Common.Doubles.{Doubles}
use tareas_elo.Neat.Genome.{
  ConnectionGene, NodeGene, Encoding, hidden, index, add_node, add_connection,
}
use tareas_elo.Neat.Draw.{Probabilities, empty_probabilities, add_element, take_one_randomly}
use tareas_elo.Neat.Population.{
  Population, Organism, Uninitialised, M, ◌>>=◌, ◌>>◌, pure, lift, get, rand, for_each, rand_max,
  rand_share,
}
use tareas_elo.Neat.History.{obtain_historical_node, obtain_innovation, obtain_row}
pub mod Weights
pub mod Sane
pub mod Kept
pub mod Genes

-- `sack_of_nodes_to_take`, and what stands for its elements.
pub record Sack (D A : Type 0) : Type 0 where
  pub probabilities : Probabilities D
  pub inverse : List A

-- 0, …, n - 1.
abbrev pub upto : ℕ → List ℕ
upto zero = []
upto (suc n) = upto n ++ (n ∷ [])

abbrev pub pairs_with : ℕ → List ℕ → List (ℕ × ℕ)
pairs_with a [] = []
pairs_with a (b ∷ bs) = (a, b) ∷ pairs_with a bs

-- The two loops of `mutation_connection`, in order.
abbrev pub pairs_of : List ℕ → List ℕ → List (ℕ × ℕ)
pairs_of [] bs = []
pairs_of (a ∷ xs) bs = pairs_with a bs ++ pairs_of xs bs

-- The int `2 * (rand() % RAND_MAX)`, which wraps around where it does not fit.
unfoldable pub doubled_draw : ℕ → ℤ
doubled_draw r = i32 (pos (2 * (r % rand_max)))

module _ (d : Doubles) where
  -- `2.0 * (rand() % 10000) / 10000.0 - 1.0`.
  abbrev pub random_weight : ℕ → d.Double
  random_weight r =
      d.sub (d.div (d.mul (d.of_int (pos 2)) (d.of_int (pos (r % 10000)))) (d.of_int (pos 10000)))
        (d.of_int (pos 1))

  -- `doubled_draw / (double)RAND_MAX - 1`.
  abbrev pub weight_delta : ℕ → d.Double
  weight_delta r =
      d.sub (d.div (d.of_int (doubled_draw r)) (d.of_int (pos rand_max))) (d.of_int (pos 1))

  -- `delta * 0.2 + 0.8 * weight`.
  abbrev pub moved_weight : ℕ → d.Double → d.Double
  moved_weight r weight =
      d.add (d.mul (weight_delta r) (d.div (d.of_int (pos 1)) (d.of_int (pos 5))))
        (d.mul (d.div (d.of_int (pos 4)) (d.of_int (pos 5))) weight)

  abbrev pub with_genome : Organism d.Double → Encoding d.Double → Organism d.Double
  with_genome o e = record o { genome = e }

  abbrev pub with_connection_genes :
      Organism d.Double → List (ConnectionGene d.Double) → Organism d.Double
  with_connection_genes o genes = with_genome o (record o.genome { lconnection_genes = genes })

  unfoldable pub put_random_weight : ConnectionGene d.Double → M d.Double (ConnectionGene d.Double)
  put_random_weight c = do r ← rand; pure (record c { weight = random_weight r })

  unfoldable pub put_randoms_weight : Organism d.Double → M d.Double (Organism d.Double)
  unfolding put_random_weight
  put_randoms_weight o = do
    genes ← for_each put_random_weight o.genome.lconnection_genes
    pure (with_connection_genes o genes)

  unfoldable pub change_weight : ConnectionGene d.Double → M d.Double (ConnectionGene d.Double)
  change_weight c = do
    p ← get
    r ← rand
    if d.le (rand_share d r) p.settings.probability_change_weight
        then (do r' ← rand; pure (record c { weight = moved_weight r' c.weight }))
        else pure c

  unfoldable pub mutation_change_weight : Organism d.Double → M d.Double (Organism d.Double)
  mutation_change_weight o = do
    genes ← for_each change_weight o.genome.lconnection_genes
    pure (with_connection_genes o genes)

  abbrev pub empty_sack : {A : Type 0} → Sack d.Double A
  empty_sack = record { probabilities = empty_probabilities d; inverse = [] }

  -- `add_element(0.0)`, and its meaning.
  abbrev pub put_in : {A : Type 0} → Sack d.Double A → A → Bool → Sack d.Double A
  put_in sack a true = record {
    probabilities = add_element d (d.of_int (pos 0)) sack.probabilities;
    inverse = sack.inverse ++ (a ∷ []);
  }
  put_in sack a false = sack

  -- `inverse.at(sack.take_one_randomly())`.
  unfoldable pub take_from : {A : Type 0} → Sack d.Double A → M d.Double A
  take_from sack = do
    r ← rand
    taken ← lift (take_one_randomly d r sack.probabilities)
    lift (get_elem? sack.inverse taken.0)

  -- Whether the genome lacks the node that splits the connection.
  unfoldable pub can_split : List (NodeGene d.Double) → ConnectionGene d.Double → M d.Double Bool
  can_split nodes c =
      if c.exist && c.enable
      then (do
        node ← obtain_historical_node c.in_node c.out_node
        n ← lift (index node)
        pure (elim (get_elem? nodes n) [ none ↦ true | some g ↦ not g.exist ]))
      else pure false

  -- The connections from the i-th on that can be split.
  unfoldable pub splittable :
      List (NodeGene d.Double)
      → ℕ
      → List (ConnectionGene d.Double)
      → Sack d.Double ℕ
      → M d.Double (Sack d.Double ℕ)
  splittable nodes i [] sack = pure sack
  splittable nodes i (c ∷ cs) sack = do
    yes_it ← can_split nodes c
    splittable nodes (i + 1) cs (put_in sack i yes_it)

  -- Whether the genome lacks the connection.
  unfoldable pub can_connect : Encoding d.Double → ℕ × ℕ → M d.Double Bool
  can_connect e (in_node, out_node) = if in_node == out_node then pure false else do
    a ← lift (get_elem? e.lnode_genes in_node)
    b ← lift (get_elem? e.lnode_genes out_node)
    if a.exist && b.exist
        then (do
          innovation ← obtain_innovation (pos in_node) (pos out_node)
          n ← lift (index innovation)
          pure (elim (get_elem? e.lconnection_genes n) [ none ↦ true | some c ↦ not c.exist ]))
        else pure false

  unfoldable pub connectable :
      Encoding d.Double → List (ℕ × ℕ) → Sack d.Double (ℕ × ℕ) → M d.Double (Sack d.Double (ℕ × ℕ))
  connectable e [] sack = pure sack
  connectable e (pair ∷ pairs) sack = do
    yes_it ← can_connect e pair
    connectable e pairs (put_in sack pair yes_it)

module _ (d : Doubles) (junk : Uninitialised d.Double) where
  -- Two connections, by way of the new node, in place of the old one, which is disabled.
  unfoldable pub connect_node :
      Organism d.Double
      → ℕ
      → ConnectionGene d.Double
      → ℤ
      → Encoding d.Double
      → M d.Double (Organism d.Double)
  connect_node o chosen c node e = do
    innov1 ← obtain_innovation c.in_node node
    innov2 ← obtain_innovation node c.out_node
    e1 ← lift (
        add_connection d junk.connection innov1 c.in_node node (d.of_int (pos 1)) (record e {
          lconnection_genes = set e.lconnection_genes chosen (record c { enable = false });
        }))
    e2 ← lift (add_connection d junk.connection innov2 node c.out_node c.weight e1)
    pure (with_genome d o e2)

  -- The rest of `mutation_node` once the connection at `chosen` is to be split.
  unfoldable pub split_connection :
      Organism d.Double → ℕ → ConnectionGene d.Double → M d.Double (Organism d.Double)
  split_connection o chosen c = do
    node ← obtain_historical_node c.in_node c.out_node
    from ← lift (read? o.genome.lnode_genes c.in_node)
    to ← lift (read? o.genome.lnode_genes c.out_node)
    row ← obtain_row node from.row to.row
    r ← rand
    e ← lift (add_node d junk.node r node row hidden o.genome)
    p ← get
    connect_node o chosen c node (record e { row_orderer_list = p.row_orderer_list })

  -- exit(1) where no connection can be split.
  unfoldable pub mutation_node : Organism d.Double → M d.Double (Organism d.Double)
  mutation_node o = do
    sack ← splittable d o.genome.lnode_genes 0 o.genome.lconnection_genes (empty_sack d)
    if length sack.inverse == 0 then lift none else do
      chosen ← take_from d sack
      c ← lift (get_elem? o.genome.lconnection_genes chosen)
      split_connection o chosen c

  -- The order of rows, inverted, is computed and not used.
  unfoldable pub mutation_connection : Organism d.Double → M d.Double (Organism d.Double)
  mutation_connection o = do
    let nodes = upto (length o.genome.lnode_genes)
    sack ← connectable d o.genome (pairs_of nodes nodes) (empty_sack d)
    if length sack.inverse == 0 then pure o else do
      pair ← take_from d sack
      innovation ← obtain_innovation (pos pair.0) (pos pair.1)
      r ← rand
      e ← lift (
          add_connection d junk.connection innovation (pos pair.0) (pos pair.1) (weight_delta d r)
            o.genome)
      pure (with_genome d o e)
