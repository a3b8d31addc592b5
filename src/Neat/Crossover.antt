-- ===== src/Neat/Crossover.antt =====
-- `crossover` of proyecto/NEAT/src/NEAT.cpp: the genes of two parents side by side.
use tareas_elo.Common.{
  ℕ, ◌%◌, ◌≡◌, Option, none, some, List, [], ◌∷◌, Bool, true, false, ◌&&◌, ◌||◌, if◌then◌else◌, leb,
  not,
}
use tareas_elo.Common.Int.{pos}
use tareas_elo.Common.Doubles.{Doubles}
use tareas_elo.Neat.Genome.{ConnectionGene, NodeGene, Encoding, add_node_gene, add_connection_gene}
use tareas_elo.Neat.Population.{
  Population, Organism, Uninitialised, M, ◌>>=◌, ◌>>◌, pure, lift, get, rand, rand_share,
  new_organism,
}
pub mod Loop
mod Choices
mod Connections
mod Picks
mod Nodes
pub mod Inherits

module _ {D G : Type 0} (pick : G → G → M D (Option G)) (one : G → Option G)
    (add : G → Encoding D → Option (Encoding D)) where
  abbrev pub add_picked : Option G → Encoding D → M D (Encoding D)
  add_picked none e = pure e
  add_picked (some g) e = lift (add g e)

  -- The loops of `crossover`, over connections and over nodes: `pick` chooses where both parents
  -- have a slot, `one` takes the gene of the longer one behind the end of the other.
  unfoldable pub cross : List G → List G → Encoding D → M D (Encoding D)
  cross [] [] e = pure e
  cross [] (b ∷ bs) e = add_picked (one b) e >>= cross [] bs
  cross (a ∷ xs) [] e = add_picked (one a) e >>= cross xs []
  cross (a ∷ xs) (b ∷ bs) e = do c ← pick a b; e' ← add_picked c e; cross xs bs e'

module _ {G : Type 0} (exist : G → Bool) where
  abbrev pub existing : G → Option G
  existing g = if exist g then some g else none

module _ (d : Doubles) (junk : Uninitialised d.Double) where
  -- `(rand() % 10 >= 5) ? a : b`.
  unfoldable pub toss : {G : Type 0} → G → G → M d.Double (Option G)
  toss a b = do r ← rand; pure (some (if leb 5 (r % 10) then a else b))

  -- The gene, enabled (again) with the probability of the settings.
  unfoldable pub maybe_enable :
      ConnectionGene d.Double → M d.Double (Option (ConnectionGene d.Double))
  maybe_enable c = do
    p ← get
    r ← rand
    pure (
        some (
          if d.lt (rand_share d r) p.settings.prob_enable_an_disable_connection
          then record c { enable = true }
          else c))

  -- Where one of two existing genes is disabled: the first if it is, else the second.
  unfoldable pub pick_connection :
      ConnectionGene d.Double
      → ConnectionGene d.Double
      → M d.Double (Option (ConnectionGene d.Double))
  pick_connection a b =
      if a.exist && b.exist
      then (if a.enable && b.enable then toss a b else maybe_enable (if not a.enable then a else b))
      else pure (if a.exist then some a else existing (λ c. c.exist) b)

  unfoldable pub pick_node :
      NodeGene d.Double → NodeGene d.Double → M d.Double (Option (NodeGene d.Double))
  pick_node a b =
      if a.exist && b.exist
      then toss a b
      else pure (if a.exist then some a else existing (λ g. g.exist) b)

  -- An organism with nothing in it but empty vectors.
  abbrev pub no_genes : Encoding d.Double
  no_genes = record {
    lconnection_genes = [];
    lnode_genes = [];
    row_orderer_list = [];
    nodes_at_row = [];
    outputs_positions = [];
  }

  unfoldable pub crossover : Organism d.Double → Organism d.Double → M d.Double (Organism d.Double)
  crossover orgm1 orgm2 = do
    connected ←
        cross pick_connection (existing (λ c. c.exist)) (add_connection_gene d junk.connection)
          orgm1.genome.lconnection_genes orgm2.genome.lconnection_genes no_genes
    e ←
        cross pick_node (existing (λ g. g.exist)) (add_node_gene d junk.node)
          orgm1.genome.lnode_genes orgm2.genome.lnode_genes connected
    p ← get
    pure (new_organism d junk (record e { row_orderer_list = p.row_orderer_list }))
