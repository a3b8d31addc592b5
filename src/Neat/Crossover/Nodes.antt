-- ===== src/Neat/Crossover/Nodes.antt =====
-- The nodes of `crossover` (proyecto/NEAT/src/NEAT.cpp).
use tareas_elo.Common.{
  ℕ, ◌≡◌, sym, subst, List, true, get_elem?, some, ◌&&◌, ◌||◌, arith, Bool-cases, inl, inr,
}
use tareas_elo.Common.Int.{pos}
use tareas_elo.Common.Doubles.{Doubles}
use tareas_elo.Neat.Genome.{ConnectionGene, NodeGene, Encoding, add_node_gene}
use tareas_elo.Neat.Genome.Nodes.{WellFormed, added, add_node_gene-WellFormed}
use tareas_elo.Neat.Genome.Added.{add_node_gene-free}
use tareas_elo.Neat.Population.{Uninitialised}
use tareas_elo.Neat.Population.Drawing.{Draws}
use tareas_elo.Neat.Crossover.{toss, pick_node}
use tareas_elo.Neat.Crossover.Loop.{Picked, Adds, Picks}
use tareas_elo.Neat.Crossover.Choices.{SameNode, FromEither, Inherits, toss-Picked, one_of-Picked}

module _ (d : Doubles) (junk : Uninitialised d.Double) (xs ys : List (NodeGene d.Double))
    (connections : List (ConnectionGene d.Double)) where
  abbrev Parent : ℕ → NodeGene d.Double → Type 0
  Parent i g =
      (parent : NodeGene d.Double) × FromEither (λ g. g.exist) xs ys i parent × SameNode g parent

  abbrev pub GoodNode : ℕ → NodeGene d.Double → Type 0
  GoodNode i g = (g.exist ≡ true) × (g.node ≡ pos i) × ((k : ℕ) × (g.row ≡ pos k)) × Parent i g

  abbrev pub OkNodes : Encoding d.Double → Type 0
  OkNodes e =
      WellFormed e
      × (Inherits (λ g. g.exist) (λ i. SameNode) xs ys e.lnode_genes
          × (e.lconnection_genes ≡ connections))

  pub node-Adds :
      Adds
        (λ g. g.exist)
        (pick_node d junk)
        (add_node_gene d junk.node)
        (λ e. e.lnode_genes)
        OkNodes
        GoodNode
  node-Adds i g e (ok, (inherits, same_connections)) (there, number, (k, row), parent) free =
      let (genes, rows, run, origin, tallies) =
        add_node_gene-free d junk.node g e i k number row free in
      (
        added d junk.node g e genes rows,
        run,
        (
          add_node_gene-WellFormed d junk.node g e _ ok run,
          (
            λ m h at present. elim (origin m h at present) [
              | inl (here, same) ↦
                  subst (λ n. Parent n h) (sym here) (subst (λ o. Parent i o) (sym same) parent)
              | inr was ↦ inherits m h was present
            ],
            same_connections,
          ),
        ),
        tallies,
      )

  -- A node of a parent may stand at its place.
  abbrev pub AllGood : List (NodeGene d.Double) → Type 0
  AllGood zs =
      (i : ℕ) (g : NodeGene d.Double) → get_elem? zs i ≡ some g → g.exist ≡ true → GoodNode i g

  pub node-Picks :
      AllGood xs
      → AllGood ys
      → Picks
          (λ g. g.exist)
          (pick_node d junk)
          (add_node_gene d junk.node)
          (λ e. e.lnode_genes)
          OkNodes
          GoodNode
          xs
          ys
          (λ p. Unit {0})
  unfolding pick_node
  node-Picks all1 all2 p i a b here at1 at2 = elim (Bool-cases (a.exist && b.exist)) [
    | inr not_both ↦ rw not_both (
        one_of-Picked d junk (λ g. g.exist) GoodNode p i a b not_both (all1 i a at1) (all2 i b at2))
    | inl both ↦ rw both (
        subst (λ t. Draws (toss d junk a b) p (Picked GoodNode i t)) (sym (either_exists both))
          (toss-Picked d junk GoodNode p i a b (all1 i a at1 (first both))
            (all2 i b at2 (second both))))
  ]
    where
      first : (a.exist && b.exist) ≡ true → a.exist ≡ true
      first both = ground arith

      second : (a.exist && b.exist) ≡ true → b.exist ≡ true
      second both = ground arith

      either_exists : (a.exist && b.exist) ≡ true → (a.exist || b.exist) ≡ true
      either_exists both = ground arith
