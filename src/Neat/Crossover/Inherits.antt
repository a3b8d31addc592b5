-- ===== src/Neat/Crossover/Inherits.antt =====
-- What an organism has from its parents in `crossover` (proyecto/NEAT/src/NEAT.cpp).
use tareas_elo.Neat.Genome.Nodes.{ordered-WellFormed, WellFormed}
use tareas_elo.Common.{
  ap, ◌∙◌, arith, Bool, true, min, ◌⊎◌, inl, inr, ℕ, ◌≡◌, refl, some, List, [], get_elem?, ◌+◌,
}
use tareas_elo.Neat.Population.Drawing.{Draws-map, Draws, Draws-bind, Draws-pure, Draws-get}
use tareas_elo.Neat.Crossover.Nodes.{AllGood, OkNodes, node-Adds, node-Picks, GoodNode}
use tareas_elo.Neat.Crossover.Connections.{OkConnections, connection-Adds, GoodConnection, SetSo}
use tareas_elo.Neat.Crossover.Picks.{connection-Picks, connection-Ones}
use tareas_elo.Neat.Crossover.Loop.{cross-returns}
use tareas_elo.Neat.Genome.{add_node_gene, add_connection_gene, ConnectionGene, NodeGene, Encoding}
use tareas_elo.Neat.Population.{Population, Organism, Uninitialised, M, get}
use tareas_elo.Neat.Slots.{tally}
use tareas_elo.Neat.Crossover.{cross, existing, pick_connection, pick_node, no_genes, crossover}
use tareas_elo.Neat.Crossover.Choices.{Inherits, SameConnection, SameNode}
use tareas_elo.Common.Doubles.{Doubles}

no_genes-WellFormed : (d : Doubles) (junk : Uninitialised d.Double) → WellFormed (no_genes d junk)
no_genes-WellFormed d junk = record {
  numbers = λ i g at present. absurd cc;
  placed = λ i g at present. absurd cc;
  rows = λ r n. refl;
  outputs = λ n. refl;
  innovations = λ i c at present. absurd cc;
}

-- A node of a well-formed parent.
good_nodes :
    (d : Doubles) (junk : Uninitialised d.Double) (a b : Encoding d.Double)
    (connections : List (ConnectionGene d.Double)) (e : Encoding d.Double)
    → WellFormed e
    → ((i : ℕ) (g : NodeGene d.Double)
        → get_elem? e.lnode_genes i ≡ some g
        → (get_elem? a.lnode_genes i ≡ some g) ⊎ (get_elem? b.lnode_genes i ≡ some g))
    → AllGood d junk a.lnode_genes b.lnode_genes connections e.lnode_genes
good_nodes d junk a b connections e ok from i g at present = (
  present,
  ok.numbers i g at present,
  ok.placed i g at present,
  (g, (from i g at, present), (refl, refl, refl, refl)),
)

-- There is a gene where a parent has one.
abbrev pub UnionOf : {G : Type 0} → (G → Bool) → List G → List G → List G → Type 0
UnionOf exist xs ys genes =
    (k : ℕ)
    → tally exist (λ _. true) genes k
      ≡ min 1 (tally exist (λ _. true) xs k + tally exist (λ _. true) ys k)

pub record IsChild (d : Doubles) (probability : d.Double) (a b e : Encoding d.Double) : Type 0 where
  pub well_formed : WellFormed e
  pub connections :
      Inherits
        (λ c. c.exist)
        (SameConnection d probability a.lconnection_genes b.lconnection_genes)
        a.lconnection_genes
        b.lconnection_genes
        e.lconnection_genes
  pub all_connections :
      UnionOf (λ c. c.exist) a.lconnection_genes b.lconnection_genes e.lconnection_genes
  pub nodes : Inherits (λ g. g.exist) (λ i. SameNode) a.lnode_genes b.lnode_genes e.lnode_genes
  pub all_nodes : UnionOf (λ g. g.exist) a.lnode_genes b.lnode_genes e.lnode_genes

from_zero :
    {G : Type 0} (exist : G → Bool) (xs ys genes : List G)
    → ((k : ℕ)
        → tally exist (λ _. true) genes (k + 0)
          ≡ min 1 (tally exist (λ _. true) xs k + tally exist (λ _. true) ys k))
    → UnionOf exist xs ys genes
from_zero exist xs ys genes h k = ap (tally exist (λ _. true) genes) (omega arith) ∙ h k

module _ (d : Doubles) (junk : Uninitialised d.Double) (a b : Encoding d.Double)
    (ok_a : WellFormed a) (ok_b : WellFormed b) where
  connect : M d.Double (Encoding d.Double)
  connect =
      cross (pick_connection d junk) (existing (λ c. c.exist))
        (add_connection_gene d junk.connection) a.lconnection_genes b.lconnection_genes
        (no_genes d junk)

  join : Encoding d.Double → M d.Double (Encoding d.Double)
  join e =
      cross (pick_node d junk) (existing (λ g. g.exist)) (add_node_gene d junk.node) a.lnode_genes
        b.lnode_genes e

  connect-returns :
      (probability : d.Double) (p : Population d.Double)
      → p.settings.prob_enable_an_disable_connection ≡ probability
      → Draws connect p (λ e.
        OkConnections d junk probability a.lconnection_genes b.lconnection_genes e
        × UnionOf (λ c. c.exist) a.lconnection_genes b.lconnection_genes e.lconnection_genes)
  unfolding connect
  connect-returns probability p set_so =
      Draws-map connect p _ _
        (cross-returns (λ c. c.exist) (pick_connection d junk)
          (add_connection_gene d junk.connection) (λ e. e.lconnection_genes)
          (OkConnections d junk probability a.lconnection_genes b.lconnection_genes)
          (GoodConnection d junk probability a.lconnection_genes b.lconnection_genes)
          a.lconnection_genes b.lconnection_genes
          (SetSo d junk probability a.lconnection_genes b.lconnection_genes)
          (connection-Adds d junk probability a.lconnection_genes b.lconnection_genes)
          (connection-Picks d junk probability a.lconnection_genes b.lconnection_genes
            ok_a.innovations ok_b.innovations)
          (connection-Ones d junk probability a.lconnection_genes b.lconnection_genes
            ok_a.innovations ok_b.innovations)
          (λ q r (draws, e) h.
            ap (λ (s : Population d.Double). s.settings.prob_enable_an_disable_connection) e ∙ h)
          0 a.lconnection_genes b.lconnection_genes (no_genes d junk) p
          (no_genes-WellFormed d junk, ((λ i c at present. absurd cc), refl)) (λ m h. refl) set_so
          (λ k. ap (get_elem? a.lconnection_genes) (omega arith))
          (λ k. ap (get_elem? b.lconnection_genes) (omega arith)))
        (λ e (ok, _, all). (
          ok,
          from_zero (λ c. c.exist) a.lconnection_genes b.lconnection_genes e.lconnection_genes all,
        ))

  join-returns :
      (e : Encoding d.Double) (p : Population d.Double)
      → WellFormed e
      → e.lnode_genes ≡ []
      → Draws (join e) p (λ e'.
        OkNodes d junk a.lnode_genes b.lnode_genes e.lconnection_genes e'
        × UnionOf (λ g. g.exist) a.lnode_genes b.lnode_genes e'.lnode_genes)
  unfolding join
  join-returns e p ok no_nodes =
      Draws-map (join e) p _ _
        (cross-returns (λ g. g.exist) (pick_node d junk) (add_node_gene d junk.node)
          (λ h. h.lnode_genes) (OkNodes d junk a.lnode_genes b.lnode_genes e.lconnection_genes)
          (GoodNode d junk a.lnode_genes b.lnode_genes e.lconnection_genes) a.lnode_genes
          b.lnode_genes (λ p. Unit {0})
          (node-Adds d junk a.lnode_genes b.lnode_genes e.lconnection_genes)
          (node-Picks d junk a.lnode_genes b.lnode_genes e.lconnection_genes good_a good_b)
          (λ i g here there. elim here [
            | inl (at, other) ↦ good_a i g at there
            | inr (at, other) ↦ good_b i g at there
          ])
          (λ q r drawn h. tt) 0 a.lnode_genes b.lnode_genes e p
          (ok, ((λ i g at present. absurd (none_there i g at)), refl)) (λ m h. rw no_nodes refl) tt
          (λ k. ap (get_elem? a.lnode_genes) (omega arith))
          (λ k. ap (get_elem? b.lnode_genes) (omega arith)))
        (λ e' (ok', _, all).
          (ok', from_zero (λ g. g.exist) a.lnode_genes b.lnode_genes e'.lnode_genes all))
    where
      none_there : (i : ℕ) (g : NodeGene d.Double) → get_elem? e.lnode_genes i ≡ some g → ⊥
      none_there i g at = cc (rw no_nodes at at)

      good_a : AllGood d junk a.lnode_genes b.lnode_genes e.lconnection_genes a.lnode_genes
      good_a = good_nodes d junk a b e.lconnection_genes a ok_a (λ i g at. inl at)

      good_b : AllGood d junk a.lnode_genes b.lnode_genes e.lconnection_genes b.lnode_genes
      good_b = good_nodes d junk a b e.lconnection_genes b ok_b (λ i g at. inr at)

pub crossover-IsChild :
    (d : Doubles) (junk : Uninitialised d.Double) (orgm1 orgm2 : Organism d.Double)
    (p : Population d.Double)
    → WellFormed orgm1.genome
    → WellFormed orgm2.genome
    → Draws (crossover d junk orgm1 orgm2) p (λ o.
      IsChild d p.settings.prob_enable_an_disable_connection orgm1.genome orgm2.genome o.genome)
unfolding crossover connect join
crossover-IsChild d junk orgm1 orgm2 p ok1 ok2 =
    Draws-bind (connect d junk orgm1.genome orgm2.genome ok1 ok2) _ p _ _
      (connect-returns d junk orgm1.genome orgm2.genome ok1 ok2
        p.settings.prob_enable_an_disable_connection p refl)
      (λ e q drawn ((ok, (inherits, no_nodes)), all).
        Draws-bind (join d junk orgm1.genome orgm2.genome ok1 ok2 e) _ q _ _
          (join-returns d junk orgm1.genome orgm2.genome ok1 ok2 e q ok no_nodes)
          (λ e' r drawn' ((ok', (inherits', same)), all').
            Draws-bind get _ r _ _ (Draws-get r) (λ s r' drawn'' _. Draws-pure _ r' _ (record {
              well_formed = ordered-WellFormed e' s.row_orderer_list ok';
              connections = rw same inherits;
              all_connections = rw same all;
              nodes = inherits';
              all_nodes = all';
            }))))
