-- ===== src/Neat/Mutation/Genes.antt =====
-- That adding nodes and connections by mutation (proyecto/NEAT/src/NEAT.cpp) keeps genomes well-
-- formed.
use tareas_elo.Neat.Mutation.{
  connect_node, with_genome, empty_sack, split_connection, mutation_node, mutation_connection, upto,
  pairs_of, weight_delta,
}
use tareas_elo.Neat.Genome.Nodes.{
  ordered-WellFormed, WellFormed, add_node_gene-WellFormed, add_connection_gene-WellFormed,
}
use tareas_elo.Common.{
  ℕ, ◌≡◌, sym, ◌∙◌, ap, none, some, List, true, false, ◌==◌, length, get_elem?, set, >>=-eq-some,
  ℕ_discrete, get_elem?-set_self, get_elem?-set_ne, length-set, arith, dec_lt, get_elem?-outside,
}
use mathlib.Core.Option.{some-injective}
use tareas_elo.Common.Int.{ℤ, pos, read?}
use tareas_elo.Common.Doubles.{Doubles}
use tareas_elo.Neat.Functions.{get_random_function}
use tareas_elo.Neat.Genome.{
  ConnectionGene, Encoding, GeneType, hidden, node_gene, add_node, connection_gene,
}
use tareas_elo.Neat.Population.{Organism, Uninitialised, get, rand}
use tareas_elo.Neat.Population.Rules.{
  Keeps, Keeps-bind, Keeps-pure, Keeps-lift, Keeps-then, Keeps-lifted, Keeps-if, Keeps-get,
}
use tareas_elo.Neat.Mutation.Sane.{
  Sane, rand-Sane, obtain_innovation-Sane, obtain_historical_node-Sane, obtain_row-Sane,
}
use tareas_elo.Neat.Mutation.Kept.{
  GoodOrganism, connections-WellFormed, take_from-Sane, splittable-Sane, connectable-Sane,
}

-- A connection disabled at its place.
disabled-WellFormed :
    {D : Type 0} (e : Encoding D) (chosen : ℕ) (c : ConnectionGene D)
    → WellFormed e
    → (c.exist ≡ true → c.innovation ≡ pos chosen)
    → WellFormed (record e {
      lconnection_genes = set e.lconnection_genes chosen (record c { enable = false });
    })
disabled-WellFormed {D} e chosen c ok number = connections-WellFormed e _ ok (λ i h at present.
    elim (ℕ_discrete i chosen) [
      | no other ↦
          ok.innovations i h
            (sym (get_elem?-set_ne e.lconnection_genes chosen i disabled (λ same. other (sym same)))
              ∙ at)
            present
      | yes here ↦ elim (dec_lt chosen (length e.lconnection_genes)) [
        | no outside ↦ absurd (
            cc (
              sym (
                get_elem?-outside (set e.lconnection_genes chosen disabled) i
                  (omega (arith, length-set e.lconnection_genes chosen disabled)))
              ∙ at))
        | yes inside ↦
            let same = some-injective disabled h (
              sym (get_elem?-set_self e.lconnection_genes chosen disabled inside)
              ∙ (ap (get_elem? (set e.lconnection_genes chosen disabled)) (sym here) ∙ at)) in
            ap (λ (o : ConnectionGene D). o.innovation) (sym same)
            ∙ number (ap (λ (o : ConnectionGene D). o.exist) same ∙ present)
            ∙ ap pos (sym here)
      ]
    ])
  where
    disabled : ConnectionGene D
    disabled = record c { enable = false }

module _ (d : Doubles) (junk : Uninitialised d.Double) where
  add_node-WellFormed :
      (r : ℕ) (node row : ℤ) (type : GeneType) (e e' : Encoding d.Double)
      → WellFormed e
      → add_node d junk.node r node row type e ≡ some e'
      → WellFormed e'
  unfolding add_node
  add_node-WellFormed r node row type e e' ok run =
      let (f, drawn, added) = >>=-eq-some (get_random_function r) _ run in
      add_node_gene-WellFormed d junk.node (node_gene d node type row f) e e' ok added

  connect_node-WellFormed :
      (o : Organism d.Double) (chosen : ℕ) (c : ConnectionGene d.Double) (node : ℤ)
      (e : Encoding d.Double)
      → WellFormed o.genome
      → get_elem? o.genome.lconnection_genes chosen ≡ some c
      → WellFormed e
      → Keeps Sane (GoodOrganism d) (connect_node d junk o chosen c node e)
  unfolding connect_node
  connect_node-WellFormed o chosen c node e ok at ok' =
      Keeps-then Sane (GoodOrganism d) _ _ (obtain_innovation-Sane c.in_node node) (λ innov1.
        Keeps-then Sane (GoodOrganism d) _ _ (obtain_innovation-Sane node c.out_node) (λ innov2.
          Keeps-lifted Sane (GoodOrganism d) _ _ (λ e1 run1.
            Keeps-lifted Sane (GoodOrganism d) _ _ (λ e2 run2.
              Keeps-pure Sane (GoodOrganism d) (with_genome d o e2) (
                add_connection_gene-WellFormed d junk.connection
                  (connection_gene d innov2 node c.out_node c.weight true) e1 e2
                  (add_connection_gene-WellFormed d junk.connection
                    (connection_gene d innov1 c.in_node node (d.of_int (pos 1)) true) _ e1
                    (disabled-WellFormed e chosen c ok' (ok.innovations chosen c at)) run1)
                  run2)))))

  split_connection-WellFormed :
      (o : Organism d.Double) (chosen : ℕ) (c : ConnectionGene d.Double)
      → WellFormed o.genome
      → get_elem? o.genome.lconnection_genes chosen ≡ some c
      → Keeps Sane (GoodOrganism d) (split_connection d junk o chosen c)
  unfolding split_connection
  split_connection-WellFormed o chosen c ok at =
      Keeps-then Sane (GoodOrganism d) _ _ (obtain_historical_node-Sane c.in_node c.out_node)
        (λ node.
          Keeps-lifted Sane (GoodOrganism d) (read? o.genome.lnode_genes c.in_node) _ (λ from _.
            Keeps-lifted Sane (GoodOrganism d) (read? o.genome.lnode_genes c.out_node) _ (λ to _.
              Keeps-then Sane (GoodOrganism d) _ _ (obtain_row-Sane node from.row to.row) (λ row.
                Keeps-then Sane (GoodOrganism d) rand _ rand-Sane (λ r.
                  Keeps-lifted Sane (GoodOrganism d) _ _ (λ e added.
                    Keeps-bind Sane Sane (GoodOrganism d) get _ (Keeps-get Sane) (λ p _.
                      connect_node-WellFormed o chosen c node _ ok at (
                        ordered-WellFormed e p.row_orderer_list
                          (add_node-WellFormed r node row hidden o.genome e ok added)))))))))

  -- Splitting a connection of a well-formed organism, where the process does not end, keeps it
  -- well-formed, and the population sane.
  pub mutation_node-WellFormed :
      (o : Organism d.Double)
      → WellFormed o.genome
      → Keeps Sane (GoodOrganism d) (mutation_node d junk o)
  unfolding mutation_node
  mutation_node-WellFormed o ok =
      Keeps-then Sane (GoodOrganism d) _ _
        (splittable-Sane d o.genome.lnode_genes 0 o.genome.lconnection_genes (empty_sack d))
        (λ sack.
          Keeps-if Sane (GoodOrganism d) (length sack.inverse == 0) _ _
            (λ _. Keeps-lift Sane (GoodOrganism d) none (λ a e. absurd cc))
            (λ _. Keeps-then Sane (GoodOrganism d) _ _ (take_from-Sane d sack) (λ chosen.
              Keeps-lifted Sane (GoodOrganism d) _ _
                (λ c at. split_connection-WellFormed o chosen c ok at))))

  pub mutation_connection-WellFormed :
      (o : Organism d.Double)
      → WellFormed o.genome
      → Keeps Sane (GoodOrganism d) (mutation_connection d junk o)
  unfolding mutation_connection
  mutation_connection-WellFormed o ok =
      Keeps-then Sane (GoodOrganism d) _ _
        (connectable-Sane d o.genome (pairs_of nodes nodes) (empty_sack d))
        (λ sack.
          Keeps-if Sane (GoodOrganism d) (length sack.inverse == 0) _ _
            (λ _. Keeps-pure Sane (GoodOrganism d) o ok)
            (λ _. Keeps-then Sane (GoodOrganism d) _ _ (take_from-Sane d sack) (λ pair.
              Keeps-then Sane (GoodOrganism d) _ _
                (obtain_innovation-Sane (pos pair.0) (pos pair.1))
                (λ innovation. Keeps-then Sane (GoodOrganism d) rand _ rand-Sane (λ r.
                  Keeps-lifted Sane (GoodOrganism d) _ _ (λ e run.
                    Keeps-pure Sane (GoodOrganism d) (with_genome d o e) (
                      add_connection_gene-WellFormed d junk.connection
                        (connection_gene d innovation (pos pair.0) (pos pair.1) (weight_delta d r)
                          true)
                        o.genome e ok run)))))))
    where
      nodes : List ℕ
      nodes = upto (length o.genome.lnode_genes)
