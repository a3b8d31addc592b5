-- ===== src/Neat/Genome/Added.antt =====
-- Genes added where the genome has none: `add_node` and `add_connection` of
-- proyecto/NEAT/src/genetic_encoding.cpp, seen gene by gene.
use tareas_elo.Common.{
  ◌∙◌, arith, ℕ, ◌+◌, ◌≡◌, refl, ap, some, List, get_elem?, if◌then◌else◌, Bool, true, ◌&&◌, ◌==◌,
  ◌⊎◌,
}
use tareas_elo.Common.Int.{ℤ, pos}
use tareas_elo.Common.Doubles.{Doubles}
use tareas_elo.Neat.Slots.{tally, store-free, store-tally, store-origin}
use tareas_elo.Neat.Genome.{
  ConnectionGene, NodeGene, Encoding, index, connection_gene, missing_connection, missing_node,
  add_connection_gene, add_node_gene,
}
use tareas_elo.Neat.Genome.Rows.{push_at-add_rows}
use tareas_elo.Neat.Genome.Nodes.{new_gene, added}

-- An existing gene is the new one at n, or an old one.
abbrev pub Origin : {G : Type 0} → (G → Bool) → ℕ → G → List G → List G → Type 0
Origin {G} exist n new old genes =
    (i : ℕ) (g : G)
    → get_elem? genes i ≡ some g
    → exist g ≡ true
    → ((i ≡ n) × (g ≡ new)) ⊎ (get_elem? old i ≡ some g)

-- There is a gene at n now, and elsewhere where there was one.
abbrev pub OneMore : {G : Type 0} → (G → Bool) → ℕ → List G → List G → Type 0
OneMore exist n old genes =
    (m : ℕ)
    → tally exist (λ _. true) genes m ≡ tally exist (λ _. true) old m + (if m == n then 1 else 0)

module _ (d : Doubles) where
  pub add_connection_gene-free :
      (junk c : ConnectionGene d.Double) (e : Encoding d.Double) (n : ℕ)
      → c.innovation ≡ pos n
      → tally (λ h. h.exist) (λ _. true) e.lconnection_genes n ≡ 0
      → (genes : List (ConnectionGene d.Double)) × (add_connection_gene d junk c e
          ≡ some (record e { lconnection_genes = genes }))
        × Origin
            (λ h. h.exist)
            n
            (connection_gene d c.innovation c.in_node c.out_node c.weight c.enable)
            e.lconnection_genes
            genes
        × OneMore (λ h. h.exist) n e.lconnection_genes genes
  unfolding add_connection_gene
  add_connection_gene-free junk c e n at_n free =
      let new = connection_gene d c.innovation c.in_node c.out_node c.weight c.enable in
      let missing = missing_connection d junk in
      let (genes, stored) = store-free (λ h. h.exist) missing new n e.lconnection_genes free in
      (
        genes,
        rw (ap index at_n, stored) refl,
        store-origin (λ h. h.exist) missing new n e.lconnection_genes genes stored refl,
        λ m.
            store-tally (λ h. h.exist) missing new n e.lconnection_genes genes stored refl
              (λ _. true) m refl
            ∙ plus_one m,
      )
    where
      plus_one :
          (m : ℕ)
          → tally (λ h. h.exist) (λ _. true) e.lconnection_genes m
              + (if m == n && true then 1 else 0)
            ≡ tally (λ h. h.exist) (λ _. true) e.lconnection_genes m + (if m == n then 1 else 0)
      plus_one m = ground arith

  pub add_node_gene-free :
      (junk g : NodeGene d.Double) (e : Encoding d.Double) (n k : ℕ)
      → g.node ≡ pos n
      → g.row ≡ pos k
      → tally (λ h. h.exist) (λ _. true) e.lnode_genes n ≡ 0
      → (genes : List (NodeGene d.Double)) × (rows : List (List ℤ)) × (add_node_gene d junk g e
          ≡ some (added d junk g e genes rows))
        × Origin (λ h. h.exist) n (new_gene d junk g e) e.lnode_genes genes
        × OneMore (λ h. h.exist) n e.lnode_genes genes
  unfolding add_node_gene
  add_node_gene-free junk g e n k at_n at_k free =
      let missing = missing_node d junk in
      let (genes, stored) =
        store-free (λ h. h.exist) missing (new_gene d junk g e) n e.lnode_genes free in
      let (rows, pushed) = push_at-add_rows k g.node e.nodes_at_row in
      (
        genes,
        rows,
        rw (ap index at_n, stored, ap index at_k, pushed) refl,
        store-origin (λ h. h.exist) missing (new_gene d junk g e) n e.lnode_genes genes stored refl,
        λ m.
            store-tally (λ h. h.exist) missing (new_gene d junk g e) n e.lnode_genes genes stored
              refl (λ _. true) m refl
            ∙ plus_one m,
      )
    where
      plus_one :
          (m : ℕ)
          → tally (λ h. h.exist) (λ _. true) e.lnode_genes m + (if m == n && true then 1 else 0)
            ≡ tally (λ h. h.exist) (λ _. true) e.lnode_genes m + (if m == n then 1 else 0)
      plus_one m = ground arith
