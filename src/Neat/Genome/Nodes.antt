-- ===== src/Neat/Genome/Nodes.antt =====
-- What the lists of a genome say of its nodes (proyecto/NEAT/src/genetic_encoding.cpp).
use tareas_elo.Neat.Genome.Rows.{
  count, count-append, row_at, row_at-add_rows, row_at-push_at, push_at-add_rows,
}
use tareas_elo.Neat.Slots.{
  store-free, store-taken, store-here, store, tally, store-tally, store-origin,
}
use tareas_elo.Common.{
  subst, ℕ, ◌+◌, ◌≡◌, refl, sym, ap, Option, none, some, List, [], ◌∷◌, ◌++◌, get_elem?,
  if◌then◌else◌, Bool, true, ◌&&◌, ◌==◌, arith, inl, inr, Option-cases, Bool-cases, ◌∙◌,
  >>=-eq-some,
}
use mathlib.Core.Option.{some-injective}
use tareas_elo.Common.Int.{ℤ, pos, negsuc, eqb_ℤ}
use tareas_elo.Common.Doubles.{Doubles}
use tareas_elo.Neat.Genome.{
  ConnectionGene, NodeGene, Encoding, index, is_output, add_rows, push_at, node_gene, missing_node,
  add_node_gene, connection_gene, missing_connection, add_connection_gene,
}

-- A genome's lists agree: a gene stands at its number and is in a row, a row lists exactly the existing nodes of the
-- row, each once, and `outputs_positions` exactly the existing output nodes.
pub record WellFormed {D : Type 0} (e : Encoding D) : Type 0 where
  pub numbers :
      (i : ℕ) (g : NodeGene D)
      → get_elem? e.lnode_genes i ≡ some g
      → g.exist ≡ true
      → g.node ≡ pos i
  pub placed :
      (i : ℕ) (g : NodeGene D)
      → get_elem? e.lnode_genes i ≡ some g
      → g.exist ≡ true
      → (k : ℕ) × (g.row ≡ pos k)
  pub rows :
      (r n : ℕ)
      → count n (row_at e.nodes_at_row r)
        ≡ tally (λ g. g.exist) (λ g. eqb_ℤ g.row (pos r)) e.lnode_genes n
  pub outputs :
      (n : ℕ)
      → count n e.outputs_positions ≡ tally (λ g. g.exist) (λ g. is_output g.type) e.lnode_genes n
  pub innovations :
      (i : ℕ) (c : ConnectionGene D)
      → get_elem? e.lconnection_genes i ≡ some c
      → c.exist ≡ true
      → c.innovation ≡ pos i

index-pos : (z : ℤ) (n : ℕ) → index z ≡ some n → z ≡ pos n
index-pos (pos m) n e = cc
index-pos (negsuc m) n e = absurd cc

-- Well-formed with another order of rows.
pub ordered-WellFormed :
    {D : Type 0} (e : Encoding D) (order : List ℤ)
    → WellFormed e
    → WellFormed (record e { row_orderer_list = order })
ordered-WellFormed e order ok = record {
  numbers = ok.numbers;
  placed = ok.placed;
  rows = ok.rows;
  outputs = ok.outputs;
  innovations = ok.innovations;
}

module _ (d : Doubles) (junk g : NodeGene d.Double) (e : Encoding d.Double) where
  abbrev pub new_gene : NodeGene d.Double
  new_gene = node_gene d g.node g.type g.row g.random_function

  abbrev pub added : List (NodeGene d.Double) → List (List ℤ) → Encoding d.Double
  added genes rows = record e {
    lnode_genes = genes;
    nodes_at_row = rows;
    outputs_positions =
        if is_output g.type then e.outputs_positions ++ (g.node ∷ []) else e.outputs_positions;
  }

  added-WellFormed :
      (n k : ℕ) (genes : List (NodeGene d.Double)) (rows : List (List ℤ))
      → WellFormed e
      → g.node ≡ pos n
      → g.row ≡ pos k
      → store (λ old. old.exist) (missing_node d junk) new_gene n e.lnode_genes ≡ some genes
      → push_at k g.node (add_rows k e.nodes_at_row) ≡ some rows
      → WellFormed (added genes rows)
  added-WellFormed n k genes rows ok at_n at_k stored pushed = record {
    numbers = λ i h at present.
        elim (store-origin (λ old. old.exist) (missing_node d junk) new_gene n e.lnode_genes genes
          stored refl i h at present) [
            | inl (here, same) ↦ cc
            | inr was ↦ ok.numbers i h was present
          ];
    placed = λ i h at present.
        elim (store-origin (λ old. old.exist) (missing_node d junk) new_gene n e.lnode_genes genes
          stored refl i h at present) [
            | inl (here, same) ↦ (k, ap (λ (o : NodeGene d.Double). o.row) same ∙ at_k)
            | inr was ↦ ok.placed i h was present
          ];
    rows = λ r m.
        row_at-push_at (add_rows k e.nodes_at_row) rows k g.node r m pushed
        ∙ rw (row_at-add_rows e.nodes_at_row k r, ok.rows r m)
            (sym (stored_tally (λ h. eqb_ℤ h.row (pos r)) m ∙ rw (at_n, at_k) (ground arith)));
    outputs = λ m. elim (Bool-cases (is_output g.type)) [
      | inl yes_output ↦ rw yes_output (
          rw (count-append m e.outputs_positions (g.node ∷ []), ok.outputs m)
            (sym (stored_tally (λ h. is_output h.type) m ∙ rw (at_n, yes_output) (ground arith))))
      | inr no_output ↦
          rw (no_output, ok.outputs m)
            (sym (stored_tally (λ h. is_output h.type) m ∙ rw no_output (ground arith)))
    ];
    innovations = ok.innovations;
  }
    where
      stored_tally :
          (f : NodeGene d.Double → Bool) (m : ℕ)
          → tally (λ h. h.exist) f genes m
            ≡ tally (λ h. h.exist) f e.lnode_genes m + (if m == n && f new_gene then 1 else 0)
      stored_tally f m =
          store-tally (λ old. old.exist) (missing_node d junk) new_gene n e.lnode_genes genes stored
            refl f m refl

-- Adding a node, where it does not end the process, keeps the lists of a well-formed genome in
-- agreement, whatever the order in which numbers and rows come.
pub add_node_gene-WellFormed :
    (d : Doubles) (junk g : NodeGene d.Double) (e e' : Encoding d.Double)
    → WellFormed e
    → add_node_gene d junk g e ≡ some e'
    → WellFormed e'
unfolding add_node_gene
add_node_gene-WellFormed d junk g e e' ok run =
    let (n, at_n, run_n) = >>=-eq-some (index g.node) _ run in
    let (genes, stored, run_genes) = >>=-eq-some _ _ run_n in
    let (k, at_k, run_k) = >>=-eq-some (index g.row) _ run_genes in
    let (rows, pushed, done) = >>=-eq-some _ _ run_k in
    subst WellFormed (some-injective _ e' done) (
      added-WellFormed d junk g e n k genes rows ok (index-pos g.node n at_n)
        (index-pos g.row k at_k) stored pushed)

-- A node with a number and a row that are not negative, and that the genome does not have, is
-- added: the process does not end, and the gene stands at its number, with its outputs at zero.
pub add_node_gene-adds :
    (d : Doubles) (junk g : NodeGene d.Double) (e : Encoding d.Double) (n k : ℕ)
    → g.node ≡ pos n
    → g.row ≡ pos k
    → tally (λ h. h.exist) (λ h. true) e.lnode_genes n ≡ 0
    → (e' : Encoding d.Double) × (add_node_gene d junk g e ≡ some e')
      × (get_elem? e'.lnode_genes n ≡ some (node_gene d g.node g.type g.row g.random_function))
unfolding add_node_gene
add_node_gene-adds d junk g e n k at_n at_k free =
    let (genes, stored) =
      store-free (λ h. h.exist) (missing_node d junk) (new_gene d junk g e) n e.lnode_genes free in
    let (rows, pushed) = push_at-add_rows k g.node e.nodes_at_row in
    (
      added d junk g e genes rows,
      rw (ap index at_n, stored, ap index at_k, pushed),
      store-here (λ h. h.exist) (missing_node d junk) (new_gene d junk g e) n e.lnode_genes genes
          stored refl,
    )

-- Adding a node with a number that the genome has ends the process.
pub add_node_gene-taken :
    (d : Doubles) (junk g : NodeGene d.Double) (e : Encoding d.Double) (n : ℕ)
    → g.node ≡ pos n
    → tally (λ h. h.exist) (λ h. true) e.lnode_genes n ≡ 1
    → add_node_gene d junk g e ≡ none
unfolding add_node_gene
add_node_gene-taken d junk g e n at_n taken = rw (
  ap index at_n,
  store-taken (λ h. h.exist) (missing_node d junk) (new_gene d junk g e) n e.lnode_genes taken,
)

-- Adding a connection, whether or not the genome has its innovation, keeps the lists of a well-
-- formed genome in agreement.
pub add_connection_gene-WellFormed :
    (d : Doubles) (junk c : ConnectionGene d.Double) (e e' : Encoding d.Double)
    → WellFormed e
    → add_connection_gene d junk c e ≡ some e'
    → WellFormed e'
unfolding add_connection_gene
add_connection_gene-WellFormed d junk c e e' ok run =
    let (n, at_n, done) = >>=-eq-some (index c.innovation) _ run in
    subst WellFormed (some-injective _ e' done) (elim (Option-cases (stored n)) [
      | inl taken ↦ rw taken ok
      | inr (genes, added) ↦ rw added (with_new n genes (index-pos c.innovation n at_n) added)
    ])
  where
    new_connection : ConnectionGene d.Double
    new_connection = connection_gene d c.innovation c.in_node c.out_node c.weight c.enable

    stored : ℕ → Option (List (ConnectionGene d.Double))
    stored n =
        store (λ old. old.exist) (missing_connection d junk) new_connection n e.lconnection_genes

    with_new :
        (n : ℕ) (genes : List (ConnectionGene d.Double))
        → c.innovation ≡ pos n
        → stored n ≡ some genes
        → WellFormed (record e { lconnection_genes = genes })
    with_new n genes at_n added = record {
      numbers = ok.numbers;
      placed = ok.placed;
      rows = ok.rows;
      outputs = ok.outputs;
      innovations = λ i h at present.
          elim (store-origin (λ old. old.exist) (missing_connection d junk) new_connection n
            e.lconnection_genes genes added refl i h at present) [
              | inl (here, same) ↦ cc
              | inr was ↦ ok.innovations i h was present
            ];
    }
