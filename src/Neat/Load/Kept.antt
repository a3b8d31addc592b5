-- ===== src/Neat/Load/Kept.antt =====
-- What `load` of proyecto/NEAT/src/genetic_encoding.cpp makes of a text.
use tareas_elo.Common.{
  ℕ, ◌+◌, ◌-◌, ◌≡◌, refl, sym, ◌∙◌, ap, subst, some, List, [], ◌∷◌, ◌++◌, Bool, true, if◌then◌else◌,
  length, replicate, leb, >>=-eq-some, length-append, length-replicate, arith, Bool-cases, inl, inr,
}
use mathlib.Core.Option.{some-injective}
use tareas_elo.Common.Int.{ℤ, pos, negsuc, read?}
use tareas_elo.Common.Doubles.{Doubles}
use tareas_elo.Neat.Slots.{store}
use tareas_elo.Neat.Genome.{
  ConnectionGene, NodeGene, Encoding, index, node_gene, connection_gene, missing_node,
  missing_connection, add_node_gene, add_connection_gene, add_rows, push_at,
}
use tareas_elo.Neat.Genome.Nodes.{
  WellFormed, added, add_node_gene-WellFormed, add_connection_gene-WellFormed,
}
use tareas_elo.Neat.Tokens.{tokens}
use tareas_elo.Neat.Load.Rows.{FilterOf, RowOf, used_rows-FilterOf}
use tareas_elo.Neat.Load.{
  Parsed, write_at, used_rows, number_rows, counted, parse_text, add_nodes, add_connections, build,
  load,
}

-- How many exist.
abbrev pub existing_count : {G : Type 0} → (G → Bool) → List G → ℕ
existing_count exist [] = 0
existing_count exist (g ∷ gs) = (if exist g then 1 else 0) + existing_count exist gs

store-free-end :
    {G : Type 0} (exist : G → Bool) (missing new : G) (n : ℕ) (genes : List G)
    → n ≡ length genes
    → (genes' : List G) × (store exist missing new n genes ≡ some genes')
unfolding store
store-free-end exist missing new n genes is_end =
    (genes ++ (replicate (n - length genes) missing ++ (new ∷ [])), rw at_end refl)
  where
    at_end : leb (length genes) n ≡ true
    at_end = ground arith

-- A gene stored at the end makes the vector one longer.
store-end :
    {G : Type 0} (exist : G → Bool) (missing new : G) (n : ℕ) (genes genes' : List G)
    → n ≡ length genes
    → store exist missing new n genes ≡ some genes'
    → length genes' ≡ length genes + 1
unfolding store
store-end exist missing new n genes genes' is_end run =
    ap length (sym (some-injective _ genes' (rw at_end at run)))
    ∙ length-append genes (replicate (n - length genes) missing ++ (new ∷ []))
    ∙ omega (
      arith,
      is_end,
      length-append (replicate (n - length genes) missing) (new ∷ []),
      length-replicate (n - length genes) missing,
    )
  where
    at_end : leb (length genes) n ≡ true
    at_end = ground arith

-- As many genes as exist in the text, and behind the order of rows that the object had a number for
-- each row of the text that an entry of a node has.
abbrev pub Counts : {D : Type 0} → Parsed D → Encoding D → Encoding D → Type 0
Counts parsed e e' =
    (length e'.lnode_genes ≡ existing_count (λ g. g.exist) parsed.nodes)
    × (length e'.lconnection_genes ≡ existing_count (λ c. c.exist) parsed.connections)
    × ((used : List ℤ) × FilterOf (RowOf parsed.nodes) parsed.rows used
        × (e'.row_orderer_list ≡ e.row_orderer_list ++ counted 0 (length used)))

module _ (d : Doubles) (junk_node : NodeGene d.Double)
    (junk_connection : ConnectionGene d.Double) where
  add_node_gene-end :
      (g : NodeGene d.Double) (e e' : Encoding d.Double)
      → g.node ≡ pos (length e.lnode_genes)
      → add_node_gene d junk_node g e ≡ some e'
      → (length e'.lnode_genes ≡ length e.lnode_genes + 1)
        × (e'.row_orderer_list ≡ e.row_orderer_list)
        × (e'.lconnection_genes ≡ e.lconnection_genes)
  unfolding add_node_gene
  add_node_gene-end g e e' at_end run =
      let (n, at_n, run_n) = >>=-eq-some (index g.node) _ run in
      let new = node_gene d g.node g.type g.row g.random_function in
      let (genes, stored, run_genes) =
        >>=-eq-some (store (λ h. h.exist) (missing_node d junk_node) new n e.lnode_genes) _ run_n in
      let (k, at_k, run_k) = >>=-eq-some (index g.row) _ run_genes in
      let (rows, pushed, done) =
        >>=-eq-some (push_at k g.node (add_rows k e.nodes_at_row)) _ run_k in
      let is_end = some-injective n (length e.lnode_genes) (sym at_n ∙ ap index at_end) in
      let same = some-injective (added d junk_node g e genes rows) e' done in
      (
        ap (λ (h : Encoding d.Double). length h.lnode_genes) (sym same)
            ∙ store-end (λ h. h.exist) (missing_node d junk_node) new n e.lnode_genes genes is_end
                stored,
        ap (λ (h : Encoding d.Double). h.row_orderer_list) (sym same),
        ap (λ (h : Encoding d.Double). h.lconnection_genes) (sym same),
      )

  add_connection_gene-end :
      (c : ConnectionGene d.Double) (e e' : Encoding d.Double)
      → c.innovation ≡ pos (length e.lconnection_genes)
      → add_connection_gene d junk_connection c e ≡ some e'
      → (length e'.lconnection_genes ≡ length e.lconnection_genes + 1)
        × (e'.row_orderer_list ≡ e.row_orderer_list)
        × (e'.lnode_genes ≡ e.lnode_genes)
  unfolding add_connection_gene
  add_connection_gene-end c e e' at_end run =
      let (n, at_n, done) = >>=-eq-some (index c.innovation) _ run in
      let is_end = some-injective n (length e.lconnection_genes) (sym at_n ∙ ap index at_end) in
      let new = connection_gene d c.innovation c.in_node c.out_node c.weight c.enable in
      let free =
        store-free-end (λ h. h.exist) (missing_connection d junk_connection) new n
          e.lconnection_genes is_end in
      let same = some-injective (record e { lconnection_genes = free.0 }) e' (rw free.1 at done) in
      (
        ap (λ (h : Encoding d.Double). length h.lconnection_genes) (sym same)
            ∙ store-end (λ h. h.exist) (missing_connection d junk_connection) new n
                e.lconnection_genes free.0 is_end free.1,
        ap (λ (h : Encoding d.Double). h.row_orderer_list) (sym same),
        ap (λ (h : Encoding d.Double). h.lnode_genes) (sym same),
      )

  add_nodes-Kept :
      (new_rows : List ℤ) (amount : ℕ) (gs : List (NodeGene d.Double)) (transform t : List ℤ)
      (e e' : Encoding d.Double)
      → WellFormed e
      → amount ≡ length e.lnode_genes
      → add_nodes d junk_node junk_connection new_rows amount gs transform e ≡ some (t, e')
      → WellFormed e'
        × (length e'.lnode_genes ≡ amount + existing_count (λ g. g.exist) gs)
        × (e'.row_orderer_list ≡ e.row_orderer_list)
        × (e'.lconnection_genes ≡ e.lconnection_genes)
  unfolding add_nodes
  add_nodes-Kept new_rows amount [] transform t e e' ok size run =
      let same = ap (λ x. x.1) (some-injective (transform, e) (t, e') run) in
      (
        subst WellFormed same ok,
        ap (λ (h : Encoding d.Double). length h.lnode_genes) (sym same) ∙ omega arith,
        ap (λ (h : Encoding d.Double). h.row_orderer_list) (sym same),
        ap (λ (h : Encoding d.Double). h.lconnection_genes) (sym same),
      )
  add_nodes-Kept new_rows amount (g ∷ gs) transform t e e' ok size run = elim (Bool-cases g.exist) [
    | inr absent ↦
        let (ok', count, order, same) =
          add_nodes-Kept new_rows amount gs transform t e e' ok size
            (rw (add_nodes, absent) at run) in
        (ok', count ∙ rw absent (omega arith), order, same)
    | inl there ↦
        let (t1, written, run1) =
          >>=-eq-some (write_at transform g.node (pos amount)) _ (rw (add_nodes, there) at run) in
        let (row, at_row, run2) = >>=-eq-some (read? new_rows g.row) _ run1 in
        let new = node_gene d (pos amount) g.type row g.random_function in
        let (e1, added1, run3) = >>=-eq-some (add_node_gene d junk_node new e) _ run2 in
        let (size1, order1, same1) = add_node_gene-end new e e1 (ap pos size) added1 in
        let (ok', count, order, same) =
          add_nodes-Kept new_rows (amount + 1) gs t1 t e1 e'
            (add_node_gene-WellFormed d junk_node new e e1 ok added1) (omega (arith, size, size1))
            run3 in
        (ok', count ∙ rw there (omega arith), order ∙ order1, same ∙ same1)
  ]

  add_connections-Kept :
      (new_nodes : List ℤ) (amount : ℕ) (cs : List (ConnectionGene d.Double))
      (e e' : Encoding d.Double)
      → WellFormed e
      → amount ≡ length e.lconnection_genes
      → add_connections d junk_node junk_connection new_nodes amount cs e ≡ some e'
      → WellFormed e'
        × (length e'.lconnection_genes ≡ amount + existing_count (λ c. c.exist) cs)
        × (e'.row_orderer_list ≡ e.row_orderer_list)
        × (e'.lnode_genes ≡ e.lnode_genes)
  unfolding add_connections
  add_connections-Kept new_nodes amount [] e e' ok size run =
      let same = some-injective e e' run in
      (
        subst WellFormed same ok,
        ap (λ (h : Encoding d.Double). length h.lconnection_genes) (sym same) ∙ omega arith,
        ap (λ (h : Encoding d.Double). h.row_orderer_list) (sym same),
        ap (λ (h : Encoding d.Double). h.lnode_genes) (sym same),
      )
  add_connections-Kept new_nodes amount (c ∷ cs) e e' ok size run = elim (Bool-cases c.exist) [
    | inr absent ↦
        let (ok', count, order, same) =
          add_connections-Kept new_nodes amount cs e e' ok size
            (rw (add_connections, absent) at run) in
        (ok', count ∙ rw absent (omega arith), order, same)
    | inl there ↦
        let (in_node, at_in, run1) =
          >>=-eq-some (read? new_nodes c.in_node) _ (rw (add_connections, there) at run) in
        let (out_node, at_out, run2) = >>=-eq-some (read? new_nodes c.out_node) _ run1 in
        let new = connection_gene d (pos amount) in_node out_node c.weight c.enable in
        let (e1, added1, run3) = >>=-eq-some (add_connection_gene d junk_connection new e) _ run2 in
        let (size1, order1, same1) = add_connection_gene-end new e e1 (ap pos size) added1 in
        let (ok', count, order, same) =
          add_connections-Kept new_nodes (amount + 1) cs e1 e'
            (add_connection_gene-WellFormed d junk_connection new e e1 ok added1)
            (omega (arith, size, size1)) run3 in
        (ok', count ∙ rw there (omega arith), order ∙ order1, same ∙ same1)
  ]

  cleared-WellFormed :
      (e : Encoding d.Double) (order : List ℤ)
      → e.nodes_at_row ≡ []
      → e.outputs_positions ≡ []
      → WellFormed (record e { lconnection_genes = []; lnode_genes = []; row_orderer_list = order })
  cleared-WellFormed e order no_rows no_outputs = record {
    numbers = λ i g at present. absurd cc;
    placed = λ i g at present. absurd cc;
    rows = λ r n. rw no_rows refl;
    outputs = λ n. rw no_outputs refl;
    innovations = λ i c at present. absurd cc;
  }

  -- A text that is loaded into an object without nodes in rows and without outputs gives a well-formed
  -- genome without gaps: as many nodes, and connections, as exist in the text. The order of rows that
  -- the object had is kept, and the rows 0, 1, … are put behind it, as many as there are rows in the
  -- order of the text that an entry of a node, existing or not, has.
  pub load-Kept :
      (text : List ℕ) (e e' : Encoding d.Double)
      → e.nodes_at_row ≡ []
      → e.outputs_positions ≡ []
      → load d junk_node junk_connection text e ≡ some e'
      → WellFormed e'
        × ((parsed : Parsed d.Double) × (parse_text d junk_node junk_connection (tokens text)
              ≡ some parsed)
            × Counts parsed e e')
  unfolding load build
  load-Kept text e e' no_rows no_outputs run =
      let (parsed, parse, run1) =
        >>=-eq-some (parse_text d junk_node junk_connection (tokens text)) _ run in
      let (new_rows, numbered, run2) =
        >>=-eq-some
          (number_rows 0 (used_rows parsed.nodes parsed.rows)
            (replicate (length parsed.rows) (negsuc 0)))
          _ run1 in
      let start = record e {
        lconnection_genes = [];
        lnode_genes = [];
        row_orderer_list =
            e.row_orderer_list ++ counted 0 (length (used_rows parsed.nodes parsed.rows));
      } in
      let ((new_nodes, e1), added, run3) =
        >>=-eq-some
          (add_nodes d junk_node junk_connection new_rows 0 parsed.nodes
            (replicate (length parsed.nodes) (negsuc 0)) start)
          _ run2 in
      let (ok1, count1, order1, none1) =
        add_nodes-Kept new_rows 0 parsed.nodes _ new_nodes start e1
          (cleared-WellFormed e start.row_orderer_list no_rows no_outputs) refl added in
      let (ok2, count2, order2, same2) =
        add_connections-Kept new_nodes 0 parsed.connections e1 e' ok1 (ap length (sym none1))
          run3 in
      (
        ok2,
        (
          parsed,
          parse,
          (
            ap length same2 ∙ count1 ∙ omega arith,
            count2 ∙ omega arith,
            (
              used_rows parsed.nodes parsed.rows,
              used_rows-FilterOf parsed.nodes parsed.rows,
              order2 ∙ order1,
            ),
          ),
        ),
      )
