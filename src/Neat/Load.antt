-- ===== src/Neat/Load.antt =====
-- `load` and `loadFromArray` of proyecto/NEAT/src/genetic_encoding.cpp: a genome from its text, with
-- the rows that are not used left out and the nodes and connections numbered anew.
use tareas_elo.Common.{
  ℕ, zero, suc, ◌+◌, ◌≡◌, Option, none, some, List, [], ◌∷◌, ◌++◌, Bool, true, false, ◌||◌,
  if◌then◌else◌, length, get_elem?, set, replicate, map, ltb, ◌>>=◌,
}
use tareas_elo.Common.Int.{ℤ, pos, negsuc, eqb_ℤ, read?}
use tareas_elo.Common.Doubles.{Doubles}
use tareas_elo.Common.Text.{atoi}
use tareas_elo.Neat.Functions.{Function, obtain_function_from_name}
use tareas_elo.Neat.Genome.{
  GeneType, input, hidden, output, ConnectionGene, NodeGene, Encoding, index, node_gene,
  missing_node, connection_gene, missing_connection, add_node_gene, add_connection_gene,
}
use tareas_elo.Neat.Tokens.{tokens, is_set, read_numbers, read_entries}
pub mod Rows
pub mod Kept

-- `Vector_nodes`, `Vector_connectoins` and `row_orderer_list_temp`.
pub record Parsed (D : Type 0) : Type 0 where
  pub rows : List ℤ
  pub nodes : List (NodeGene D)
  pub connections : List (ConnectionGene D)

-- The cast to the enumeration; what a type without a name does is not modelled.
abbrev pub gene_type : ℤ → Option GeneType
gene_type (pos zero) = some input
gene_type (pos (suc zero)) = some hidden
gene_type (pos (suc (suc zero))) = some output
gene_type _ = none

-- `vector.at(i) = v`.
unfoldable pub write_at : List ℤ → ℤ → ℤ → Option (List ℤ)
write_at xs i v = index i >>= λ n. if ltb n (length xs) then some (set xs n v) else none

-- Whether a node, existing or not, has the row.
unfoldable pub has_row : {D : Type 0} → ℤ → List (NodeGene D) → Bool
has_row row [] = false
has_row row (g ∷ gs) = eqb_ℤ g.row row || has_row row gs

-- `row_orderer_list_temp_compressed`: the rows that an entry of a node has, one that does not exist
-- included.
unfoldable pub used_rows : {D : Type 0} → List (NodeGene D) → List ℤ → List ℤ
used_rows nodes [] = []
used_rows nodes (row ∷ rows) =
    let rest = used_rows nodes rows in if has_row row nodes then row ∷ rest else rest

-- `transform_old_row_order_to_new`, from the number `new_row` on.
unfoldable pub number_rows : ℕ → List ℤ → List ℤ → Option (List ℤ)
number_rows new_row [] transform = some transform
number_rows new_row (row ∷ rows) transform =
    write_at transform row (pos new_row) >>= λ t. number_rows (new_row + 1) rows t

-- from, from + 1, …
abbrev pub counted : ℕ → ℕ → List ℤ
counted from zero = []
counted from (suc n) = pos from ∷ counted (from + 1) n

module _ (d : Doubles) (junk_node : NodeGene d.Double)
    (junk_connection : ConnectionGene d.Double) where
  -- The entry behind its label and its `exist`, into the one variable for nodes: an entry that does
  -- not exist leaves in it what the entry before had.
  unfoldable pub parse_node : NodeGene d.Double → List (List ℕ) → Option (NodeGene d.Double)
  parse_node last (_ ∷ exist ∷ []) = some (missing_node d last)
  parse_node last (_ ∷ exist ∷ _ ∷ node ∷ _ ∷ type ∷ _ ∷ row ∷ _ ∷ function ∷ []) =
      gene_type (atoi type) >>= λ t.
      obtain_function_from_name function >>= λ f. some (node_gene d (atoi node) t (atoi row) f)
  parse_node last _ = none

  unfoldable pub parse_connection :
      ConnectionGene d.Double → List (List ℕ) → Option (ConnectionGene d.Double)
  parse_connection last (_ ∷ exist ∷ []) = some (missing_connection d last)
  parse_connection last
        (_ ∷ exist ∷ _ ∷ innovation ∷ _ ∷ in_node ∷ _ ∷ out_node ∷ _ ∷ weight ∷ _ ∷ enable ∷ []) =
      some (
        connection_gene d (atoi innovation) (atoi in_node) (atoi out_node) (d.atof weight)
          (is_set enable))
  parse_connection last _ = none

  unfoldable pub parse_all :
      {G : Type 0} → (G → List (List ℕ) → Option G) → G → List (List (List ℕ)) → Option (List G)
  parse_all parse last [] = some []
  parse_all parse last (entry ∷ entries) =
      parse last entry >>= λ g. parse_all parse g entries >>= λ gs. some (g ∷ gs)

  -- Part 1: two words, the rows, a word, the nodes, a word, the connections.
  unfoldable pub parse_text : List (List ℕ) → Option (Parsed d.Double)
  parse_text (_ ∷ _ ∷ ts) = read_numbers ts >>= λ (rows, ts1). after_word ts1 >>= λ ts2.
      read_entries 8 [] ts2 >>= λ (node_entries, ts3).
      parse_all parse_node junk_node node_entries >>= λ nodes. after_word ts3 >>= λ ts4.
      read_entries 10 [] ts4 >>= λ (connection_entries, rest).
      parse_all parse_connection junk_connection connection_entries >>= λ connections.
      some (record { rows = rows; nodes = nodes; connections = connections })
    where
      after_word : List (List ℕ) → Option (List (List ℕ))
      after_word [] = none
      after_word (_ ∷ rest) = some rest
  parse_text _ = none

  -- Part 3: the existing nodes, numbered from `amount` on.
  unfoldable pub add_nodes :
      List ℤ
      → ℕ
      → List (NodeGene d.Double)
      → List ℤ
      → Encoding d.Double
      → Option (List ℤ × Encoding d.Double)
  add_nodes new_rows amount [] transform e = some (transform, e)
  add_nodes new_rows amount (g ∷ gs) transform e = elim g.exist [
    | false ↦ add_nodes new_rows amount gs transform e
    | true ↦ write_at transform g.node (pos amount) >>= λ t. read? new_rows g.row >>= λ row.
        add_node_gene d junk_node (node_gene d (pos amount) g.type row g.random_function) e
        >>= λ e'. add_nodes new_rows (amount + 1) gs t e'
  ]

  -- Part 4: the existing connections, between the nodes by their new numbers.
  unfoldable pub add_connections :
      List ℤ → ℕ → List (ConnectionGene d.Double) → Encoding d.Double → Option (Encoding d.Double)
  add_connections new_nodes amount [] e = some e
  add_connections new_nodes amount (c ∷ cs) e = elim c.exist [
    | false ↦ add_connections new_nodes amount cs e
    | true ↦ read? new_nodes c.in_node >>= λ in_node. read? new_nodes c.out_node >>= λ out_node.
        add_connection_gene d junk_connection
          (connection_gene d (pos amount) in_node out_node c.weight c.enable) e
        >>= λ e'. add_connections new_nodes (amount + 1) cs e'
  ]

  -- Parts 2 to 4. The lists of genes are cleared; the order of rows, the rows and the outputs of the
  -- object are not.
  unfoldable pub build : Parsed d.Double → Encoding d.Double → Option (Encoding d.Double)
  build parsed e =
      let rows = used_rows parsed.nodes parsed.rows in
      number_rows 0 rows (replicate (length parsed.rows) (negsuc 0)) >>= λ new_rows.
      add_nodes new_rows 0 parsed.nodes (replicate (length parsed.nodes) (negsuc 0)) (record e {
        lconnection_genes = [];
        lnode_genes = [];
        row_orderer_list = e.row_orderer_list ++ counted 0 (length rows);
      })
      >>= λ (new_nodes, e'). add_connections new_nodes 0 parsed.connections e'

  -- `load`, of the text of a file.
  unfoldable pub load : List ℕ → Encoding d.Double → Option (Encoding d.Double)
  load text e = parse_text (tokens text) >>= λ parsed. build parsed e

  -- The same of the text in a buffer.
  abbrev pub load_from_array : List ℕ → Encoding d.Double → Option (Encoding d.Double)
  load_from_array text e = load text e
