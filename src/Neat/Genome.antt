-- ===== src/Neat/Genome.antt =====
-- `connection_gene`, `node_gene` and `Genetic_Encoding` of proyecto/NEAT/src/genetic_encoding.cpp and
-- its header. A process that ends (exit(1), `at` out of range, an index outside a vector) is `none`.
-- Sizes of vectors fit an int.
pub mod Rows
pub mod Nodes
pub mod Added
pub mod Renewed
use tareas_elo.Neat.Slots.{store-free, store-taken, store-here}
use tareas_elo.Common.{subst, ◌↔◌}
use tareas_elo.Common.{
  ℕ, ◌+◌, ◌-◌, ◌≡◌, refl, Option, none, some, List, [], ◌∷◌, ◌++◌, map, length, get_elem?, set,
  replicate, ◌>>=◌, if◌then◌else◌, leb, Bool, true, false, ◌==◌,
}
use tareas_elo.Common.Int.{ℤ, pos, negsuc}
use tareas_elo.Common.Doubles.{Doubles}
use tareas_elo.Neat.Functions.{Function, get_random_function}
use tareas_elo.Neat.Slots.{store}

pub data GeneType : Type 0 where
  input hidden output : GeneType

pub record ConnectionGene (D : Type 0) : Type 0 where
  pub innovation : ℤ
  pub in_node : ℤ
  pub out_node : ℤ
  pub enable : Bool
  pub weight : D
  pub exist : Bool

-- All but `str`, the scratch text of `ANN_function`.
pub record NodeGene (D : Type 0) : Type 0 where
  pub row : ℤ
  pub exist : Bool
  pub node : ℤ
  pub type : GeneType
  pub node_output_value : D
  pub output_t_minus_1 : D
  pub random_function : Function

-- The fields that its functions use; `fitness`, `shared_fitness` and `niche` are the population's.
pub record Encoding (D : Type 0) : Type 0 where
  pub lconnection_genes : List (ConnectionGene D)
  pub lnode_genes : List (NodeGene D)
  pub row_orderer_list : List ℤ
  pub nodes_at_row : List (List ℤ)
  pub outputs_positions : List ℤ

-- An int as an index.
abbrev pub index : ℤ → Option ℕ
index (pos n) = some n
index (negsuc n) = none

abbrev pub is_output : GeneType → Bool
is_output output = true
is_output _ = false

-- `while (row > size - 1) push_back(empty)`.
abbrev pub add_rows : ℕ → List (List ℤ) → List (List ℤ)
add_rows row rows = rows ++ replicate (row + 1 - length rows) []

-- `rows.at(row).push_back(node)`.
abbrev pub push_at : ℕ → ℤ → List (List ℤ) → Option (List (List ℤ))
push_at row node rows = get_elem? rows row >>= λ r. some (set rows row (r ++ (node ∷ [])))

module _ (d : Doubles) where
  abbrev zero_double : d.Double
  zero_double = d.of_int (pos 0)

  -- `_connection_gene`, with all fields and with `exist` alone, which leaves the others as they are.
  abbrev pub connection_gene : ℤ → ℤ → ℤ → d.Double → Bool → ConnectionGene d.Double
  connection_gene innovation in_node out_node weight enable = record {
    innovation = innovation;
    in_node = in_node;
    out_node = out_node;
    enable = enable;
    weight = weight;
    exist = true;
  }

  abbrev pub missing_connection : ConnectionGene d.Double → ConnectionGene d.Double
  missing_connection junk = record junk { exist = false }

  -- `_node_genne`, likewise.
  abbrev pub node_gene : ℤ → GeneType → ℤ → Function → NodeGene d.Double
  node_gene node type row random_function = record {
    row = row;
    exist = true;
    node = node;
    type = type;
    node_output_value = zero_double;
    output_t_minus_1 = zero_double;
    random_function = random_function;
  }

  abbrev pub missing_node : NodeGene d.Double → NodeGene d.Double
  missing_node junk = record junk { exist = false; node_output_value = zero_double }

  -- `add_node(node_gene)`. `junk` is what the local `missing_node_gene` holds before it is set.
  unfoldable pub add_node_gene :
      NodeGene d.Double → NodeGene d.Double → Encoding d.Double → Option (Encoding d.Double)
  add_node_gene junk g e = index g.node >>= λ n.
      store (λ old. old.exist) (missing_node junk) (node_gene g.node g.type g.row g.random_function)
        n e.lnode_genes
      >>= λ genes. index g.row >>= λ row.
          push_at row g.node (add_rows row e.nodes_at_row) >>= λ rows. some (record e {
            lnode_genes = genes;
            nodes_at_row = rows;
            outputs_positions =
                if is_output g.type
                then e.outputs_positions ++ (g.node ∷ [])
                else e.outputs_positions;
          })

  -- `add_node(int, int, gene_type)`: the function is drawn with what `rand()` returned.
  unfoldable pub add_node :
      NodeGene d.Double → ℕ → ℤ → ℤ → GeneType → Encoding d.Double → Option (Encoding d.Double)
  add_node junk r node row type e =
      get_random_function r >>= λ rf. add_node_gene junk (node_gene node type row rf) e

  -- An innovation that exists is left alone, behind a message.
  abbrev pub with_connections :
      Encoding d.Double → Option (List (ConnectionGene d.Double)) → Encoding d.Double
  with_connections e none = e
  with_connections e (some genes) = record e { lconnection_genes = genes }

  -- `add_connection(connection_gene)`: for an innovation that exists, a message and nothing else.
  unfoldable pub add_connection_gene :
      ConnectionGene d.Double
      → ConnectionGene d.Double
      → Encoding d.Double
      → Option (Encoding d.Double)
  add_connection_gene junk c e = index c.innovation >>= λ n. some (
      with_connections e (
        store (λ old. old.exist) (missing_connection junk)
          (connection_gene c.innovation c.in_node c.out_node c.weight c.enable) n
          e.lconnection_genes))

  -- `add_connection(int, int, int, double)`: enabled.
  abbrev pub add_connection :
      ConnectionGene d.Double
      → ℤ
      → ℤ
      → ℤ
      → d.Double
      → Encoding d.Double
      → Option (Encoding d.Double)
  add_connection junk innovation in_node out_node weight e =
      add_connection_gene junk (connection_gene innovation in_node out_node weight true) e

  -- `change_random_function_randomly`.
  abbrev pub change_random_function_randomly : ℕ → NodeGene d.Double → Option (NodeGene d.Double)
  change_random_function_randomly r g =
      get_random_function r >>= λ rf. some (record g { random_function = rf })

  abbrev reset_past_value : NodeGene d.Double → NodeGene d.Double
  reset_past_value g = record g { output_t_minus_1 = zero_double }

  unfoldable pub reset_past_values : Encoding d.Double → Encoding d.Double
  reset_past_values e = record e { lnode_genes = map reset_past_value e.lnode_genes }

-- The nodes at the last row of the order.
unfoldable pub get_neat_output_size : {D : Type 0} → Encoding D → Option ℕ
get_neat_output_size e = get_elem? e.row_orderer_list (length e.row_orderer_list - 1) >>= λ last.
    index last >>= λ row. get_elem? e.nodes_at_row row >>= λ nodes. some (length nodes)
