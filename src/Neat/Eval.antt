-- ===== src/Neat/Eval.antt =====
-- `Genetic_Encoding::eval` of proyecto/NEAT/src/genetic_encoding.cpp: the network of a genome run on
-- inputs. `at` out of range ends the process (`none`); `apply` runs a node's function, which the
-- formulas of random_function.cpp compute with `exp`, `sin` and `cos`.
pub mod Total
pub mod Inputs
pub mod Runs
use tareas_elo.Common.{
  ℕ, zero, suc, ◌+◌, Option, some, List, [], ◌∷◌, ◌++◌, length, get_elem?, set, replicate, drop,
  ◌>>=◌, if◌then◌else◌, leb, ltb, ◌&&◌,
}
use tareas_elo.Common.Int.{ℤ, pos, ltb_ℤ, eqb_ℤ}
use tareas_elo.Common.Doubles.{Doubles}
use tareas_elo.Neat.Functions.{Function}
use tareas_elo.Neat.Genome.{ConnectionGene, NodeGene, Encoding, index}

-- `inputs_to_node.at(out).push_back(i)`.
abbrev pub push_input : ℤ → ℕ → List (List ℕ) → Option (List (List ℕ))
push_input out i lists =
    index out >>= λ n. get_elem? lists n >>= λ ks. some (set lists n (ks ++ (i ∷ [])))

-- The connections from the i-th on, each at the node that it leads to, if it exists and is enabled.
unfoldable pub collect_inputs :
    {D : Type 0} → List (ConnectionGene D) → ℕ → List (List ℕ) → Option (List (List ℕ))
collect_inputs [] i lists = some lists
collect_inputs (c ∷ rest) i lists =
    (if c.exist && c.enable then push_input c.out_node i lists else some lists) >>= λ next.
    collect_inputs rest (i + 1) next

-- A row of the order is taken if it is there and has nodes.
unfoldable pub used_row : List (List ℤ) → ℤ → Option (List ℤ)
used_row rows r =
    if ltb_ℤ r (pos (length rows))
    then (index r >>= λ k.
        get_elem? rows k >>= λ nodes. some (if ltb 0 (length nodes) then r ∷ [] else []))
    else some []

-- `row_orderer_list_adapted`.
unfoldable pub adapted : List (List ℤ) → List ℤ → Option (List ℤ)
adapted rows [] = some []
adapted rows (r ∷ rest) =
    used_row rows r >>= λ here. adapted rows rest >>= λ more. some (here ++ more)

-- The positions j at which the order has the row i.
abbrev pub positions : ℕ → List ℤ → ℕ → List ℕ
positions i [] j = []
positions i (r ∷ rest) j = (if eqb_ℤ (pos i) r then j ∷ [] else []) ++ positions i rest (j + 1)

-- `inverse_row_orderer_list`, for `rounds` values of i.
abbrev pub inverse : List ℤ → ℕ → ℕ → List ℕ
inverse order zero i = []
inverse order (suc rounds) i = positions i order 0 ++ inverse order rounds (i + 1)

module _ (d : Doubles) (apply : Function → d.Double → d.Double) where
  abbrev pub Genes : Type 0
  Genes = List (NodeGene d.Double)

  abbrev pub gene_at : Genes → ℤ → Option (NodeGene d.Double)
  gene_at genes z = index z >>= λ n. get_elem? genes n

  -- `Lnode_genes.at(n)` gets the value, or the past value, that `f` makes of it.
  abbrev pub update_at : (NodeGene d.Double → NodeGene d.Double) → Genes → ℤ → Option Genes
  update_at f genes z = index z >>= λ n. get_elem? genes n >>= λ g. some (set genes n (f g))

  abbrev pub with_value : d.Double → NodeGene d.Double → NodeGene d.Double
  with_value v g = record g { node_output_value = apply g.random_function v }

  abbrev pub with_past : NodeGene d.Double → NodeGene d.Double
  with_past g = record g { output_t_minus_1 = g.node_output_value }

  -- "Loading inputs", from the i-th on.
  unfoldable pub load_inputs : List d.Double → ℕ → Genes → Option Genes
  load_inputs [] i genes = some genes
  load_inputs (x ∷ xs) i genes =
      update_at (with_value x) genes (pos i) >>= λ next. load_inputs xs (i + 1) next

  -- The second loop over a row: every value becomes the past value.
  unfoldable pub save_past : List ℤ → Genes → Option Genes
  save_past [] genes = some genes
  save_past (z ∷ zs) genes = update_at with_past genes z >>= λ next. save_past zs next

  module _ (e : Encoding d.Double) (inputs_to_node : List (List ℕ)) where
    -- `inverse_row_orderer_list.at(Lnode_genes.at(z).row)`.
    abbrev pub position_of : Genes → ℤ → Option ℕ
    position_of genes z = gene_at genes z >>= λ g.
        index g.row >>= λ r. get_elem? (inverse e.row_orderer_list (length e.row_orderer_list) 0) r

    -- What one connection adds: from a row that is not before, the past value of its source.
    abbrev pub add_input : Genes → ℤ → d.Double → ConnectionGene d.Double → Option d.Double
    add_input genes z acc c = position_of genes c.in_node >>= λ from.
        position_of genes z >>= λ here. gene_at genes c.in_node >>= λ source. some (
          if leb here from
          then d.add acc source.output_t_minus_1
          else d.add acc (d.mul source.node_output_value c.weight))

    -- `entradas_temp`, over the connections that lead to the node.
    unfoldable pub sum_inputs : Genes → ℤ → List ℕ → d.Double → Option d.Double
    sum_inputs genes z [] acc = some acc
    sum_inputs genes z (k ∷ ks) acc = get_elem? e.lconnection_genes k >>= λ c.
        add_input genes z acc c >>= λ next. sum_inputs genes z ks next

    unfoldable pub eval_node : Genes → ℤ → Option Genes
    eval_node genes z = index z >>= λ n. get_elem? inputs_to_node n >>= λ ks.
        sum_inputs genes z ks (d.of_int (pos 0)) >>= λ v. update_at (with_value v) genes z

    unfoldable pub eval_nodes : List ℤ → Genes → Option Genes
    eval_nodes [] genes = some genes
    eval_nodes (z ∷ zs) genes = eval_node genes z >>= λ next. eval_nodes zs next

    unfoldable pub eval_rows : List ℤ → Genes → Option Genes
    eval_rows [] genes = some genes
    eval_rows (r ∷ rs) genes = index r >>= λ k. get_elem? e.nodes_at_row k >>= λ nodes.
        eval_nodes nodes genes >>= λ valued. save_past nodes valued >>= λ saved. eval_rows rs saved

  unfoldable pub read_outputs : List ℤ → Genes → Option (List d.Double)
  read_outputs [] genes = some []
  read_outputs (z ∷ zs) genes =
      gene_at genes z >>= λ g. read_outputs zs genes >>= λ vs. some (g.node_output_value ∷ vs)

  -- The first row of the order is not evaluated. The outputs, and the nodes as the run leaves them.
  unfoldable pub eval : Encoding d.Double → List d.Double → Option (List d.Double × Genes)
  eval e inputs =
      collect_inputs e.lconnection_genes 0 (replicate (length e.lnode_genes) [])
      >>= λ inputs_to_node. adapted e.nodes_at_row e.row_orderer_list >>= λ order.
          load_inputs inputs 0 e.lnode_genes >>= λ loaded.
          eval_rows e inputs_to_node (drop 1 order) loaded >>= λ genes.
          read_outputs e.outputs_positions genes >>= λ outputs. some (outputs, genes)
