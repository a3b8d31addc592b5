-- ===== src/Neat/Tests.antt =====
-- proyecto/NEAT on small genomes, and the theorems at genomes that meet their hypotheses.
use tareas_elo.Neat.Draw.{
  Probabilities, empty_probabilities, add_element, take_one_randomly, take_one_randomly-removes,
}
use tareas_elo.Common.{
  ◌++◌, zero, suc, AllFrom-zero, ◌&&◌, ◌<◌, arith, length, ◌≡◌, refl, some, [], ◌∷◌, true, false,
  List, ℕ,
}
use tareas_elo.Neat.Eval.Runs.{eval-returns, past_sum, sum_inputs-past}
use tareas_elo.Neat.Eval.Total.{Placed, Joins, Sound}
use tareas_elo.Neat.Eval.{eval, sum_inputs}
use tareas_elo.Common.Int.{ℤ, pos}
use tareas_elo.Common.Doubles.{Doubles, Fraction}
use tareas_elo.Neat.Functions.{
  Function, sigmoid, cos, identity, get_random_function, get_random_function-some,
}
use tareas_elo.Neat.Slots.{store}
use tareas_elo.Neat.Genome.{
  input, output, ConnectionGene, NodeGene, Encoding, node_gene, connection_gene, add_node_gene,
  add_connection_gene,
}
use tareas_elo.Neat.Genome.Nodes.{
  WellFormed, add_node_gene-WellFormed, add_connection_gene-WellFormed,
}

abbrev zero_fraction : Fraction
zero_fraction = record { num = pos 0; den = 1 }

abbrev pub numbers : Doubles
numbers = record {
  Double = ℤ;
  of_int = λ z. z;
  add = λ a b. a;
  sub = λ a b. a;
  mul = λ a b. a;
  div = λ a b. a;
  lt = λ a b. false;
  le = λ a b. true;
  truncate = λ a. some a;
  atof = λ s. pos 0;
}

abbrev pub empty : Encoding ℤ
empty = record {
  lconnection_genes = [];
  lnode_genes = [];
  row_orderer_list = pos 0 ∷ pos 1 ∷ [];
  nodes_at_row = [];
  outputs_positions = [];
}

pub empty-WellFormed : WellFormed empty
empty-WellFormed = record {
  numbers = λ i g at present. absurd cc;
  placed = λ i g at present. absurd cc;
  rows = λ r n. refl;
  outputs = λ n. refl;
  innovations = λ i c at present. absurd cc;
}

abbrev pub junk : NodeGene ℤ
junk = node_gene numbers (pos 7) output (pos 7) cos

-- Node 2, an output in row 1, before nodes 0 and 1.
abbrev pub out_node : NodeGene ℤ
out_node = node_gene numbers (pos 2) output (pos 1) sigmoid

abbrev pub one_output : Encoding ℤ
one_output = record {
  lconnection_genes = [];
  lnode_genes =
      record junk { exist = false; node_output_value = pos 0 }
      ∷ record junk { exist = false; node_output_value = pos 0 }
      ∷ out_node
      ∷ [];
  row_orderer_list = pos 0 ∷ pos 1 ∷ [];
  nodes_at_row = [] ∷ (pos 2 ∷ []) ∷ [];
  outputs_positions = pos 2 ∷ [];
}

pub output-added : add_node_gene numbers junk out_node empty ≡ some one_output
unfolding add_node_gene store
output-added = refl

add_node_gene-WellFormed_example : WellFormed one_output
add_node_gene-WellFormed_example =
    add_node_gene-WellFormed numbers junk out_node empty one_output empty-WellFormed output-added

abbrev pub in_gene : NodeGene ℤ
in_gene = node_gene numbers (pos 0) input (pos 0) identity

abbrev pub edge : ConnectionGene ℤ
edge = connection_gene numbers (pos 0) (pos 0) (pos 2) (pos 5) true

abbrev connected : Encoding ℤ
connected = record one_output { lconnection_genes = edge ∷ [] }

edge-added : add_connection_gene numbers edge edge one_output ≡ some connected
unfolding add_connection_gene store
edge-added = refl

add_connection_gene-WellFormed_example : WellFormed connected
add_connection_gene-WellFormed_example =
    add_connection_gene-WellFormed numbers edge edge one_output connected
      (add_node_gene-WellFormed numbers junk out_node empty one_output empty-WellFormed
        output-added)
      edge-added

get_random_function-some_example : (f : Function) × (get_random_function 13 ≡ some f)
get_random_function-some_example = get_random_function-some 13

-- An input and an output, joined forwards, and the output joined to itself.
abbrev loop_edge : ConnectionGene ℤ
loop_edge = connection_gene numbers (pos 1) (pos 2) (pos 2) (pos 9) true

abbrev pair : Encoding ℤ
pair = record {
  lconnection_genes = edge ∷ loop_edge ∷ [];
  lnode_genes = in_gene ∷ record junk { exist = false; node_output_value = pos 0 } ∷ out_node ∷ [];
  row_orderer_list = pos 0 ∷ pos 1 ∷ [];
  nodes_at_row = (pos 0 ∷ []) ∷ (pos 2 ∷ []) ∷ [];
  outputs_positions = pos 2 ∷ [];
}

in_Placed : Placed pair pair.lnode_genes (pos 0)
in_Placed = (0, in_gene, 0, refl, refl, refl, omega arith)

out_Placed : Placed pair pair.lnode_genes (pos 2)
out_Placed = (2, out_node, 1, refl, refl, refl, omega arith)

pair-Sound : Sound pair
pair-Sound = record {
  order = ((0, refl), ((1, refl), tt));
  rows = ((in_Placed, tt), ((out_Placed, tt), tt));
  outputs = (out_Placed, tt);
  joins =
      AllFrom-zero (λ k c. (c.exist && c.enable) ≡ true → Joins pair pair.lnode_genes c)
        pair.lconnection_genes
        ((λ used. (in_Placed, out_Placed)), ((λ used. (out_Placed, out_Placed)), tt));
}

one_input : (k : ℕ) → k < 1 → Placed pair pair.lnode_genes (pos k)
one_input zero h = in_Placed
one_input (suc k) h = absurd (omega arith)

eval-returns_example :
    (outputs : List ℤ) × (genes : List (NodeGene ℤ)) × (eval numbers (λ f v. v) pair (pos 3 ∷ [])
      ≡ some (outputs, genes))
    × (length outputs ≡ 1)
eval-returns_example = eval-returns numbers (λ f v. v) pair pair-Sound (pos 3 ∷ []) one_input

sum_inputs-past_example :
    sum_inputs numbers (λ f v. v) pair [] pair.lnode_genes (pos 2) (1 ∷ []) (pos 1)
    ≡ some (past_sum numbers (out_node ∷ []) (pos 1))
sum_inputs-past_example =
    sum_inputs-past numbers (λ f v. v) pair [] pair.lnode_genes (pos 2) (1 ∷ []) (out_node ∷ [])
      (pos 1) ((loop_edge, 1, 1, refl, refl, refl, omega arith, refl), tt)

-- Elements 0, 1 and 2.
abbrev three : Probabilities ℤ
three =
    add_element numbers (pos 5)
      (add_element numbers (pos 4) (add_element numbers (pos 3) (empty_probabilities numbers)))

take_one_randomly-removes_example :
    (x : ℕ) × (next : Probabilities ℤ) × (before : List ℕ) × (after : List ℕ) × (take_one_randomly
        numbers 7 three
      ≡ some (x, next))
    × (three.position_of_resultant_element ≡ before ++ (x ∷ after))
    × (next.position_of_resultant_element ≡ before ++ after)
take_one_randomly-removes_example = take_one_randomly-removes numbers 7 three (omega arith) (
    AllFrom-zero (λ k x. x < 3) three.position_of_resultant_element
      (omega arith, (omega arith, (omega arith, tt))))
