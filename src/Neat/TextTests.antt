-- ===== src/Neat/TextTests.antt =====
-- Texts of genomes and of user definitions (proyecto/NEAT), read as the code reads them.
use tareas_elo.Common.{arith}
use tareas_elo.Common.{
  ℕ, ◌≡◌, ◌%◌, refl, Option, none, some, List, [], ◌∷◌, Bool, true, false, length,
}
use tareas_elo.Common.Int.{ℤ, pos, i32}
use tareas_elo.Common.Text.{codes, show_digits, show_int, atoi, strtol, skip_space, digits_value}
use tareas_elo.Neat.Functions.{sin, identity, obtain_function_from_name}
use tareas_elo.Neat.Slots.{store}
use tareas_elo.Neat.Genome.{
  input, output, node_gene, connection_gene, Encoding, add_node_gene, add_connection_gene,
}
use tareas_elo.Neat.Genome.Nodes.{WellFormed}
use tareas_elo.Neat.Tests.{numbers, junk, edge, empty}
use tareas_elo.Neat.Tokens.{tokens, split_tokens, read_numbers, read_entries}
use tareas_elo.Neat.Load.{
  Parsed, write_at, has_row, used_rows, number_rows, parse_node, parse_connection, parse_all,
  parse_text, add_nodes, add_connections, build, load,
}
use tareas_elo.Neat.Json.{json, json_rows, json_entries}
use tareas_elo.Neat.Json.RoundTrip.{IsInt, read_all, read_back, read_connection, parse_text-json}
use tareas_elo.Neat.Tokens.Words.{show_int-IsWord}
use tareas_elo.Neat.Load.Kept.{Counts, load-Kept}

tokens_test : tokens (codes "{a: [1,-2 ]}") ≡ codes "a" ∷ codes "1" ∷ codes "-2" ∷ codes "]" ∷ []
unfolding split_tokens
tokens_test = refl

-- Three rows, of which one is not used; three nodes, of which one does not exist.
abbrev genome_text : List ℕ
genome_text =
    codes
      "{Genetic_Encoding: {row_order: [0,2,1 ] nodes: [{exist: 1,node: 2,type: 0,row: 0,function: sin},{exist: 0},{exist: 1,node: 0,type: 2,row: 1,function: cos} ],connection_genes: [{exist: 1,innovation: 7,in: 2,out: 0,weight: 3,enable: 1} ]}}"

abbrev is_some : Option (Encoding ℤ) → Bool
is_some none = false
is_some (some e) = true

abbrev outcome : Option (Encoding ℤ) → Encoding ℤ
outcome none = empty
outcome (some e) = e

abbrev loaded : Encoding ℤ
loaded = outcome (load numbers junk edge genome_text empty)

loads : is_some (load numbers junk edge genome_text empty) ≡ true
unfolding load parse_text build add_nodes add_connections parse_all parse_node parse_connection
    number_rows used_rows has_row write_at read_numbers read_entries split_tokens add_node_gene
    add_connection_gene store atoi strtol skip_space digits_value i32 obtain_function_from_name
loads = refl

of_outcome : (o : Option (Encoding ℤ)) → is_some o ≡ true → o ≡ some (outcome o)
of_outcome none e = cc
of_outcome (some x) e = refl

load-Kept_example :
    WellFormed loaded
    × ((parsed : Parsed ℤ) × (parse_text numbers junk edge (tokens genome_text) ≡ some parsed)
        × Counts parsed empty loaded)
load-Kept_example =
    load-Kept numbers junk edge genome_text empty loaded refl refl (of_outcome _ loads)

-- The rows 0 and 1 of the text are used, and two nodes.
loaded_test :
    (length loaded.lnode_genes ≡ 2)
    × (loaded.nodes_at_row ≡ (pos 0 ∷ []) ∷ (pos 1 ∷ []) ∷ [])
    × (loaded.outputs_positions ≡ pos 1 ∷ [])
unfolding load parse_text build add_nodes add_connections parse_all parse_node parse_connection
    number_rows used_rows has_row write_at read_numbers read_entries split_tokens add_node_gene
    add_connection_gene store atoi strtol skip_space digits_value i32 obtain_function_from_name
loaded_test = (refl, refl, refl)

-- A genome loaded into a fresh object comes back from its own text.
abbrev fresh : Encoding ℤ
fresh = record empty { row_orderer_list = [] }

abbrev first_loaded : Encoding ℤ
first_loaded = outcome (load numbers junk edge genome_text fresh)

reloads : load numbers junk edge (json show_int first_loaded) fresh ≡ some first_loaded
unfolding load parse_text build add_nodes add_connections parse_all parse_node parse_connection
    number_rows used_rows has_row write_at read_numbers read_entries split_tokens add_node_gene
    add_connection_gene store atoi strtol skip_space digits_value i32 obtain_function_from_name json
    json_rows json_entries show_int show_digits
reloads = refl

abbrev first_rows : List ℤ
first_rows = pos 1 ∷ []

-- A node of each kind, a node that does not exist, and a connection back.
abbrev written : Encoding ℤ
written = record fresh {
  lnode_genes =
      node_gene numbers (pos 0) input (pos 0) sin
      ∷ record junk { exist = false; node_output_value = pos 0 }
      ∷ node_gene numbers (pos 2) output (pos 1) identity
      ∷ [];
  lconnection_genes =
      connection_gene numbers (pos 3) (pos 2) (pos 0) (pos 5) true
      ∷ record edge { exist = false }
      ∷ [];
  row_orderer_list = pos 0 ∷ pos 1 ∷ [];
}

parse_text-json_example :
    parse_text numbers junk edge (tokens (json show_int written))
    ≡ some (record {
      rows = pos 0 ∷ pos 1 ∷ [];
      nodes = read_all numbers (read_back numbers) junk written.lnode_genes;
      connections =
          read_all numbers (read_connection numbers show_int) edge written.lconnection_genes;
    })
parse_text-json_example =
    parse_text-json numbers show_int junk edge written (pos 0) (pos 1 ∷ [])
      (λ w. (show_int-IsWord w).0) refl (small 0, (small 1, tt))
      ((small 0, small 0), ((small 7, small 7), ((small 2, small 1), tt)))
      ((small 3, small 2, small 0), ((small 0, small 0, small 2), tt))
  where
    small : (n : ℕ) → IsInt (pos (n % 100))
    small n = (omega arith, omega arith)
