-- ===== src/Neat/Json.antt =====
-- `JSON` of proyecto/NEAT/src/genetic_encoding.cpp: the text of a genome, which `load` reads. What a
-- stream writes for a double is an argument.
use tareas_elo.Common.{ℕ, List, [], ◌∷◌, ◌++◌, Bool, true, false, map, if◌then◌else◌}
use tareas_elo.Common.Int.{ℤ, pos}
use tareas_elo.Common.Text.{codes, show_int}
use tareas_elo.Neat.Functions.{str_name}
use tareas_elo.Neat.Genome.{GeneType, input, hidden, output, ConnectionGene, NodeGene, Encoding}
pub mod Words
pub mod RoundTrip

abbrev pub show_bool : Bool → List ℕ
show_bool true = codes "1"
show_bool false = codes "0"

-- The enumeration as an int.
abbrev pub show_type : GeneType → List ℕ
show_type input = codes "0"
show_type hidden = codes "1"
show_type output = codes "2"

-- The numbers of the rows up to the closing bracket, which comes behind the last number.
unfoldable pub json_rows : List ℤ → List ℕ
json_rows [] = []
json_rows (row ∷ []) = show_int row ++ codes "\n\t\t]"
json_rows (row ∷ next ∷ rows) = show_int row ++ (codes "," ++ json_rows (next ∷ rows))

-- Entries, each but the last with a comma.
unfoldable pub json_entries : List (List ℕ) → List ℕ
json_entries [] = []
json_entries (entry ∷ []) = entry ++ codes "}\n"
json_entries (entry ∷ next ∷ entries) = entry ++ (codes "},\n" ++ json_entries (next ∷ entries))

-- What is written by one `<<` after the other, before `rest`.
abbrev pub stream : {A : Type 0} → List (List A) → List A → List A
stream [] rest = rest
stream (text ∷ texts) rest = text ++ stream texts rest

module _ {D : Type 0} (show_double : D → List ℕ) where
  -- What is written of a gene that exists, up to the closing brace.
  abbrev pub node_texts : NodeGene D → List (List ℕ)
  node_texts g =
      codes "\t\t\t{\"exist\": "
      ∷ show_bool true
      ∷ codes ",\"node\": "
      ∷ show_int g.node
      ∷ codes ",\"type\": "
      ∷ show_type g.type
      ∷ codes ", \"row\": "
      ∷ show_int g.row
      ∷ codes ", \"function\": \""
      ∷ str_name g.random_function
      ∷ codes "\""
      ∷ []

  abbrev pub connection_texts : ConnectionGene D → List (List ℕ)
  connection_texts c =
      codes "\t\t\t{\"exist\": "
      ∷ show_bool true
      ∷ codes ",\"innovation\": "
      ∷ show_int c.innovation
      ∷ codes ",\"in\": "
      ∷ show_int c.in_node
      ∷ codes ",\"out\": "
      ∷ show_int c.out_node
      ∷ codes ",\"weight\": "
      ∷ show_double c.weight
      ∷ codes ",\"enable\": "
      ∷ show_bool c.enable
      ∷ []

  abbrev pub missing_texts : List (List ℕ)
  missing_texts = codes "\t\t\t{\"exist\": " ∷ show_bool false ∷ []

  abbrev pub json_node : NodeGene D → List ℕ
  json_node g = if g.exist then stream (node_texts g) [] else stream missing_texts []

  abbrev pub json_connection : ConnectionGene D → List ℕ
  json_connection c = if c.exist then stream (connection_texts c) [] else stream missing_texts []

  -- Without a row the list of rows is not closed.
  unfoldable pub json : Encoding D → List ℕ
  json e =
      stream
        (codes "{\n\t\"Genetic_Encoding\":\n\t{\n\t\t\"row_order\":\n\t\t[\n\t\t\t"
          ∷ json_rows e.row_orderer_list
          ∷ codes "\n\t\t\"nodes\":\n\t\t[\n"
          ∷ json_entries (map json_node e.lnode_genes)
          ∷ codes "\t\t],\n\t\t\"connection_genes\":\n\t\t[\n"
          ∷ json_entries (map json_connection e.lconnection_genes)
          ∷ codes "\t\t]\n\t}\n}"
          ∷ [])
        []
