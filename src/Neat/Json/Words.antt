-- ===== src/Neat/Json/Words.antt =====
-- The tokens of the text that `JSON` writes.
use tareas_elo.Common.{
  ℕ, ◌≡◌, refl, ap, ◌∙◌, List, [], ◌∷◌, ◌++◌, Bool, true, false, map, append_assoc, if◌then◌else◌,
  inl, inr, Bool-cases,
}
use tareas_elo.Common.Int.{ℤ}
use tareas_elo.Common.Text.{codes, show_int}
use tareas_elo.Neat.Functions.{Function, gaussian, sigmoid, sin, cos, identity, str_name}
use tareas_elo.Neat.Genome.{GeneType, input, hidden, output, ConnectionGene, NodeGene, Encoding}
use tareas_elo.Neat.Tokens.{split_tokens, tokens}
use tareas_elo.Neat.Tokens.Words.{IsWord, split_tokens-word, show_int-IsWord}
use tareas_elo.Neat.Json.{
  show_bool, show_type, stream, json_rows, json_entries, node_texts, connection_texts, json_node,
  json_connection, json,
}

show_bool-IsWord : (b : Bool) → IsWord (show_bool b)
show_bool-IsWord true = ((λ e. cc), (refl, tt))
show_bool-IsWord false = ((λ e. cc), (refl, tt))

show_type-IsWord : (t : GeneType) → IsWord (show_type t)
show_type-IsWord input = ((λ e. cc), (refl, tt))
show_type-IsWord hidden = ((λ e. cc), (refl, tt))
show_type-IsWord output = ((λ e. cc), (refl, tt))

str_name-IsWord : (f : Function) → IsWord (str_name f)
str_name-IsWord gaussian =
    ((λ e. cc), (refl, (refl, (refl, (refl, (refl, (refl, (refl, (refl, tt)))))))))
str_name-IsWord sigmoid = ((λ e. cc), (refl, (refl, (refl, (refl, (refl, (refl, (refl, tt))))))))
str_name-IsWord sin = ((λ e. cc), (refl, (refl, (refl, tt))))
str_name-IsWord cos = ((λ e. cc), (refl, (refl, (refl, tt))))
str_name-IsWord identity =
    ((λ e. cc), (refl, (refl, (refl, (refl, (refl, (refl, (refl, (refl, tt)))))))))

-- A word, a comma, and text whose tokens are known.
word-comma :
    (w text : List ℕ) {ts : List (List ℕ)}
    → IsWord w
    → split_tokens [] text ≡ ts
    → split_tokens [] (w ++ (b',' ∷ text)) ≡ w ∷ ts
word-comma w text word e = split_tokens-word w b',' text word refl ∙ ap (λ ts. w ∷ ts) e

stream-append :
    (texts : List (List ℕ)) (rest : List ℕ) → stream texts [] ++ rest ≡ stream texts rest
stream-append [] rest = refl
stream-append (text ∷ texts) rest =
    append_assoc text (stream texts []) rest ∙ ap (λ s. text ++ s) (stream-append texts rest)

-- The tokens of an entry.
abbrev pub node_entry : {D : Type 0} → NodeGene D → List (List ℕ)
node_entry g =
    if g.exist
    then codes "exist"
      ∷ codes "1"
      ∷ codes "node"
      ∷ show_int g.node
      ∷ codes "type"
      ∷ show_type g.type
      ∷ codes "row"
      ∷ show_int g.row
      ∷ codes "function"
      ∷ str_name g.random_function
      ∷ []
    else codes "exist" ∷ codes "0" ∷ []

abbrev pub connection_entry : {D : Type 0} → (D → List ℕ) → ConnectionGene D → List (List ℕ)
connection_entry show_double c =
    if c.exist
    then codes "exist"
      ∷ codes "1"
      ∷ codes "innovation"
      ∷ show_int c.innovation
      ∷ codes "in"
      ∷ show_int c.in_node
      ∷ codes "out"
      ∷ show_int c.out_node
      ∷ codes "weight"
      ∷ show_double c.weight
      ∷ codes "enable"
      ∷ show_bool c.enable
      ∷ []
    else codes "exist" ∷ codes "0" ∷ []

-- Entries whose tokens are known one by one.
json_entries-tokens :
    {G : Type 0} (text : G → List ℕ) (entry : G → List (List ℕ))
    → ((g : G) (rest : List ℕ)
        → split_tokens [] (text g ++ (b'}' ∷ rest)) ≡ entry g ++ split_tokens [] rest)
    → (gs : List G) (rest : List ℕ)
    → split_tokens [] (json_entries (map text gs) ++ rest)
      ≡ stream (map entry gs) (split_tokens [] rest)
unfolding split_tokens json_entries
json_entries-tokens text entry each [] rest = refl
json_entries-tokens text entry each (g ∷ []) rest =
    ap (split_tokens []) (append_assoc (text g) (codes "}\n") rest) ∙ each g (10 ∷ rest)
json_entries-tokens text entry each (g ∷ h ∷ gs) rest =
    let later = json_entries (map text (h ∷ gs)) in
    ap (split_tokens []) (append_assoc (text g) (codes "},\n" ++ later) rest)
    ∙ each g (b',' ∷ 10 ∷ (later ++ rest))
    ∙ ap (λ ts. entry g ++ ts) (json_entries-tokens text entry each (h ∷ gs) rest)

-- The numbers of at least one row, and the closing bracket.
json_rows-tokens :
    (row : ℤ) (rows : List ℤ) (rest : List ℕ)
    → split_tokens [] (json_rows (row ∷ rows) ++ (10 ∷ rest))
      ≡ map show_int (row ∷ rows) ++ (codes "]" ∷ split_tokens [] rest)
unfolding split_tokens json_rows
json_rows-tokens row [] rest =
    ap (split_tokens []) (append_assoc (show_int row) (codes "\n\t\t]") (10 ∷ rest))
    ∙ split_tokens-word (show_int row) 10 (codes "\t\t]" ++ (10 ∷ rest)) (show_int-IsWord row).0
        refl
json_rows-tokens row (next ∷ rows) rest =
    let later = json_rows (next ∷ rows) in
    ap (split_tokens []) (append_assoc (show_int row) (codes "," ++ later) (10 ∷ rest))
    ∙ word-comma (show_int row) (later ++ (10 ∷ rest)) (show_int-IsWord row).0
        (json_rows-tokens next rows rest)

module _ {D : Type 0} (show_double : D → List ℕ) (words : (w : D) → IsWord (show_double w)) where
  node_words :
      (g : NodeGene D) (rest : List ℕ)
      → split_tokens [] (stream (node_texts show_double g) (b'}' ∷ rest))
        ≡ (codes "exist"
            ∷ codes "1"
            ∷ codes "node"
            ∷ show_int g.node
            ∷ codes "type"
            ∷ show_type g.type
            ∷ codes "row"
            ∷ show_int g.row
            ∷ codes "function"
            ∷ str_name g.random_function
            ∷ [])
          ++ split_tokens [] rest
  unfolding split_tokens
  node_words g rest =
      let name = str_name g.random_function ++ (34 ∷ b'}' ∷ rest) in
      let function = codes " \"function\": \"" ++ name in
      let row = codes " \"row\": " ++ (show_int g.row ++ (b',' ∷ function)) in
      let type = codes "\"type\": " ++ (show_type g.type ++ (b',' ∷ row)) in
      ap (λ ts. codes "exist" ∷ codes "1" ∷ codes "node" ∷ ts)
        (word-comma (show_int g.node) type (show_int-IsWord g.node).0 (
          ap (λ ts. codes "type" ∷ ts)
            (word-comma (show_type g.type) row (show_type-IsWord g.type) (
              ap (λ ts. codes "row" ∷ ts)
                (word-comma (show_int g.row) function (show_int-IsWord g.row).0 (
                  ap (λ ts. codes "function" ∷ ts)
                    (split_tokens-word (str_name g.random_function) 34 (b'}' ∷ rest)
                      (str_name-IsWord g.random_function) refl)))))))

  json_node-tokens :
      (g : NodeGene D) (rest : List ℕ)
      → split_tokens [] (json_node show_double g ++ (b'}' ∷ rest))
        ≡ node_entry g ++ split_tokens [] rest
  unfolding split_tokens
  json_node-tokens g rest = elim (Bool-cases g.exist) [
    | inl there ↦ rw (there) (
        ap (split_tokens []) (stream-append (node_texts show_double g) (b'}' ∷ rest))
        ∙ node_words g rest)
    | inr missing ↦ rw (missing) refl
  ]

  connection_words :
      (c : ConnectionGene D) (rest : List ℕ)
      → split_tokens [] (stream (connection_texts show_double c) (b'}' ∷ rest))
        ≡ (codes "exist"
            ∷ codes "1"
            ∷ codes "innovation"
            ∷ show_int c.innovation
            ∷ codes "in"
            ∷ show_int c.in_node
            ∷ codes "out"
            ∷ show_int c.out_node
            ∷ codes "weight"
            ∷ show_double c.weight
            ∷ codes "enable"
            ∷ show_bool c.enable
            ∷ [])
          ++ split_tokens [] rest
  unfolding split_tokens
  connection_words c rest =
      let enable = codes "\"enable\": " ++ (show_bool c.enable ++ (b'}' ∷ rest)) in
      let weight = codes "\"weight\": " ++ (show_double c.weight ++ (b',' ∷ enable)) in
      let out_node = codes "\"out\": " ++ (show_int c.out_node ++ (b',' ∷ weight)) in
      let in_node = codes "\"in\": " ++ (show_int c.in_node ++ (b',' ∷ out_node)) in
      ap (λ ts. codes "exist" ∷ codes "1" ∷ codes "innovation" ∷ ts)
        (word-comma (show_int c.innovation) in_node (show_int-IsWord c.innovation).0 (
          ap (λ ts. codes "in" ∷ ts)
            (word-comma (show_int c.in_node) out_node (show_int-IsWord c.in_node).0 (
              ap (λ ts. codes "out" ∷ ts)
                (word-comma (show_int c.out_node) weight (show_int-IsWord c.out_node).0 (
                  ap (λ ts. codes "weight" ∷ ts)
                    (word-comma (show_double c.weight) enable (words c.weight) (
                      ap (λ ts. codes "enable" ∷ ts)
                        (split_tokens-word (show_bool c.enable) b'}' rest
                          (show_bool-IsWord c.enable) refl)))))))))

  json_connection-tokens :
      (c : ConnectionGene D) (rest : List ℕ)
      → split_tokens [] (json_connection show_double c ++ (b'}' ∷ rest))
        ≡ connection_entry show_double c ++ split_tokens [] rest
  unfolding split_tokens
  json_connection-tokens c rest = elim (Bool-cases c.exist) [
    | inl there ↦ rw (there) (
        ap (split_tokens []) (stream-append (connection_texts show_double c) (b'}' ∷ rest))
        ∙ connection_words c rest)
    | inr missing ↦ rw (missing) refl
  ]

  -- The text of a genome with a row: two words, the rows, a word, the entries of the nodes, a word,
  -- and the entries of the connections, with a bracket behind each list.
  pub json-tokens :
      (e : Encoding D) (row : ℤ) (rows : List ℤ)
      → e.row_orderer_list ≡ row ∷ rows
      → tokens (json show_double e)
        ≡ codes "Genetic_Encoding"
          ∷ codes "row_order"
          ∷ (map show_int e.row_orderer_list
              ++ (codes "]"
                  ∷ codes "nodes"
                  ∷ stream (map node_entry e.lnode_genes) (
                      codes "]"
                      ∷ codes "connection_genes"
                      ∷ stream
                          (map (connection_entry show_double) e.lconnection_genes)
                          (codes "]" ∷ []))))
  unfolding json split_tokens
  json-tokens e row rows has_rows = rw (has_rows) (
      let connections =
        json_entries (map (json_connection show_double) e.lconnection_genes)
        ++ codes "\t\t]\n\t}\n}" in
      let nodes =
        json_entries (map (json_node show_double) e.lnode_genes)
        ++ (codes "\t\t],\n\t\t\"connection_genes\":\n\t\t[\n" ++ connections) in
      ap (λ ts. codes "Genetic_Encoding" ∷ codes "row_order" ∷ ts)
        (json_rows-tokens row rows (codes "\t\t\"nodes\":\n\t\t[\n" ++ nodes)
          ∙ ap (λ ts. map show_int (row ∷ rows) ++ (codes "]" ∷ codes "nodes" ∷ ts))
              (json_entries-tokens (json_node show_double) node_entry json_node-tokens e.lnode_genes
                  (codes "\t\t],\n\t\t\"connection_genes\":\n\t\t[\n" ++ connections)
                ∙ ap
                    (λ ts.
                      stream (map node_entry e.lnode_genes)
                        (codes "]" ∷ codes "connection_genes" ∷ ts))
                    (json_entries-tokens (json_connection show_double)
                      (connection_entry show_double) json_connection-tokens e.lconnection_genes
                      (codes "\t\t]\n\t}\n}")))))
