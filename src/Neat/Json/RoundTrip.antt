-- ===== src/Neat/Json/RoundTrip.antt =====
-- The text that `JSON` writes, as `load` parses it.
use tareas_elo.Common.{
  ℕ, ◌^◌, ◌≡◌, refl, ap, ◌∙◌, Option, none, some, List, [], ◌∷◌, ◌++◌, Bool, true, false, map,
  if◌then◌else◌, inl, inr, Bool-cases,
}
use tareas_elo.Common.Int.{ℤ, Fits, i32}
use tareas_elo.Common.Doubles.{Doubles}
use tareas_elo.Common.Text.{codes, show_int, atoi, strtol, skip_space, digits_value}
use tareas_elo.Common.Text.Decimal.{atoi-show_int}
use tareas_elo.Neat.Functions.{obtain_function-str_name}
use tareas_elo.Neat.Genome.{
  GeneType, input, hidden, output, ConnectionGene, NodeGene, Encoding, node_gene, missing_node,
  connection_gene, missing_connection,
}
use tareas_elo.Neat.Tokens.{tokens, is_set, read_numbers, read_entries}
use tareas_elo.Neat.Tokens.Words.{IsWord, show_int-IsWord}
use tareas_elo.Neat.Population.Rules.{All}
use tareas_elo.Neat.Load.{gene_type, parse_node, parse_connection, parse_all, parse_text}
use tareas_elo.Neat.Json.{show_bool, show_type, stream, json}
use tareas_elo.Neat.Json.Words.{node_entry, connection_entry, json-tokens}

abbrev pub IsInt : ℤ → Type 0
IsInt z = Fits (2 ^ 31) z

abbrev pub NodeInts : {D : Type 0} → NodeGene D → Type 0
NodeInts g = IsInt g.node × IsInt g.row

abbrev pub ConnectionInts : {D : Type 0} → ConnectionGene D → Type 0
ConnectionInts c = IsInt c.innovation × IsInt c.in_node × IsInt c.out_node

read_numbers-show_int :
    (zs : List ℤ) (ts : List (List ℕ))
    → All IsInt zs
    → read_numbers (map show_int zs ++ (codes "]" ∷ ts)) ≡ some (zs, ts)
unfolding read_numbers
read_numbers-show_int [] ts ints = refl
read_numbers-show_int (z ∷ zs) ts ints =
    rw
      (
        read_numbers,
        (show_int-IsWord z).1,
        read_numbers-show_int zs ts ints.1,
        atoi-show_int z ints.0,
      )
      refl

-- An entry in front of the others.
abbrev entry_first :
    List (List ℕ)
    → Option (List (List (List ℕ)) × List (List ℕ))
    → Option (List (List (List ℕ)) × List (List ℕ))
entry_first e r = elim r [ none ↦ none | some (entries, rest) ↦ some (e ∷ entries, rest) ]

read_entries-stream :
    {G : Type 0} (size : ℕ) (entry : G → List (List ℕ))
    → ((g : G) (ts : List (List ℕ))
        → read_entries size [] (entry g ++ ts) ≡ entry_first (entry g) (read_entries size [] ts))
    → (gs : List G) (ts : List (List ℕ))
    → read_entries size [] (stream (map entry gs) (codes "]" ∷ ts)) ≡ some (map entry gs, ts)
unfolding read_entries
read_entries-stream size entry each [] ts = refl
read_entries-stream size entry each (g ∷ gs) ts =
    each g (stream (map entry gs) (codes "]" ∷ ts))
    ∙ ap (entry_first (entry g)) (read_entries-stream size entry each gs ts)

read_node_entry :
    {D : Type 0} (g : NodeGene D) (ts : List (List ℕ))
    → read_entries 8 [] (node_entry g ++ ts) ≡ entry_first (node_entry g) (read_entries 8 [] ts)
unfolding read_entries atoi strtol skip_space digits_value i32
read_node_entry g ts = elim (Bool-cases g.exist) [
  | inl there ↦ rw (there) refl
  | inr missing ↦ rw (missing) refl
]

read_connection_entry :
    {D : Type 0} (show_double : D → List ℕ) (c : ConnectionGene D) (ts : List (List ℕ))
    → read_entries 10 [] (connection_entry show_double c ++ ts)
      ≡ entry_first (connection_entry show_double c) (read_entries 10 [] ts)
unfolding read_entries atoi strtol skip_space digits_value i32
read_connection_entry show_double c ts = elim (Bool-cases c.exist) [
  | inl there ↦ rw (there) refl
  | inr missing ↦ rw (missing) refl
]

gene_type-show_type : (t : GeneType) → gene_type (atoi (show_type t)) ≡ some t
unfolding atoi strtol skip_space digits_value i32
gene_type-show_type input = refl
gene_type-show_type hidden = refl
gene_type-show_type output = refl

is_set-show_bool : (b : Bool) → is_set (show_bool b) ≡ b
unfolding atoi strtol skip_space digits_value i32
is_set-show_bool true = refl
is_set-show_bool false = refl

module _ (d : Doubles) where
  -- A gene as it is read: without values, and without fields where it does not exist, for which those
  -- of the gene before stand.
  abbrev pub read_back : NodeGene d.Double → NodeGene d.Double → NodeGene d.Double
  read_back last g =
      if g.exist then node_gene d g.node g.type g.row g.random_function else missing_node d last

  abbrev pub read_connection :
      (d.Double → List ℕ)
      → ConnectionGene d.Double
      → ConnectionGene d.Double
      → ConnectionGene d.Double
  read_connection show_double last c =
      if c.exist
      then connection_gene d c.innovation c.in_node c.out_node (d.atof (show_double c.weight))
          c.enable
      else missing_connection d last

  abbrev pub read_all : {G : Type 0} → (G → G → G) → G → List G → List G
  read_all read last [] = []
  read_all read last (g ∷ gs) = read last g ∷ read_all read (read last g) gs

  parse_node-entry :
      (junk : NodeGene d.Double) (junk_connection : ConnectionGene d.Double)
      (last g : NodeGene d.Double)
      → NodeInts g
      → parse_node d junk junk_connection last (node_entry g) ≡ some (read_back last g)
  unfolding parse_node
  parse_node-entry junk junk_connection last g ints = elim (Bool-cases g.exist) [
    | inl there ↦
        rw
          (
            there,
            gene_type-show_type g.type,
            obtain_function-str_name g.random_function,
            atoi-show_int g.node ints.0,
            atoi-show_int g.row ints.1,
          )
          refl
    | inr missing ↦ rw (missing) refl
  ]

  parse_connection-entry :
      (show_double : d.Double → List ℕ) (junk : NodeGene d.Double)
      (junk_connection last c : ConnectionGene d.Double)
      → ConnectionInts c
      → parse_connection d junk junk_connection last (connection_entry show_double c)
        ≡ some (read_connection show_double last c)
  unfolding parse_connection
  parse_connection-entry show_double junk junk_connection last c ints = elim (Bool-cases c.exist) [
    | inl there ↦
        rw
          (
            there,
            atoi-show_int c.innovation ints.0,
            atoi-show_int c.in_node ints.1,
            atoi-show_int c.out_node ints.2,
            is_set-show_bool c.enable,
          )
          refl
    | inr missing ↦ rw (missing) refl
  ]

  parse_all-stream :
      {G : Type 0} (junk : NodeGene d.Double) (junk_connection : ConnectionGene d.Double)
      (parse : G → List (List ℕ) → Option G) (entry : G → List (List ℕ)) (read : G → G → G)
      (Ints : G → Type 0)
      → ((last g : G) → Ints g → parse last (entry g) ≡ some (read last g))
      → (last : G) (gs : List G) → All Ints gs
      → parse_all d junk junk_connection parse last (map entry gs) ≡ some (read_all read last gs)
  unfolding parse_all
  parse_all-stream junk junk_connection parse entry read Ints each last [] ints = refl
  parse_all-stream junk junk_connection parse entry read Ints each last (g ∷ gs) ints =
      rw
        (
          each last g ints.0,
          parse_all-stream junk junk_connection parse entry read Ints each (read last g) gs ints.1,
        )
        refl

  -- The text of a genome that has a row and whose numbers are ints parses to the rows and the genes of
  -- the genome, in order: all that `load` reads of an existing gene is that of the gene, and a weight is
  -- read from what was written for it. What is written for a double is a word.
  pub parse_text-json :
      (show_double : d.Double → List ℕ) (junk : NodeGene d.Double)
      (junk_connection : ConnectionGene d.Double) (e : Encoding d.Double) (row : ℤ) (rows : List ℤ)
      → ((w : d.Double) → IsWord (show_double w))
      → e.row_orderer_list ≡ row ∷ rows
      → All IsInt e.row_orderer_list
      → All NodeInts e.lnode_genes
      → All ConnectionInts e.lconnection_genes
      → parse_text d junk junk_connection (tokens (json show_double e))
        ≡ some (record {
          rows = e.row_orderer_list;
          nodes = read_all read_back junk e.lnode_genes;
          connections = read_all (read_connection show_double) junk_connection e.lconnection_genes;
        })
  unfolding parse_text
  parse_text-json show_double junk junk_connection e row rows words has_row ints nodes connections =
      rw
        (
          json-tokens show_double words e row rows has_row,
          read_numbers-show_int e.row_orderer_list _ ints,
          read_entries-stream 8 node_entry read_node_entry e.lnode_genes,
          parse_all-stream junk junk_connection (parse_node d junk junk_connection) node_entry
              read_back NodeInts (parse_node-entry junk junk_connection) junk e.lnode_genes nodes,
          read_entries-stream 10 (connection_entry show_double) (read_connection_entry show_double)
              e.lconnection_genes,
          parse_all-stream junk junk_connection (parse_connection d junk junk_connection)
              (connection_entry show_double) (read_connection show_double) ConnectionInts
              (parse_connection-entry show_double junk junk_connection) junk_connection
              e.lconnection_genes connections,
        )
        refl
