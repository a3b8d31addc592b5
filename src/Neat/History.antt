-- ===== src/Neat/History.antt =====
-- The history of `Population` (proyecto/NEAT/src/NEAT.cpp): which number a node on a connection, an
-- innovation and a row got, so that all genomes use the same.
use tareas_elo.Common.{
  ℕ, suc, ◌+◌, ◌-◌, ◌≡◌, Option, none, some, List, [], ◌∷◌, ◌++◌, Bool, true, false, ◌&&◌, ◌||◌,
  ◌==◌, length, get_elem?, set, take, drop, replicate, if◌then◌else◌, leb, ltb,
}
use tareas_elo.Common.Int.{ℤ, pos, negsuc, ltb_ℤ, eqb_ℤ, ◌+ℤ◌}
use tareas_elo.Neat.Genome.{index}
use tareas_elo.Neat.Table.{Obtained, obtain, add_cells}
use tareas_elo.Neat.Population.{Population, M, ◌>>=◌, ◌>>◌, pure, lift, get, modify}
pub mod Kept
pub mod Place

module _ {D : Type 0} where
  unfoldable pub obtain_historical_node : ℤ → ℤ → M D ℤ
  obtain_historical_node in_node out_node = do
    p ← get
    r ← lift (obtain (p.last_node +ℤ pos 1) in_node out_node p.historical_nodes)
    modify (λ q. record q {
      historical_nodes = r.rows;
      last_node = if r.is_new then p.last_node +ℤ pos 1 else p.last_node;
    })
    pure r.number

  unfoldable pub obtain_innovation : ℤ → ℤ → M D ℤ
  obtain_innovation in_node out_node = do
    p ← get
    r ← lift (obtain p.last_innovation in_node out_node p.historical_innovation)
    modify (λ q. record q {
      historical_innovation = r.rows;
      last_innovation = if r.is_new then p.last_innovation +ℤ pos 1 else p.last_innovation;
    })
    pure r.number

-- The first place of a row in the order, from i on.
unfoldable pub find_row : ℤ → ℕ → List ℤ → Option ℕ
find_row row i [] = none
find_row row i (x ∷ xs) =
    let later = find_row row (i + 1) xs in if eqb_ℤ row x then some i else later

-- `list.insert(list.begin() + i, x)`.
abbrev pub insert_at : ℕ → ℤ → List ℤ → List ℤ
insert_at i x xs = take i xs ++ (x ∷ drop i xs)

-- The row that is known for a node: a number that is not negative.
unfoldable pub known_row : List ℤ → ℕ → Option ℤ
known_row rows node = elim (get_elem? rows node) [
  | none ↦ none
  | some row ↦ if ltb_ℤ row (pos 0) then none else some row
]

module _ {D : Type 0} where
  -- `historical_row.at(node) = row; return row`.
  unfoldable pub remember_row : ℕ → ℤ → M D ℤ
  remember_row node row = do
    modify (λ p. record p { historical_row = set p.historical_row node row })
    pure row

  -- A new row, at place i of the order.
  unfoldable pub insert_row : ℕ → ℕ → M D ℤ
  unfolding remember_row
  insert_row node i = do
    p ← get
    modify (λ q. record q {
      row_orderer_list = insert_at i p.last_row q.row_orderer_list;
      last_row = p.last_row +ℤ pos 1;
    })
    remember_row node p.last_row

  -- The row for a node on a connection from the row at place `i` of the order to the row at place
  -- `o`, where it has none yet.
  unfoldable pub choose_row : ℕ → ℤ → ℕ → ℕ → M D ℤ
  choose_row node row_node_initial_in i o =
      if i == o
      then pure row_node_initial_in
      else if o == i + 1
      then insert_row node (i + 1)
      else if i == o + 1
      then insert_row node (i - 1)
      else do
        p ← get
        row ← lift (get_elem? p.row_orderer_list (if ltb o i then i - 1 else i + 1))
        remember_row node row

  -- A row that the order does not have ends the process.
  unfoldable pub new_row : ℕ → ℤ → ℤ → M D ℤ
  new_row node row_node_initial_in row_node_initial_out = do
    p ← get
    i ← lift (find_row row_node_initial_in 0 p.row_orderer_list)
    o ← lift (find_row row_node_initial_out 0 p.row_orderer_list)
    modify (λ q. record q { historical_row = add_cells node q.historical_row })
    choose_row node row_node_initial_in i o

  abbrev pub or_else : Option ℤ → M D ℤ → M D ℤ
  or_else (some row) later = pure row
  or_else none later = later

  -- `obtain_row`. A negative node has no known row, and the later `at` throws.
  unfoldable pub obtain_row : ℤ → ℤ → ℤ → M D ℤ
  obtain_row node row_node_initial_in row_node_initial_out = do
    p ← get
    n ← lift (index node)
    or_else (known_row p.historical_row n) (new_row n row_node_initial_in row_node_initial_out)
