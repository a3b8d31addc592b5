-- ===== src/Neat/Table.antt =====
-- The tables of numbers of pairs of nodes, `historical_nodes` and `historical_innovation` of
-- proyecto/NEAT/src/NEAT.cpp: -1, or no cell, for a pair without a number.
use tareas_elo.Common.{
  ℕ, ◌+◌, ◌-◌, Option, none, some, List, [], ◌∷◌, ◌++◌, Bool, true, false, length, get_elem?, set,
  replicate, if◌then◌else◌, ◌>>=◌,
}
use tareas_elo.Common.Int.{ℤ, pos, negsuc, ltb_ℤ}
use tareas_elo.Neat.Genome.{index, add_rows}
pub mod Numbering

-- `while (size - 1 < b) push_back(-1)`.
abbrev pub add_cells : ℕ → List ℤ → List ℤ
add_cells b row = row ++ replicate (b + 1 - length row) (negsuc 0)

abbrev pub cell : List (List ℤ) → ℕ → ℕ → Option ℤ
cell rows a b = get_elem? rows a >>= λ row. get_elem? row b

pub record Obtained : Type 0 where
  pub number : ℤ
  pub is_new : Bool
  pub rows : List (List ℤ)

-- What `obtain_historical_node` and `obtain_innovation` do with their table: both loops, then the
-- number in the cell, or `fresh` where it is negative. A negative node ends the process.
unfoldable pub obtain : ℤ → ℤ → ℤ → List (List ℤ) → Option Obtained
obtain fresh in_node out_node rows = index in_node >>= λ a. get_elem? (add_rows a rows) a >>= λ row.
    index out_node >>= λ b. get_elem? (add_cells b row) b >>= λ found. some (
      if ltb_ℤ found (pos 0)
      then record {
        number = fresh;
        is_new = true;
        rows = set (add_rows a rows) a (set (add_cells b row) b fresh);
      }
      else record {
        number = found;
        is_new = false;
        rows = set (add_rows a rows) a (add_cells b row);
      })

-- The number of a pair.
unfoldable pub number_at : List (List ℤ) → ℕ → ℕ → Option ℕ
number_at rows a b = cell rows a b >>= index
