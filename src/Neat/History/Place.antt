-- ===== src/Neat/History/Place.antt =====
-- Where `obtain_row` of proyecto/NEAT/src/NEAT.cpp puts a new row.
use tareas_elo.Common.{
  ℕ, suc, ◌+◌, ◌-◌, ◌≡◌, refl, ap, ◌∙◌, some, none, List, [], ◌∷◌, ◌++◌, length, set, true, false,
  ◌==◌, arith,
}
use tareas_elo.Common.Int.{ℤ, pos, ◌+ℤ◌}
use tareas_elo.Neat.Table.{add_cells}
use tareas_elo.Neat.Population.{Population, ◌>>=◌, pure, lift, get, modify}
use tareas_elo.Neat.Population.Rules.{Returns}
use tareas_elo.Neat.History.{
  find_row, insert_at, known_row, remember_row, insert_row, choose_row, new_row, obtain_row,
}

insert_at-middle :
    (before after : List ℤ) (x y : ℤ)
    → insert_at (suc (length before)) x (before ++ (y ∷ after)) ≡ before ++ (y ∷ x ∷ after)
insert_at-middle [] after x y = refl
insert_at-middle (z ∷ before) after x y = ap (λ xs. z ∷ xs) (insert_at-middle before after x y)

insert_at-front :
    (before after : List ℤ) (x : ℤ)
    → insert_at (length before) x (before ++ after) ≡ before ++ (x ∷ after)
insert_at-front [] after x = refl
insert_at-front (z ∷ before) after x = ap (λ xs. z ∷ xs) (insert_at-front before after x)

-- Between neighbours a and b of the order, a node without a row gets the next free row. On the
-- connection from a to b the row comes between them; on the one back from b to a it comes before
-- both.
pub obtain_row-adjacent :
    {D : Type 0} (p : Population D) (node : ℕ) (a b : ℤ) (before after : List ℤ)
    → p.row_orderer_list ≡ before ++ (a ∷ b ∷ after)
    → find_row a 0 p.row_orderer_list ≡ some (length before)
    → find_row b 0 p.row_orderer_list ≡ some (length before + 1)
    → known_row p.historical_row node ≡ none
    → Returns (obtain_row (pos node) a b) p (λ row q.
      (row ≡ p.last_row) × (q.row_orderer_list ≡ before ++ (a ∷ p.last_row ∷ b ∷ after)))
      × Returns (obtain_row (pos node) b a) p (λ row q.
        (row ≡ p.last_row) × (q.row_orderer_list ≡ before ++ (p.last_row ∷ a ∷ b ∷ after)))
unfolding obtain_row new_row choose_row insert_row remember_row ◌>>=◌ get lift modify pure
obtain_row-adjacent {D} p node a b before after order at_a at_b unknown = (
  (
    p.last_row,
    inserted (length before + 1),
    rw (unknown, at_a, at_b, not_same, forward) refl,
    (
      refl,
      rw order (
          ap (λ i. insert_at i p.last_row (before ++ (a ∷ b ∷ after))) {y = suc (length before)}
            (omega arith)
          ∙ insert_at-middle before (b ∷ after) p.last_row a),
    ),
  ),
  (
    p.last_row,
    inserted (length before + 1 - 1),
    rw (unknown, at_a, at_b, not_back, not_forward, backward) refl,
    (
      refl,
      rw order (
          ap (λ i. insert_at i p.last_row (before ++ (a ∷ b ∷ after))) {y = length before}
            (omega arith)
          ∙ insert_at-front before (a ∷ b ∷ after) p.last_row),
    ),
  ),
)
  where
    inserted : ℕ → Population D
    inserted i = record p {
      historical_row = set (add_cells node p.historical_row) node p.last_row;
      row_orderer_list = insert_at i p.last_row p.row_orderer_list;
      last_row = p.last_row +ℤ pos 1;
    }

    not_same : (length before == length before + 1) ≡ false
    not_same = ground arith

    forward : (length before + 1 == length before + 1) ≡ true
    forward = ground arith

    not_back : (length before + 1 == length before) ≡ false
    not_back = ground arith

    not_forward : (length before == length before + 1 + 1) ≡ false
    not_forward = ground arith

    backward : (length before + 1 == length before + 1) ≡ true
    backward = ground arith
