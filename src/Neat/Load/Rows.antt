-- ===== src/Neat/Load/Rows.antt =====
-- The rows of a text that `load` (proyecto/NEAT/src/genetic_encoding.cpp) keeps.
use tareas_elo.Common.{
  ℕ, zero, suc, ◌≡◌, refl, some, List, [], ◌∷◌, true, false, ◌||◌, get_elem?, Bool, Bool-cases, inl,
  inr, ap, ◌∙◌,
}
use mathlib.Core.Option.{some-injective}
use tareas_elo.Common.Int.{ℤ, eqb_ℤ, eqb_ℤ-refl, eqb_ℤ→≡}
use tareas_elo.Neat.Genome.{NodeGene}
use tareas_elo.Neat.Load.{has_row, used_rows}

-- `ys` are the elements of `xs` of which P holds, in order.
pub data FilterOf {A : Type 0} (P : A → Type 0) : List A → List A → Type 0 where
  nothing : FilterOf P [] []
  taken : {x : A} {xs ys : List A} → P x → FilterOf P xs ys → FilterOf P (x ∷ xs) (x ∷ ys)
  dropped : {x : A} {xs ys : List A} → (P x → ⊥) → FilterOf P xs ys → FilterOf P (x ∷ xs) ys

-- The row is that of an entry of the text, of a node that exists or not.
abbrev pub RowOf : {D : Type 0} → List (NodeGene D) → ℤ → Type 0
RowOf {D} nodes row = (i : ℕ) × (g : NodeGene D) × (get_elem? nodes i ≡ some g) × (g.row ≡ row)

has_row-RowOf :
    {D : Type 0} (row : ℤ) (nodes : List (NodeGene D)) → has_row row nodes ≡ true → RowOf nodes row
unfolding has_row
has_row-RowOf row [] e = absurd cc
has_row-RowOf row (g ∷ gs) e = elim (Bool-cases (eqb_ℤ g.row row)) [
  | inl same ↦ (0, g, refl, eqb_ℤ→≡ g.row row same)
  | inr other ↦ let (i, h, at, same) = has_row-RowOf row gs (rw other at e) in (suc i, h, at, same)
]

RowOf-has_row :
    {D : Type 0} (row : ℤ) (nodes : List (NodeGene D)) → RowOf nodes row → has_row row nodes ≡ true
unfolding has_row
RowOf-has_row row [] (i, h, at, same) = absurd cc
RowOf-has_row {D} row (g ∷ gs) (zero, h, at, same) =
    rw (ap (λ (k : NodeGene D). k.row) (some-injective g h at) ∙ same, eqb_ℤ-refl row) refl
RowOf-has_row row (g ∷ gs) (suc i, h, at, same) =
    rw (RowOf-has_row row gs (i, h, at, same)) (or_true (eqb_ℤ g.row row))
  where
    or_true : (b : Bool) → (b || true) ≡ true
    or_true true = refl
    or_true false = refl

pub used_rows-FilterOf :
    {D : Type 0} (nodes : List (NodeGene D)) (rows : List ℤ)
    → FilterOf (RowOf nodes) rows (used_rows nodes rows)
unfolding used_rows
used_rows-FilterOf nodes [] = nothing
used_rows-FilterOf nodes (row ∷ rows) = elim (Bool-cases (has_row row nodes)) [
  | inl there ↦ rw there (taken (has_row-RowOf row nodes there) (used_rows-FilterOf nodes rows))
  | inr absent ↦
      rw absent
        (dropped (λ there. cc (RowOf-has_row row nodes there)) (used_rows-FilterOf nodes rows))
]
