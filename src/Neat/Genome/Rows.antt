-- ===== src/Neat/Genome/Rows.antt =====
-- `nodes_at_row` of proyecto/NEAT/src/genetic_encoding.cpp: the rows as `add_node` lets them grow.
use tareas_elo.Neat.Slots.{grown-same, grown-inside}
use tareas_elo.Common.{
  refl, ℕ, ◌+◌, ◌≡◌, sym, Option, none, some, List, [], ◌∷◌, ◌++◌, get_elem?, set, if◌then◌else◌,
  ◌&&◌, ◌==◌, arith, ℕ_discrete, get_elem?-inside, get_elem?-set_self, get_elem?-set_ne,
  get_elem?-some-lt, >>=-eq-some,
}
use mathlib.Core.Option.{some-injective}
use tareas_elo.Common.Int.{ℤ, pos, eqb_ℤ}
use tareas_elo.Neat.Genome.{add_rows, push_at}

-- How often n is in the list.
abbrev pub count : ℕ → List ℤ → ℕ
count n [] = 0
count n (z ∷ rest) = (if eqb_ℤ z (pos n) then 1 else 0) + count n rest

pub count-append : (n : ℕ) (xs ys : List ℤ) → count n (xs ++ ys) ≡ count n xs + count n ys
count-append n [] ys = omega arith
count-append n (x ∷ xs) ys = omega (arith, count-append n xs ys)

-- The nodes of a row; a row that is not there has none.
abbrev pub row_at : List (List ℤ) → ℕ → List ℤ
row_at rows r = elim (get_elem? rows r) [ none ↦ [] | some row ↦ row ]

pub row_at-add_rows : (rows : List (List ℤ)) (k r : ℕ) → row_at (add_rows k rows) r ≡ row_at rows r
row_at-add_rows rows k r =
    grown-same {B = List ℤ} (λ (o : Option (List ℤ)). elim o [ none ↦ [] | some row ↦ row ]) [] k
      rows r refl

pub row_at-push_at :
    (rows rows' : List (List ℤ)) (k : ℕ) (z : ℤ) (r n : ℕ)
    → push_at k z rows ≡ some rows'
    → count n (row_at rows' r)
      ≡ count n (row_at rows r) + (if r == k && eqb_ℤ z (pos n) then 1 else 0)
row_at-push_at rows rows' k z r n e =
    let (row, at, done) = >>=-eq-some (get_elem? rows k) _ e in
    elim (ℕ_discrete r k) [
      | yes here ↦
          rw
            (
              here,
              ← some-injective (set rows k (row ++ (z ∷ []))) rows' done,
              row_at,
              at,
              get_elem?-set_self rows k (row ++ (z ∷ [])) (get_elem?-some-lt rows k row at),
            )
            (ground (arith, count-append n row (z ∷ [])))
      | no other ↦
          rw
            (
              ← some-injective (set rows k (row ++ (z ∷ []))) rows' done,
              row_at,
              get_elem?-set_ne rows k r (row ++ (z ∷ [])) (λ same. other (sym same)),
            )
            (ground arith)
    ]

-- Where rows are added up to k, there is a row k to push to.
pub push_at-add_rows :
    (k : ℕ) (z : ℤ) (rows : List (List ℤ))
    → (rows' : List (List ℤ)) × (push_at k z (add_rows k rows) ≡ some rows')
push_at-add_rows k z rows =
    let (row, at) = get_elem?-inside (add_rows k rows) k (grown-inside {A = List ℤ} [] k rows) in
    (set (add_rows k rows) k (row ++ (z ∷ [])), rw at)
