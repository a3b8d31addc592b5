-- ===== src/Neat/Table/Numbering.antt =====
-- That the numbers of proyecto/NEAT/src/NEAT.cpp tell pairs of nodes apart.
use tareas_elo.Neat.Slots.{grown-same, grown-inside}
use tareas_elo.Common.{
  ℕ, ◌+◌, ◌<◌, ◌≡◌, refl, sym, ◌∙◌, ap, ap₂, Option, none, some, List, [], true, false, length,
  get_elem?, set, if◌then◌else◌, ◌>>=◌, ◌&&◌, ◌==◌, arith, ◌⊎◌, inl, inr, ℕ_discrete,
  get_elem?-inside, get_elem?-set_self, get_elem?-set_ne, >>=-none,
}
use mathlib.Core.Option.{some-injective}
use tareas_elo.Common.Int.{ℤ, pos, negsuc}
use tareas_elo.Neat.Genome.{index, add_rows}
use tareas_elo.Neat.Table.{add_cells, cell, Obtained, obtain, number_at}

-- Numbers below `bound`, and no two pairs with one.
pub record Numbered (rows : List (List ℤ)) (bound : ℕ) : Type 0 where
  pub below : (a b n : ℕ) → number_at rows a b ≡ some n → n < bound
  pub apart :
      (a b a' b' n : ℕ)
      → number_at rows a b ≡ some n
      → number_at rows a' b' ≡ some n
      → (a ≡ a') × (b ≡ b')

-- The number in a row.
abbrev in_row : List ℤ → ℕ → Option ℕ
in_row row b = get_elem? row b >>= index

in_row-add_cells : (row : List ℤ) (k b : ℕ) → in_row (add_cells k row) b ≡ in_row row b
in_row-add_cells row k b = grown-same (λ o. o >>= index) (negsuc 0) k row b refl

number_at-add_rows :
    (rows : List (List ℤ)) (k a b : ℕ) → number_at (add_rows k rows) a b ≡ number_at rows a b
unfolding number_at
number_at-add_rows rows k a b =
    grown-same (λ (o : Option (List ℤ)). (o >>= λ row. get_elem? row b) >>= index) [] k rows a refl

number_at-row :
    (rows : List (List ℤ)) (a b : ℕ) (row : List ℤ)
    → get_elem? rows a ≡ some row
    → number_at rows a b ≡ in_row row b
unfolding number_at
number_at-row rows a b row e = ap (λ (o : Option (List ℤ)). (o >>= λ r. get_elem? r b) >>= index) e

-- With a row put in place, the numbers are its numbers there, and the old ones elsewhere.
number_at-set :
    (rows : List (List ℤ)) (a : ℕ) (row : List ℤ) (x y : ℕ)
    → a < length rows
    → number_at (set rows a row) x y ≡ (if x == a then in_row row y else number_at rows x y)
unfolding number_at
number_at-set rows a row x y inside = elim (ℕ_discrete x a) [
  | yes here ↦ rw (here, cell, get_elem?-set_self rows a row inside) (ground arith)
  | no other ↦ rw (cell, get_elem?-set_ne rows a x row (λ e. other (sym e))) (ground arith)
]

in_row-set :
    (row : List ℤ) (b n y : ℕ)
    → b < length row
    → in_row (set row b (pos n)) y ≡ (if y == b then some n else in_row row y)
in_row-set row b n y inside = elim (ℕ_discrete y b) [
  | yes here ↦ rw (here, get_elem?-set_self row b (pos n) inside) (ground arith)
  | no other ↦ rw (get_elem?-set_ne row b y (pos n) (λ e. other (sym e))) (ground arith)
]

-- What `obtain` returns on nodes that are not negative.
abbrev pub ObtainsNumber : (bound a b : ℕ) (rows : List (List ℤ)) (r : Obtained) (n : ℕ) → Type 0
ObtainsNumber bound a b rows r n =
    (r.number ≡ pos n)
    × ((x y : ℕ) → number_at r.rows x y ≡ (if x == a && y == b then some n else number_at rows x y))
    × (((r.is_new ≡ false) × (number_at rows a b ≡ some n))
        ⊎ ((r.is_new ≡ true) × (n ≡ bound) × (number_at rows a b ≡ none)))

pub obtain-number :
    (bound a b : ℕ) (rows : List (List ℤ))
    → (r : Obtained) × (n : ℕ) × (obtain (pos bound) (pos a) (pos b) rows ≡ some r)
      × ObtainsNumber bound a b rows r n
unfolding obtain
obtain-number bound a b rows =
    let (row, at) = get_elem?-inside (add_rows a rows) a in_rows in
    let (found, at_b) = get_elem?-inside (add_cells b row) b (in_cells row) in
    by_found row found at at_b
  where
    in_rows : a < length (add_rows a rows)
    in_rows = grown-inside {A = List ℤ} [] a rows

    in_cells : (row : List ℤ) → b < length (add_cells b row)
    in_cells row = grown-inside (negsuc 0) b row

    row_is :
        (row : List ℤ) (y : ℕ)
        → get_elem? (add_rows a rows) a ≡ some row
        → in_row row y ≡ number_at rows a y
    row_is row y at =
        sym (number_at-row (add_rows a rows) a y row at) ∙ number_at-add_rows rows a a y

    after :
        (row row' : List ℤ) (n x y : ℕ)
        → get_elem? (add_rows a rows) a ≡ some row
        → in_row row' y ≡ (if y == b then some n else in_row row y)
        → number_at (set (add_rows a rows) a row') x y
          ≡ (if x == a && y == b then some n else number_at rows x y)
    after row row' n x y at new =
        number_at-set (add_rows a rows) a row' x y in_rows ∙ elim (ℕ_discrete x a) [
          | yes here ↦ rw (here, new, row_is row y at) (ground arith)
          | no other ↦ rw (number_at-add_rows rows a x y) (ground arith)
        ]

    kept :
        (row : List ℤ) (n y : ℕ)
        → in_row row b ≡ some n
        → in_row (add_cells b row) y ≡ (if y == b then some n else in_row row y)
    kept row n y e = elim (ℕ_discrete y b) [
      | yes here ↦ rw (here, in_row-add_cells row b b, e) (ground arith)
      | no other ↦ rw (in_row-add_cells row b y) (ground arith)
    ]

    put :
        (row : List ℤ) (y : ℕ)
        → in_row (set (add_cells b row) b (pos bound)) y
          ≡ (if y == b then some bound else in_row row y)
    put row y =
        in_row-set (add_cells b row) b bound y (in_cells row) ∙ rw (in_row-add_cells row b y) refl

    found_in :
        (row : List ℤ) (found : ℤ)
        → get_elem? (add_cells b row) b ≡ some found
        → in_row row b ≡ index found
    found_in row found at_b = sym (in_row-add_cells row b b) ∙ ap (λ o. o >>= index) at_b

    by_found :
        (row : List ℤ) (found : ℤ)
        → get_elem? (add_rows a rows) a ≡ some row
        → get_elem? (add_cells b row) b ≡ some found
        → (r : Obtained) × (n : ℕ) × (obtain (pos bound) (pos a) (pos b) rows ≡ some r)
          × ObtainsNumber bound a b rows r n
    by_found row (pos m) at at_b = (
      record { number = pos m; is_new = false; rows = set (add_rows a rows) a (add_cells b row) },
      m,
      rw (at, at_b) (ground arith),
      (
        refl,
        λ x y. after row (add_cells b row) m x y at (kept row m y (found_in row (pos m) at_b)),
        inl (refl, sym (row_is row b at) ∙ found_in row (pos m) at_b),
      ),
    )
    by_found row (negsuc m) at at_b = (
      record {
        number = pos bound;
        is_new = true;
        rows = set (add_rows a rows) a (set (add_cells b row) b (pos bound));
      },
      bound,
      rw (at, at_b) (ground arith),
      (
        refl,
        λ x y. after row (set (add_cells b row) b (pos bound)) bound x y at (put row y),
        inr (refl, refl, sym (row_is row b at) ∙ found_in row (negsuc m) at_b),
      ),
    )

-- Numbers stay apart: the pair has a number now, and the pairs that had one keep theirs.
pub obtain-Numbered :
    (bound a b n : ℕ) (rows : List (List ℤ)) (r : Obtained)
    → Numbered rows bound
    → ObtainsNumber bound a b rows r n
    → (number_at r.rows a b ≡ some n)
      × Numbered r.rows (if r.is_new then bound + 1 else bound)
      × ((x y m : ℕ) → number_at rows x y ≡ some m → number_at r.rows x y ≡ some m)
obtain-Numbered bound a b n rows r ok (number, numbers, origin) =
    (numbers a b ∙ ground arith, numbered origin, λ x y m e. numbers x y ∙ kept x y m e origin)
  where
    Was : Type 0
    Was =
        ((r.is_new ≡ false) × (number_at rows a b ≡ some n))
        ⊎ ((r.is_new ≡ true) × (n ≡ bound) × (number_at rows a b ≡ none))

    moved : (x y m : ℕ) → x ≡ a → y ≡ b → number_at rows x y ≡ some m → number_at rows a b ≡ some m
    moved x y m here there e = sym (ap₂ (number_at rows) here there) ∙ e

    test :
        (x y : ℕ) (o : Option ℕ) → x ≡ a → y ≡ b → (if x == a && y == b then some n else o) ≡ some n
    test x y o here there = ground arith

    kept :
        (x y m : ℕ)
        → number_at rows x y ≡ some m
        → Was
        → (if x == a && y == b then some n else number_at rows x y) ≡ some m
    kept x y m e was = elim (ℕ_discrete x a) [
      | no other ↦ ground arith
      | yes here ↦ elim (ℕ_discrete y b) [
        | no other ↦ ground arith
        | yes there ↦ elim was [
          | inl (old, had) ↦ test x y _ here there ∙ sym had ∙ moved x y m here there e
          | inr (new, is, had) ↦ absurd (cc (had, moved x y m here there e))
        ]
      ]
    ]

    cases :
        (x y m : ℕ)
        → number_at r.rows x y ≡ some m
        → ((x ≡ a) × (y ≡ b) × (m ≡ n)) ⊎ (number_at rows x y ≡ some m)
    cases x y m e = elim (ℕ_discrete x a) [
      | no other ↦ inr (ground (arith, numbers x y))
      | yes here ↦ elim (ℕ_discrete y b) [
        | no other ↦ inr (ground (arith, numbers x y))
        | yes there ↦
            inl (here, there, some-injective m n (sym e ∙ numbers x y ∙ test x y _ here there))
      ]
    ]

    numbered : Was → Numbered r.rows (if r.is_new then bound + 1 else bound)
    numbered (inl (old, had)) = rw old (record {
      below = λ x y m e. elim (cases x y m e) [
        | inl (here, there, is) ↦ rw is (ok.below a b n had)
        | inr was ↦ ok.below x y m was
      ];
      apart = λ x y x' y' m e e'. elim (cases x y m e) [
        | inl (here, there, same) ↦ elim (cases x' y' m e') [
          | inl (here', there', same') ↦ (omega arith, omega arith)
          | inr was ↦ rw (here, there) (ok.apart a b x' y' n had (rw same at was))
        ]
        | inr was ↦ elim (cases x' y' m e') [
          | inl (here', there', same') ↦
              rw (here', there') (ok.apart x y a b n (rw same' at was) had)
          | inr was' ↦ ok.apart x y x' y' m was was'
        ]
      ];
    })
    numbered (inr (new, is, had)) = rw new (record {
      below = λ x y m e. elim (cases x y m e) [
        | inl (here, there, same) ↦ omega arith
        | inr was ↦ omega (arith, ok.below x y m was)
      ];
      apart = λ x y x' y' m e e'. elim (cases x y m e) [
        | inl (here, there, same) ↦ elim (cases x' y' m e') [
          | inl (here', there', same') ↦ (omega arith, omega arith)
          | inr was ↦ absurd (omega (arith, ok.below x' y' m was))
        ]
        | inr was ↦ elim (cases x' y' m e') [
          | inl (here', there', same') ↦ absurd (omega (arith, ok.below x y m was))
          | inr was' ↦ ok.apart x y x' y' m was was'
        ]
      ];
    })

-- A negative node has no number.
pub obtain-negative :
    (fresh a b : ℤ) (rows : List (List ℤ)) (m : ℕ)
    → (a ≡ negsuc m) ⊎ (b ≡ negsuc m)
    → obtain fresh a b rows ≡ none
unfolding obtain
obtain-negative fresh a b rows m (inl e) = rw e refl
obtain-negative fresh a b rows m (inr e) =
    rw e (>>=-none (index a) _ (λ k. >>=-none (get_elem? (add_rows k rows) k) _ (λ row. refl)))
