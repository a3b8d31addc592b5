-- ===== src/Neat/Draw.antt =====
-- `Discrete_Probabilities` of proyecto/NEAT/src/discrete_probabilities.cpp: elements 0, 1, … with a
-- weight each, of which one is drawn. A process that ends is `none`; what `rand()` returned is an
-- argument.
use tareas_elo.Common.{sym}
use tareas_elo.Common.{
  true, false, ap, ◌∙◌, ◌<◌, ℕ, zero, suc, ◌+◌, ◌-◌, ◌%◌, ◌^◌, ◌≡◌, refl, Option, none, some, List,
  [], ◌∷◌, ◌++◌, length, get_elem?, ◌>>=◌, if◌then◌else◌, ◌==◌, arith, get_elem?-inside,
}
use tareas_elo.Common.Int.{pos}
use tareas_elo.Common.Doubles.{Doubles}

pub record Probabilities (D : Type 0) : Type 0 where
  pub sumatory : D
  pub id : ℕ
  pub position_of_resultant_element : List ℕ
  pub value_of_element : List D

-- The loop of `take_one_randomly` from i on: all elements but the one at k.
abbrev pub all_but : ℕ → ℕ → List ℕ → List ℕ
all_but k i [] = []
all_but k i (x ∷ xs) = (if i == k then [] else x ∷ []) ++ all_but k (i + 1) xs

module _ (d : Doubles) where
  abbrev pub empty_probabilities : Probabilities d.Double
  empty_probabilities = record {
    sumatory = d.of_int (pos 0);
    id = 0;
    position_of_resultant_element = [];
    value_of_element = [];
  }

  abbrev pub add_element : d.Double → Probabilities d.Double → Probabilities d.Double
  add_element value p = record {
    sumatory = d.add p.sumatory value;
    id = p.id + 1;
    position_of_resultant_element = p.position_of_resultant_element ++ (p.id ∷ []);
    value_of_element = p.value_of_element ++ (value ∷ []);
  }

  -- `rand() % size` divides by zero where nothing is left.
  unfoldable pub take_one_randomly :
      ℕ → Probabilities d.Double → Option (ℕ × Probabilities d.Double)
  take_one_randomly r p =
      if length p.position_of_resultant_element == 0
      then none
      else get_elem? p.position_of_resultant_element (r % length p.position_of_resultant_element)
        >>= λ returned. get_elem? p.value_of_element returned >>= λ value. some (
          returned,
          record p {
            position_of_resultant_element =
                all_but (r % length p.position_of_resultant_element) 0
                  p.position_of_resultant_element;
            sumatory = d.sub p.sumatory value;
          },
        )

  -- The loop of `obtain_uniformrandom_element` over the elements left.
  unfoldable pub uniform_loop : Probabilities d.Double → d.Double → d.Double → List ℕ → Option ℕ
  uniform_loop p random_value acum [] = none
  uniform_loop p random_value acum (x ∷ xs) = get_elem? p.value_of_element x >>= λ value.
      let next = d.add acum (d.div value p.sumatory) in
      let later = uniform_loop p random_value next xs in
      if d.le random_value next then some x else later

  -- With `RAND_MAX` of the C library; exit(1) where the sum never reaches the draw.
  abbrev pub obtain_uniformrandom_element : ℕ → Probabilities d.Double → Option ℕ
  obtain_uniformrandom_element r p =
      uniform_loop p (d.div (d.of_int (pos r)) (d.of_int (pos (2 ^ 31 - 1)))) (d.of_int (pos 0))
        p.position_of_resultant_element

-- All but an element behind the list is the list.
all_but-behind : (k i : ℕ) (xs : List ℕ) → k < i → all_but k i xs ≡ xs
all_but-behind k i [] h = refl
all_but-behind k i (x ∷ xs) h = rw (all_but-behind k (i + 1) xs (omega arith)) (ground arith)

-- The element at k stands between those kept.
all_but-split :
    (k i : ℕ) (xs : List ℕ) (x : ℕ)
    → get_elem? xs k ≡ some x
    → (before after : List ℕ) × (xs ≡ before ++ (x ∷ after))
      × (all_but (k + i) i xs ≡ before ++ after)
all_but-split k i [] x e = absurd cc
all_but-split zero i (y ∷ ys) x e =
    ([], ys, cc, rw (here, all_but-behind (0 + i) (i + 1) ys (omega arith)))
  where
    here : (i == 0 + i) ≡ true
    here = ground arith
all_but-split (suc k) i (y ∷ ys) x e =
    let (before, after, split, kept) = all_but-split k (i + 1) ys x e in
    (
      y ∷ before,
      after,
      ap (λ zs. y ∷ zs) split,
      rw other (ap (λ zs. y ∷ zs) (ap (λ m. all_but m (i + 1) ys) (sym same) ∙ kept)),
    )
  where
    other : (i == suc k + i) ≡ false
    other = ground arith

    same : k + (i + 1) ≡ suc k + i
    same = omega arith

-- Where elements are left, each with its weight, a draw that ignores the weights returns one of them
-- and takes out just that one, at its place: the others stay, in order.
pub take_one_randomly-removes :
    (d : Doubles) (r : ℕ) (p : Probabilities d.Double)
    → 0 < length p.position_of_resultant_element
    → ((k x : ℕ)
        → get_elem? p.position_of_resultant_element k ≡ some x
        → x < length p.value_of_element)
    → (x : ℕ) × (next : Probabilities d.Double) × (before : List ℕ) × (after : List ℕ)
      × (take_one_randomly d r p ≡ some (x, next))
      × (p.position_of_resultant_element ≡ before ++ (x ∷ after))
      × (next.position_of_resultant_element ≡ before ++ after)
unfolding take_one_randomly
take_one_randomly-removes d r p some_left weighted =
    let (x, at) = get_elem?-inside xs k (ground arith) in
    let (value, at_value) = get_elem?-inside p.value_of_element x (weighted k x at) in
    let (before, after, split, kept) = all_but-split k 0 xs x at in
    (
      x,
      record p {
        position_of_resultant_element = all_but k 0 xs;
        sumatory = d.sub p.sumatory value;
      },
      before,
      after,
      rw (not_empty, at, at_value),
      split,
      ap (λ m. all_but m 0 xs) (omega arith) ∙ kept,
    )
  where
    xs : List ℕ
    xs = p.position_of_resultant_element

    k : ℕ
    k = r % length xs

    not_empty : (length xs == 0) ≡ false
    not_empty = ground arith
