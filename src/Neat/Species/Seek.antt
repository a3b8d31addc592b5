-- ===== src/Neat/Species/Seek.antt =====
-- That an organism's search for a niche (proyecto/NEAT/src/NEAT.cpp) ends, with a niche that there
-- is or with none.
use tareas_elo.Common.{
  ℕ, zero, suc, ◌%◌, ◌<◌, ◌≤◌, ◌≡◌, refl, sym, ◌∙◌, ap, subst, Option, none, some, List, [], ◌∷◌,
  ◌++◌, Bool, true, false, if◌then◌else◌, ◌==◌, leb, length, length-append, get_elem?,
  get_elem?-inside, arith, Bool-cases, inl, inr, >>=-eq-some,
}
use mathlib.Core.Option.{some-injective}
use tareas_elo.Common.Int.{pos}
use tareas_elo.Common.Doubles.{Doubles}
use tareas_elo.Neat.Draw.{Probabilities, take_one_randomly, take_one_randomly-removes}
use tareas_elo.Neat.Population.{Population, Organism, M, pure, rand}
use tareas_elo.Neat.Population.Rules.{All, Any}
use tareas_elo.Neat.Population.Drawing.{
  Draws, Draws-pure, Draws-lifted, Draws-gotten, Draws-bind, Draws-rand,
}
use tareas_elo.Neat.Compatibility.{compatibility}
use tareas_elo.Neat.Species.{zero_sack, seek}

pub All-at :
    {A : Type 0} (P : A → Type 0) (xs : List A) (i : ℕ) (a : A)
    → All P xs
    → get_elem? xs i ≡ some a
    → P a
All-at P [] i a h e = cc
All-at P (x ∷ xs) zero a h e = subst P (some-injective x a e) h.0
All-at P (x ∷ xs) (suc i) a h e = All-at P xs i a h.1 e

pub All-append :
    {A : Type 0} (P : A → Type 0) (xs ys : List A) → All P xs → All P ys → All P (xs ++ ys)
All-append P [] ys h h' = h'
All-append P (x ∷ xs) ys h h' = (h.0, All-append P xs ys h.1 h')

All-without :
    {A : Type 0} (P : A → Type 0) (xs ys : List A) (a : A)
    → All P (xs ++ (a ∷ ys))
    → P a × All P (xs ++ ys)
All-without P [] ys a h = h
All-without P (x ∷ xs) ys a h = let (pa, rest) = All-without P xs ys a h.1 in (pa, (h.0, rest))

-- A sack of elements below n, at least as many as there are rounds.
pub record Holds {D : Type 0} (n rounds : ℕ) (sack : Probabilities D) : Type 0 where
  pub weights : length sack.value_of_element ≡ n
  pub enough : rounds ≤ length sack.position_of_resultant_element
  pub below : All (λ x. x < n) sack.position_of_resultant_element

-- A niche of n, if one.
abbrev pub Within : ℕ → Option ℕ → Type 0
Within n none = Unit
Within n (some k) = k < n

module _ (d : Doubles) (exp fabs : d.Double → d.Double) where
  pub zero_sack-Holds :
      (n : ℕ) → (Holds n n (zero_sack d exp fabs n)) × ((zero_sack d exp fabs n).id ≡ n)
  zero_sack-Holds zero = (record { weights = refl; enough = omega arith; below = tt }, refl)
  zero_sack-Holds (suc n) =
      let (held, id) = zero_sack-Holds n in
      (
        record {
          weights =
              length-append (zero_sack d exp fabs n).value_of_element (d.of_int (pos 0) ∷ [])
              ∙ omega (arith, held.weights);
          enough = omega (
            arith,
            held.enough,
            length-append (zero_sack d exp fabs n).position_of_resultant_element
                ((zero_sack d exp fabs n).id ∷ []),
          );
          below =
              All-append (λ x. x < suc n) (zero_sack d exp fabs n).position_of_resultant_element
                ((zero_sack d exp fabs n).id ∷ [])
                (wider (zero_sack d exp fabs n).position_of_resultant_element held.below)
                (omega arith, tt);
        },
        omega arith,
      )
    where
      wider : (xs : List ℕ) → All (λ x. x < n) xs → All (λ x. x < suc n) xs
      wider [] h = tt
      wider (x ∷ xs) h = (omega (arith, h.0), wider xs h.1)

  take-weights :
      (r : ℕ) (p next : Probabilities d.Double) (x : ℕ)
      → take_one_randomly d r p ≡ some (x, next)
      → next.value_of_element ≡ p.value_of_element
  unfolding take_one_randomly
  take-weights r p next x run = elim (Bool-cases (length p.position_of_resultant_element == 0)) [
    | inl none_left ↦ absurd (cc (rw none_left at run))
    | inr some_left ↦
        let (returned, at, run1) =
          >>=-eq-some
            (get_elem? p.position_of_resultant_element (r % length p.position_of_resultant_element))
            _ (rw some_left at run) in
        let (value, at_value, done) = >>=-eq-some (get_elem? p.value_of_element returned) _ run1 in
        ap (λ (t : ℕ × Probabilities d.Double). t.1.value_of_element)
          (sym (some-injective _ (x, next) done))
  ]

  -- One draw from such a sack.
  take-Holds :
      (n rounds r : ℕ) (sack : Probabilities d.Double)
      → Holds n (suc rounds) sack
      → (x : ℕ) × (next : Probabilities d.Double) × (take_one_randomly d r sack ≡ some (x, next))
        × (x < n)
        × Holds n rounds next
  take-Holds n rounds r sack held =
      let (x, next, before, after, run, split, kept) =
        take_one_randomly-removes d r sack (omega (arith, held.enough)) (λ k y at. omega (
          arith,
          held.weights,
          All-at (λ z. z < n) sack.position_of_resultant_element k y held.below at,
        )) in
      let (here, rest) =
        All-without (λ z. z < n) before after x (subst (All (λ z. z < n)) split held.below) in
      (
        x,
        next,
        run,
        here,
        record {
          weights = ap length (take-weights r sack next x run) ∙ held.weights;
          enough = omega (
            arith,
            held.enough,
            ap length split,
            ap length kept,
            length-append before after,
            length-append before (x ∷ after),
          );
          below = subst (All (λ z. z < n)) (sym kept) rest;
        },
      )

  -- The representants can be read: those of the first `real` niches in the generation before.
  abbrev pub Readable : ℕ → List ℕ → Population d.Double → Type 0
  Readable real representants p =
      (k r : ℕ)
      → get_elem? representants k ≡ some r
      → r < length (if leb real k then p.organisms else p.prev_organisms)

  pub seek-returns :
      (real : ℕ) (representants : List ℕ) (o : Organism d.Double) (n rounds : ℕ)
      (sack : Probabilities d.Double) (p : Population d.Double)
      → Holds n rounds sack
      → length representants ≡ n
      → Readable real representants p
      → Draws (seek d exp fabs real representants o rounds sack) p (Within n)
  unfolding seek
  seek-returns real reps o n zero sack p held size readable = Draws-pure none p (Within n) tt
  seek-returns real reps o n (suc rounds) sack p held size readable =
      Draws-bind rand _ p Any (Within n) (Draws-rand p) (λ r q (draws, e) _.
        let readable_q = subst (Readable real reps) (sym e) (λ k z at. readable k z at) in
        let (x, next, run, within, held') = take-Holds n rounds r sack held in
        let (position, at) = get_elem?-inside reps x (omega arith) in
        let (other, there) =
          get_elem?-inside (if leb real x then q.organisms else q.prev_organisms) position
            (readable_q x position at) in
        Draws-lifted _ (x, next) _ q (Within n) run
          (Draws-lifted _ position _ q (Within n) at (
            Draws-gotten _ q (Within n) (
              Draws-lifted _ other _ q (Within n) there (
                near_or_on (seek d exp fabs real reps o rounds next) x q within
                  (seek-returns real reps o n rounds next q held' size readable_q)
                  (d.lt (compatibility d exp fabs q.settings o.genome other.genome)
                    q.settings.distance_threshold))))))
    where
      near_or_on :
          (m : M d.Double (Option ℕ)) (x : ℕ) (q : Population d.Double)
          → x < n
          → Draws m q (Within n)
          → (near : Bool) → Draws (if near then pure (some x) else m) q (Within n)
      near_or_on m x q within later true = Draws-pure (some x) q (Within n) within
      near_or_on m x q within later false = later
