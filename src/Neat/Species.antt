-- ===== src/Neat/Species.antt =====
-- `spatiation` of proyecto/NEAT/src/NEAT.cpp: the organisms shared out among niches, each with one
-- organism that represents it.
use tareas_elo.Common.{
  ℕ, zero, suc, ◌+◌, ◌%◌, ◌≡◌, Option, none, some, List, [], ◌∷◌, ◌++◌, Bool, true, false, ◌&&◌,
  ◌==◌, if◌then◌else◌, leb, ltb, length, get_elem?, set, replicate,
}
use tareas_elo.Common.Int.{pos}
use tareas_elo.Common.Doubles.{Doubles}
use tareas_elo.Neat.Draw.{Probabilities, empty_probabilities, add_element, take_one_randomly}
use tareas_elo.Neat.Population.{
  Population, Organism, Niche, M, ◌>>=◌, ◌>>◌, pure, lift, get, modify, rand, for_each,
}
use tareas_elo.Neat.Compatibility.{compatibility}
pub mod Seek
pub mod Shared
pub mod Assign
pub mod Place
pub mod Partition
pub mod Kept

-- `current_niches_temp` and `representant_of_niche`.
pub record Sharing : Type 0 where
  pub niches : List Niche
  pub representants : List ℕ

-- Those that fulfil a test, in order.
abbrev pub keep_if : {A : Type 0} → (A → Bool) → List A → List A
keep_if test [] = []
keep_if test (a ∷ xs) = let rest = keep_if test xs in if test a then a ∷ rest else rest

-- A niche to inherit: one that exists, with organisms.
abbrev pub is_real : Niche → Bool
is_real niche = niche.exist && ltb 0 (length niche.organism_position)

-- `organism_position.at(rand() % size)`, where there is a position.
unfoldable pub representant : {D : Type 0} → Niche → M D ℕ
representant niche = do
  r ← rand
  if length niche.organism_position == 0
      then lift none
      else lift (get_elem? niche.organism_position (r % length niche.organism_position))

-- An organism for a niche: a niche that was inherited exists from now on; one founded since does.
abbrev pub with_member : ℕ → ℕ → ℕ → Niche → Niche
with_member real n i niche = record {
  exist = if leb real n then niche.exist else true;
  organism_position = niche.organism_position ++ (i ∷ []);
}

-- Organism i in the niche found, or as the founder of a new one.
unfoldable pub settle : ℕ → ℕ → Option ℕ → Sharing → Option Sharing
settle real i none s = some (record {
  niches = s.niches ++ (record { exist = true; organism_position = i ∷ [] } ∷ []);
  representants = s.representants ++ (i ∷ []);
})
settle real i (some n) s = elim (get_elem? s.niches n) [
  | none ↦ none
  | some niche ↦ some (record s { niches = set s.niches n (with_member real n i niche) })
]

module _ (d : Doubles) (exp fabs : d.Double → d.Double) where
  abbrev pub zero_sack : ℕ → Probabilities d.Double
  zero_sack zero = empty_probabilities d
  zero_sack (suc n) = add_element d (d.of_int (pos 0)) (zero_sack n)

  -- Niches drawn without return until one is near enough: the inherited ones are represented by
  -- organisms of the generation before.
  unfoldable pub seek :
      ℕ → List ℕ → Organism d.Double → ℕ → Probabilities d.Double → M d.Double (Option ℕ)
  seek real representants o zero sack = pure none
  seek real representants o (suc rounds) sack = do
    r ← rand
    taken ← lift (take_one_randomly d r sack)
    position ← lift (get_elem? representants taken.0)
    p ← get
    other ← lift (get_elem? (if leb real taken.0 then p.organisms else p.prev_organisms) position)
    if d.lt (compatibility d exp fabs p.settings o.genome other.genome)
          p.settings.distance_threshold
        then pure (some taken.0)
        else seek real representants o rounds taken.1

  unfoldable pub place : ℕ → ℕ → Organism d.Double → Sharing → M d.Double Sharing
  place real i o s = do
    found ← seek real s.representants o (length s.niches) (zero_sack (length s.niches))
    lift (settle real i found s)

  unfoldable pub place_all : ℕ → ℕ → List (Organism d.Double) → Sharing → M d.Double Sharing
  place_all real i [] s = pure s
  place_all real i (o ∷ os) s = do s' ← place real i o s; place_all real (i + 1) os s'

  unfoldable pub share : List Niche → M d.Double Sharing
  share real_niches = do
    representants ← for_each representant real_niches
    p ← get
    place_all (length real_niches) 0 p.organisms (record {
      niches = replicate (length real_niches) (record { exist = false; organism_position = [] });
      representants = representants;
    })

-- `organisms.at(position).niche = k` for each position.
unfoldable pub set_niche :
    {D : Type 0} → ℕ → List ℕ → List (Organism D) → Option (List (Organism D))
set_niche k [] os = some os
set_niche k (i ∷ is) os = elim (get_elem? os i) [
  | none ↦ none
  | some o ↦ set_niche k is (set os i (record o { niche = pos k }))
]

-- For each niche from the k-th on.
unfoldable pub set_niches :
    {D : Type 0} → ℕ → List Niche → List (Organism D) → Option (List (Organism D))
set_niches k [] os = some os
set_niches k (niche ∷ niches) os = elim (set_niche k niche.organism_position os) [
  | none ↦ none
  | some os' ↦ set_niches (k + 1) niches os'
]

module _ (d : Doubles) (exp fabs : d.Double → d.Double) where
  unfoldable pub spatiation : M d.Double (Unit {0})
  spatiation = do
    p ← get
    modify (λ q. record q { prev_niches = p.current_niches; current_niches = [] })
    s ← share d exp fabs (keep_if is_real p.current_niches)
    let niches = keep_if (λ niche. niche.exist) s.niches
    organisms ← lift (set_niches 0 niches p.organisms)
    modify (λ q. record q { current_niches = niches; organisms = organisms })
