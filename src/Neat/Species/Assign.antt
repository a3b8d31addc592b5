-- ===== src/Neat/Species/Assign.antt =====
-- The end of `spatiation` (proyecto/NEAT/src/NEAT.cpp): each organism is told its niche.
use tareas_elo.Common.{
  ℕ, zero, suc, ◌+◌, ◌<◌, ◌≤◌, ◌≡◌, refl, sym, ◌∙◌, ap, subst, Option, none, some, List, [], ◌∷◌,
  if◌then◌else◌, ◌==◌, length, length-set, get_elem?, get_elem?-inside, get_elem?-set_self,
  get_elem?-set_ne, set, arith, ℕ_discrete,
}
use mathlib.Core.Option.{some-injective}
use tareas_elo.Common.Int.{ℤ, pos}
use tareas_elo.Neat.Population.{Organism, Niche}
use tareas_elo.Neat.Species.{set_niche, set_niches}
use tareas_elo.Neat.Species.Shared.{occurrences, members}

-- The niche that organism m is told.
unfoldable pub niche_at : {D : Type 0} → List (Organism D) → ℕ → Option ℤ
niche_at os m = elim (get_elem? os m) [ none ↦ none | some o ↦ some o.niche ]

niche_at-set :
    {D : Type 0} (os : List (Organism D)) (i : ℕ) (o : Organism D) (m : ℕ)
    → i < length os
    → niche_at (set os i o) m ≡ (if i == m then some o.niche else niche_at os m)
unfolding niche_at
niche_at-set os i o m inside = elim (ℕ_discrete m i) [
  | yes here ↦ rw (here, niche_at, get_elem?-set_self os i o inside) (ground arith)
  | no other ↦ rw (niche_at, get_elem?-set_ne os i m o (λ same. other (sym same))) (ground arith)
]

pub set_niche-returns :
    {D : Type 0} (k : ℕ) (is : List ℕ) (os : List (Organism D))
    → ((m : ℕ) → 0 < occurrences m is → m < length os)
    → (os' : List (Organism D)) × (set_niche k is os ≡ some os')
      × (length os' ≡ length os)
      × ((m : ℕ) → niche_at os' m ≡ (if occurrences m is == 0 then niche_at os m else some (pos k)))
unfolding set_niche
set_niche-returns k [] os inside = (os, refl, refl, λ m. refl)
set_niche-returns {D} k (i ∷ is) os inside =
    let (o, at) = get_elem?-inside os i (inside i (ground arith)) in
    let told = set os i (record o { niche = pos k }) in
    let (os', run, size, niches) = set_niche-returns k is told (λ m h.
      omega (arith, inside m (omega (arith, h)), length-set os i (record o { niche = pos k }))) in
    (
      os',
      rw (set_niche, at) run,
      size ∙ length-set os i (record o { niche = pos k }),
      λ m.
          niches m
          ∙ rw (niche_at-set os i (record o { niche = pos k }) m (inside i (ground arith)))
              (both (niche_at os m) i m (occurrences m is)),
    )
  where
    both :
        (was : Option ℤ) (i m later : ℕ)
        → (if later == 0 then (if i == m then some (pos k) else was) else some (pos k))
          ≡ (if (if i == m then 1 else 0) + later == 0 then was else some (pos k))
    both was i m later = ground arith

-- With no organism in two niches, each is told the place of its own.
pub set_niches-returns :
    {D : Type 0} (k : ℕ) (niches : List Niche) (os : List (Organism D))
    → ((m : ℕ) → 0 < members m niches → m < length os)
    → ((m : ℕ) → members m niches ≤ 1)
    → (os' : List (Organism D)) × (set_niches k niches os ≡ some os')
      × (length os' ≡ length os)
      × ((m : ℕ) → members m niches ≡ 0 → niche_at os' m ≡ niche_at os m)
      × ((j m : ℕ) (niche : Niche)
          → get_elem? niches j ≡ some niche
          → 0 < occurrences m niche.organism_position
          → niche_at os' m ≡ some (pos (j + k)))
unfolding set_niches
set_niches-returns k [] os inside apart = (os, refl, refl, (λ m h. refl), λ j m niche e h. cc)
set_niches-returns {D} k (niche ∷ niches) os inside apart =
    let (os1, run1, size1, told1) =
      set_niche-returns k niche.organism_position os (λ m h. inside m (omega arith)) in
    let (os', run, size, still, told) =
      set_niches-returns (k + 1) niches os1 (λ m h. omega (arith, inside m (omega arith)))
        (λ m. omega (arith, apart m)) in
    (
      os',
      rw (set_niches, run1) run,
      size ∙ size1,
      (λ m h. still m (omega arith) ∙ told1 m ∙ ground arith),
      λ j m other e h. place j m other e h os1 os' told1 still told,
    )
  where
    place :
        (j m : ℕ) (other : Niche)
        → get_elem? (niche ∷ niches) j ≡ some other
        → 0 < occurrences m other.organism_position
        → (os1 os' : List (Organism D))
        → ((m : ℕ)
            → niche_at os1 m ≡ (
                if occurrences m niche.organism_position == 0 then niche_at os m else some (pos k)))
        → ((m : ℕ) → members m niches ≡ 0 → niche_at os' m ≡ niche_at os1 m)
        → ((j m : ℕ) (other : Niche)
            → get_elem? niches j ≡ some other
            → 0 < occurrences m other.organism_position
            → niche_at os' m ≡ some (pos (j + (k + 1))))
        → niche_at os' m ≡ some (pos (j + k))
    place zero m other e h os1 os' told1 still told =
        let same = some-injective niche other e in
        let there = subst (λ (n : Niche). 0 < occurrences m n.organism_position) (sym same) h in
        still m (omega (arith, apart m, there)) ∙ told1 m ∙ ground (arith, there)
    place (suc j) m other e h os1 os' told1 still told =
        told j m other e h ∙ ap (λ n. some (pos n)) (omega arith)
