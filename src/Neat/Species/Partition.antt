-- ===== src/Neat/Species/Partition.antt =====
-- That `spatiation` of proyecto/NEAT/src/NEAT.cpp gives each organism one niche.
use tareas_elo.Neat.Population.Rules.{Returns-step, All, Returns}
use tareas_elo.Common.{
  get_elem?-some-lt, ℕ, zero, suc, ◌<◌, ◌≤◌, ◌≡◌, refl, sym, ◌∙◌, ap, some, List, [], ◌∷◌, true,
  false, if◌then◌else◌, leb, ltb, length, length-replicate, get_elem?, replicate, arith, Bool-cases,
  inl, inr,
}
use mathlib.Core.Option.{some-injective}
use tareas_elo.Common.Int.{pos}
use tareas_elo.Common.Doubles.{Doubles}
use tareas_elo.Neat.Population.{Population, Niche, lift, get, modify, for_each}
use tareas_elo.Neat.Population.Drawing.{Draws, Draws-gotten, Draws-bind}
use tareas_elo.Neat.Species.{keep_if, is_real, representant, share, set_niches, spatiation}
use tareas_elo.Neat.Species.Seek.{All-at}
use tareas_elo.Neat.Species.Shared.{occurrences, members, Proper, Shared}
use tareas_elo.Neat.Species.Assign.{niche_at, set_niches-returns}
use tareas_elo.Neat.Species.Place.{
  InPrev, Inheritable, Drawn-Sizes, place_all-returns, representants-return,
}

-- A niche that does not exist is empty, or inherited and not chosen.
abbrev unchosen : Niche
unchosen = record { exist = false; organism_position = [] }

replicate-at :
    (n k : ℕ) (niche : Niche)
    → get_elem? (replicate n unchosen) k ≡ some niche
    → (k < n) × (unchosen ≡ niche)
replicate-at zero k niche e = cc
replicate-at (suc n) zero niche e = (omega arith, some-injective unchosen niche e)
replicate-at (suc n) (suc k) niche e =
    let (inside, is) = replicate-at n k niche e in (omega arith, is)

members-replicate : (m n : ℕ) → members m (replicate n unchosen) ≡ 0
members-replicate m zero = refl
members-replicate m (suc n) = omega (arith, members-replicate m n)

start-Shared :
    (real prev : ℕ) (rs : List ℕ)
    → length rs ≡ real
    → All (λ r. r < prev) rs
    → Shared real prev 0 (record { niches = replicate real unchosen; representants = rs })
start-Shared real prev rs size inside = record {
  sizes = omega (arith, length-replicate real unchosen);
  inherited = omega (arith, length-replicate real unchosen);
  once = λ m. members-replicate m real ∙ ground arith;
  proper = λ k niche e absent.
      ap (λ (n : Niche). n.organism_position) (sym (replicate-at real k niche e).1);
  founded = λ k niche h e. absurd (omega (arith, (replicate-at real k niche e).0));
  readable = λ k r e. inherited_one k r (get_elem?-some-lt rs k r e) (All-at _ rs k r inside e);
}
  where
    inherited_one : (k r : ℕ) → k < length rs → r < prev → r < (if leb real k then 0 else prev)
    inherited_one k r h h' = ground arith

-- Leaving out the niches that do not exist leaves out no organism.
members-exist :
    (m : ℕ) (niches : List Niche)
    → ((k : ℕ) (niche : Niche) → get_elem? niches k ≡ some niche → Proper niche)
    → members m (keep_if (λ niche. niche.exist) niches) ≡ members m niches
members-exist m [] proper = refl
members-exist m (niche ∷ niches) proper =
    let rest = members-exist m niches (λ k n e. proper (suc k) n e) in
    elim (Bool-cases niche.exist) [
      | inl there ↦ rw there (omega (arith, rest))
      | inr absent ↦ rw (absent, proper 0 niche refl absent) (omega (arith, rest))
    ]

inheritable :
    (prev : ℕ) (niches : List Niche)
    → All (InPrev prev) niches
    → All (Inheritable prev) (keep_if is_real niches)
inheritable prev [] ok = tt
inheritable prev (niche ∷ niches) ok = elim (Bool-cases (is_real niche)) [
  | inl real ↦ rw real ((ok.0, some_there niche real), inheritable prev niches ok.1)
  | inr not_real ↦ rw not_real (inheritable prev niches ok.1)
]
  where
    some_there : (n : Niche) → is_real n ≡ true → 0 < length n.organism_position
    some_there n h = ground arith

-- As many organisms as before, each in one niche, once, whose place it is told.
abbrev pub Partitioned : {D : Type 0} → Population D → Population D → Type 0
Partitioned p q =
    (length q.organisms ≡ length p.organisms)
    × ((m : ℕ) → members m q.current_niches ≡ (if ltb m (length p.organisms) then 1 else 0))
    × ((j m : ℕ) (niche : Niche)
        → get_elem? q.current_niches j ≡ some niche
        → 0 < occurrences m niche.organism_position
        → niche_at q.organisms m ≡ some (pos j))

module _ (d : Doubles) (exp fabs : d.Double → d.Double) where
  share-returns :
      (niches : List Niche) (p : Population d.Double)
      → All (Inheritable (length p.prev_organisms)) niches
      → Draws
          (share d exp fabs niches)
          p
          (Shared (length niches) (length p.prev_organisms) (length p.organisms))
  unfolding share
  share-returns niches p ok =
      Draws-bind (for_each representant niches) _ p _ _
        (representants-return d exp fabs (length p.prev_organisms) niches p ok)
        (λ rs q drawn (size, inside). Draws-gotten _ q _ (
          place_all-returns d exp fabs (length niches) (length p.prev_organisms)
            (length p.organisms) 0 q.organisms _ q
            (Drawn-Sizes d exp fabs _ _ p q drawn (refl, refl))
            (start-Shared (length niches) (length p.prev_organisms) rs size inside)
            (omega (
              arith,
              (Drawn-Sizes d exp fabs (length p.prev_organisms) (length p.organisms) p q drawn
                  (refl, refl)).1,
            ))))

  -- Where the niches of before have positions in the generation before, `spatiation` returns: each
  -- organism is then in exactly one niche, once, and is told the place of that niche.
  pub spatiation-partition :
      (p : Population d.Double)
      → All (InPrev (length p.prev_organisms)) p.current_niches
      → Returns (spatiation d exp fabs) p (λ _ q. Partitioned p q)
  unfolding spatiation get modify lift
  spatiation-partition p ok =
      let p1 = record p { prev_niches = p.current_niches; current_niches = [] } in
      let (s, q, run, (drawn, shared)) =
        share-returns (keep_if is_real p.current_niches) p1
          (inheritable (length p.prev_organisms) p.current_niches ok) in
      let niches = keep_if (λ niche. niche.exist) s.niches in
      let once = λ (m : ℕ). members-exist m s.niches shared.proper ∙ shared.once m in
      let (os, told, size, still, each) =
        set_niches-returns 0 niches p.organisms (λ m h. inside m niches (once m) h)
          (λ m. at_most m niches (once m)) in
      Returns-step get _ p p p _ refl (
        Returns-step _ _ p p1 tt _ refl (
          Returns-step (share d exp fabs (keep_if is_real p.current_niches)) _ p1 q s _ run (
            Returns-step (lift (set_niches 0 niches p.organisms)) _ q q os _ (rw told refl) (
              tt,
              record q { current_niches = niches; organisms = os },
              refl,
              (
                size,
                once,
                λ j m niche at h. each j m niche at h ∙ ap (λ n. some (pos n)) (omega arith),
              ),
            ))))
    where
      inside :
          (m : ℕ) (niches : List Niche)
          → members m niches ≡ (if ltb m (length p.organisms) then 1 else 0)
          → 0 < members m niches
          → m < length p.organisms
      inside m niches e h = ground arith

      at_most :
          (m : ℕ) (niches : List Niche)
          → members m niches ≡ (if ltb m (length p.organisms) then 1 else 0)
          → members m niches ≤ 1
      at_most m niches e = ground arith
