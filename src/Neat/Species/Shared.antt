-- ===== src/Neat/Species/Shared.antt =====
-- What the loop of `spatiation` (proyecto/NEAT/src/NEAT.cpp) keeps: the organisms so far are each in
-- one niche.
use tareas_elo.Neat.Species.Seek.{Within}
use tareas_elo.Common.{
  ℕ, zero, suc, ◌+◌, ◌<◌, ◌≤◌, ◌≡◌, refl, sym, ◌∙◌, ap, Option, none, some, List, [], ◌∷◌, ◌++◌,
  true, false, if◌then◌else◌, ◌==◌, leb, ltb, length, length-append, length-set, get_elem?,
  get_elem?-inside, get_elem?-set_self, get_elem?-set_ne, get_elem?-outside, set, arith, Bool-cases,
  inl, inr, dec_lt, ℕ_discrete, ◌⊎◌, get_elem?-middle,
}
use mathlib.Core.Option.{some-injective}
use tareas_elo.Neat.Slots.{get_elem?-left}
use tareas_elo.Neat.Population.{Niche}
use tareas_elo.Neat.Species.{Sharing, with_member, settle}

-- How often an organism is in a list, and in the niches.
abbrev pub occurrences : ℕ → List ℕ → ℕ
occurrences m [] = 0
occurrences m (x ∷ xs) = (if x == m then 1 else 0) + occurrences m xs

abbrev pub members : ℕ → List Niche → ℕ
members m [] = 0
members m (niche ∷ niches) = occurrences m niche.organism_position + members m niches

occurrences-append :
    (m : ℕ) (xs ys : List ℕ) → occurrences m (xs ++ ys) ≡ occurrences m xs + occurrences m ys
occurrences-append m [] ys = omega arith
occurrences-append m (x ∷ xs) ys = omega (arith, occurrences-append m xs ys)

members-append : (m : ℕ) (xs ys : List Niche) → members m (xs ++ ys) ≡ members m xs + members m ys
members-append m [] ys = omega arith
members-append m (x ∷ xs) ys = omega (arith, members-append m xs ys)

members-set :
    (m : ℕ) (niches : List Niche) (k : ℕ) (niche new : Niche)
    → get_elem? niches k ≡ some niche
    → members m (set niches k new) + occurrences m niche.organism_position
      ≡ members m niches + occurrences m new.organism_position
members-set m [] k niche new e = cc
members-set m (x ∷ niches) zero niche new e = rw (← some-injective x niche e) (omega arith)
members-set m (x ∷ niches) (suc k) niche new e = omega (arith, members-set m niches k niche new e)

-- A niche that does not exist has no organism.
abbrev pub Proper : Niche → Type 0
Proper niche = niche.exist ≡ false → niche.organism_position ≡ []

-- The organisms below i are each in one niche; `real` niches are inherited from a generation of
-- `prev` organisms, and the others exist.
pub record Shared (real prev i : ℕ) (s : Sharing) : Type 0 where
  pub sizes : length s.representants ≡ length s.niches
  pub inherited : real ≤ length s.niches
  pub once : (m : ℕ) → members m s.niches ≡ (if ltb m i then 1 else 0)
  pub proper : (k : ℕ) (niche : Niche) → get_elem? s.niches k ≡ some niche → Proper niche
  pub founded :
      (k : ℕ) (niche : Niche) → real ≤ k → get_elem? s.niches k ≡ some niche → niche.exist ≡ true
  pub readable :
      (k r : ℕ) → get_elem? s.representants k ≡ some r → r < (if leb real k then i else prev)

-- What stands at a place of a list that grew by one.
grown_at :
    {A : Type 0} (xs : List A) (a : A) (k : ℕ) (b : A)
    → get_elem? (xs ++ (a ∷ [])) k ≡ some b
    → (get_elem? xs k ≡ some b) ⊎ ((k ≡ length xs) × (a ≡ b))
grown_at xs a k b e = elim (dec_lt k (length xs)) [
  | yes inside ↦ inl (sym (get_elem?-left xs (a ∷ []) k inside) ∙ e)
  | no outside ↦ elim (ℕ_discrete k (length xs)) [
    | yes last ↦ inr (
      last,
      some-injective a b
          (sym (get_elem?-middle xs a []) ∙ (ap (get_elem? (xs ++ (a ∷ []))) (sym last) ∙ e)),
    )
    | no behind ↦ absurd (
        cc (
          sym (get_elem?-outside (xs ++ (a ∷ [])) k (omega (arith, length-append xs (a ∷ []))))
          ∙ e))
  ]
]

-- What stands at a place of a list with one element replaced.
set_at :
    {A : Type 0} (xs : List A) (n : ℕ) (a : A) (k : ℕ) (b : A)
    → n < length xs
    → get_elem? (set xs n a) k ≡ some b
    → ((k ≡ n) × (a ≡ b)) ⊎ (get_elem? xs k ≡ some b)
set_at xs n a k b inside e = elim (ℕ_discrete k n) [
  | yes here ↦ inl (
    here,
    some-injective a b
        (sym (get_elem?-set_self xs n a inside) ∙ (ap (get_elem? (set xs n a)) (sym here) ∙ e)),
  )
  | no other ↦ inr (sym (get_elem?-set_ne xs n k a (λ same. other (sym same))) ∙ e)
]

wider :
    (real prev i k r : ℕ)
    → r < (if leb real k then i else prev)
    → r < (if leb real k then suc i else prev)
wider real prev i k r h = ground arith

module _ (real prev i : ℕ) (s : Sharing) (ok : Shared real prev i s) where
  abbrev founder : Niche
  founder = record { exist = true; organism_position = i ∷ [] }

  settle-new : (s' : Sharing) × (settle real i none s ≡ some s') × Shared real prev (suc i) s'
  unfolding settle
  settle-new = (
    _,
    refl,
    record {
      sizes = omega (
        arith,
        ok.sizes,
        length-append s.representants (i ∷ []),
        length-append s.niches (founder ∷ []),
      );
      inherited = omega (arith, ok.inherited, length-append s.niches (founder ∷ []));
      once = λ m. members-append m s.niches (founder ∷ []) ∙ rw (ok.once m) (ground arith);
      proper = λ k niche e. elim (grown_at s.niches founder k niche e) [
        | inl was ↦ ok.proper k niche was
        | inr (last, is) ↦ λ absent. absurd (cc (is, absent))
      ];
      founded = λ k niche h e. elim (grown_at s.niches founder k niche e) [
        | inl was ↦ ok.founded k niche h was
        | inr (last, is) ↦ ap (λ (n : Niche). n.exist) (sym is)
      ];
      readable = λ k r e. elim (grown_at s.representants i k r e) [
        | inl was ↦ wider real prev i k r (ok.readable k r was)
        | inr (last, is) ↦ new k r (omega (arith, ok.sizes, ok.inherited)) is
      ];
    },
  )
    where
      new : (k r : ℕ) → real ≤ k → i ≡ r → r < (if leb real k then suc i else prev)
      new k r h is = ground arith

  settle-found :
      (n : ℕ)
      → n < length s.niches
      → (s' : Sharing) × (settle real i (some n) s ≡ some s') × Shared real prev (suc i) s'
  unfolding settle
  settle-found n inside =
      let (niche, at) = get_elem?-inside s.niches n inside in
      (_, rw (settle, at) refl, joined niche at)
    where
      exists :
          (niche : Niche)
          → get_elem? s.niches n ≡ some niche
          → (with_member real n i niche).exist ≡ true
      exists niche at = elim (Bool-cases (leb real n)) [
        | inl old ↦ rw old (ok.founded n niche (ground arith) at)
        | inr new ↦ rw new refl
      ]

      once_more :
          (m : ℕ) (niche : Niche)
          → get_elem? s.niches n ≡ some niche
          → members m (set s.niches n (with_member real n i niche))
            ≡ (if ltb m (suc i) then 1 else 0)
      once_more m niche at =
          members_once (members m (set s.niches n (with_member real n i niche)))
            (members m s.niches) (occurrences m niche.organism_position)
            (members-set m s.niches n niche (with_member real n i niche) at
              ∙ ap (λ c. members m s.niches + c)
                  (occurrences-append m niche.organism_position (i ∷ [])))
            (ok.once m)
        where
          members_once :
              (new old here : ℕ)
              → new + here ≡ old + (here + ((if i == m then 1 else 0) + 0))
              → old ≡ (if ltb m i then 1 else 0)
              → new ≡ (if ltb m (suc i) then 1 else 0)
          members_once new old here e h = ground arith

      joined :
          (niche : Niche)
          → get_elem? s.niches n ≡ some niche
          → Shared real prev
              (suc i)
              (record s { niches = set s.niches n (with_member real n i niche) })
      joined niche at =
          let new = with_member real n i niche in
          record {
            sizes = ok.sizes ∙ sym (length-set s.niches n new);
            inherited = omega (arith, ok.inherited, length-set s.niches n new);
            once = λ m. once_more m niche at;
            proper = λ k other e. elim (set_at s.niches n new k other inside e) [
              | inl (here, is) ↦
                  λ absent. absurd (cc (exists niche at, ap (λ (o : Niche). o.exist) is, absent))
              | inr was ↦ ok.proper k other was
            ];
            founded = λ k other h e. elim (set_at s.niches n new k other inside e) [
              | inl (here, is) ↦ ap (λ (o : Niche). o.exist) (sym is) ∙ exists niche at
              | inr was ↦ ok.founded k other h was
            ];
            readable = λ k r e. wider real prev i k r (ok.readable k r e);
          }

  -- Wherever its search ended, the organism is in one niche now.
  pub settle-Shared :
      (found : Option ℕ)
      → Within (length s.niches) found
      → (s' : Sharing) × (settle real i found s ≡ some s') × Shared real prev (suc i) s'
  settle-Shared none within = settle-new
  settle-Shared (some n) within = settle-found n within
