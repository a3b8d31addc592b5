-- ===== src/Neat/Slots.antt =====
-- A vector of genes indexed by the number of the gene, as `add_node` and `add_connection` of
-- proyecto/NEAT/src/genetic_encoding.cpp keep theirs: a number that the genome does not have is
-- filled with a gene that does not exist.
use tareas_elo.Common.{
  ℕ, zero, suc, ◌+◌, ◌-◌, ◌≤◌, ◌<◌, ◌≡◌, ◌≢◌, refl, sym, ap, Option, none, some, List, [], ◌∷◌,
  ◌++◌, length, get_elem?, set, replicate, ◌>>=◌, if◌then◌else◌, leb, Bool, true, false, ◌&&◌, ◌==◌,
  arith, ◌⊎◌, inl, inr, Bool-cases, length-replicate, length-append, dec_lt, ℕ_discrete,
  get_elem?-outside, get_elem?-inside, get_elem?-set_self, get_elem?-set_ne, ◌∙◌, get_elem?-some-lt,
  Option-cases,
}
use mathlib.Core.Option.{some-injective}

module _ {A : Type 0} (exist : A → Bool) where
  -- Behind the end: as many missing genes as it takes, then the new one. Inside: in place of a gene
  -- that does not exist; none where one does.
  unfoldable pub store : A → A → ℕ → List A → Option (List A)
  store missing new n genes =
      if leb (length genes) n
      then some (genes ++ (replicate (n - length genes) missing ++ (new ∷ [])))
      else get_elem? genes n >>= λ old. if exist old then none else some (set genes n new)

  -- 1 where there is an existing gene of the kind `f` at n, else 0.
  abbrev pub tally : (A → Bool) → List A → ℕ → ℕ
  tally f genes n = elim (get_elem? genes n) [ none ↦ 0 | some g ↦ if exist g && f g then 1 else 0 ]

-- Reading behind a list.
pub get_elem?-left {ℓ} :
    {A : Type ℓ} (xs ys : List A) (i : ℕ) → i < length xs → get_elem? (xs ++ ys) i ≡ get_elem? xs i
get_elem?-left [] ys i h = elim h [ ]
get_elem?-left (x ∷ xs) ys zero h = refl
get_elem?-left (x ∷ xs) ys (suc i) h = get_elem?-left xs ys i (omega arith)

pub get_elem?-right {ℓ} :
    {A : Type ℓ} (xs ys : List A) (i : ℕ)
    → length xs ≤ i
    → get_elem? (xs ++ ys) i ≡ get_elem? ys (i - length xs)
get_elem?-right [] ys i h = ap (get_elem? ys) (omega arith)
get_elem?-right (x ∷ xs) ys zero h = elim h [ ]
get_elem?-right (x ∷ xs) ys (suc i) h =
    get_elem?-right xs ys i (omega arith) ∙ ap (get_elem? ys) (omega arith)

pub get_elem?-replicate {ℓ} :
    {A : Type ℓ} (a : A) (n i : ℕ) → i < n → get_elem? (replicate n a) i ≡ some a
get_elem?-replicate a zero i h = elim h [ ]
get_elem?-replicate a (suc n) zero h = refl
get_elem?-replicate a (suc n) (suc i) h = get_elem?-replicate a n i (omega arith)

-- A vector that grows to have an index k looks the same to a reader that takes the filling for
-- nothing.
module _ {ℓ κ} {A : Type ℓ} {B : Type κ} (f : Option A → B) where
  pub grown-same :
      (z : A) (k : ℕ) (xs : List A) (i : ℕ)
      → f (some z) ≡ f none
      → f (get_elem? (xs ++ replicate (k + 1 - length xs) z) i) ≡ f (get_elem? xs i)
  grown-same z k xs i empty = elim (dec_lt i (length xs)) [
    | yes inside ↦ ap f (get_elem?-left xs _ i inside)
    | no outside ↦ elim (dec_lt i (k + 1)) [
      | yes new ↦
          ap f (
            get_elem?-right xs _ i (omega arith)
            ∙ get_elem?-replicate z (k + 1 - length xs) (i - length xs) (omega arith))
          ∙ empty
          ∙ ap f (sym (get_elem?-outside xs i (omega arith)))
      | no behind ↦ ap f (
          get_elem?-outside _ i (
            omega (
              arith,
              length-append xs (replicate (k + 1 - length xs) z),
              length-replicate (k + 1 - length xs) z,
            ))
          ∙ sym (get_elem?-outside xs i (omega arith)))
    ]
  ]

pub grown-inside {ℓ} :
    {A : Type ℓ} (z : A) (k : ℕ) (xs : List A) → k < length (xs ++ replicate (k + 1 - length xs) z)
grown-inside z k xs = omega (
  arith,
  length-append xs (replicate (k + 1 - length xs) z),
  length-replicate (k + 1 - length xs) z,
)

module _ {A : Type 0} (exist : A → Bool) (missing new : A) (n : ℕ) (genes genes' : List A)
    (done : store exist missing new n genes ≡ some genes') (absent : exist missing ≡ false) where
  -- The two ways that `store` succeeds.
  store-cases :
      ((length genes ≤ n)
        × (genes' ≡ genes ++ (replicate (n - length genes) missing ++ (new ∷ []))))
      ⊎ ((old : A) × (n < length genes)
          × (get_elem? genes n ≡ some old)
          × (exist old ≡ false)
          × (genes' ≡ set genes n new))
  unfolding store
  store-cases = elim (Bool-cases (leb (length genes) n)) [
    | inl behind ↦ inl (ground arith, cc (rw behind at done))
    | inr inside ↦ inr (replaced inside)
  ]
    where
      replaced :
          leb (length genes) n ≡ false
          → (old : A) × (n < length genes)
            × (get_elem? genes n ≡ some old)
            × (exist old ≡ false)
            × (genes' ≡ set genes n new)
      replaced inside =
          let (old, at) = get_elem?-inside genes n (ground arith) in
          elim (Bool-cases (exist old)) [
            | inl taken ↦ absurd (cc (rw (inside, at, taken) at done))
            | inr free ↦ (old, ground arith, at, free, cc (rw (inside, at, free) at done))
          ]

  -- The new gene stands at n,
  pub store-here : get_elem? genes' n ≡ some new
  store-here = elim store-cases [
    | inl (le, e) ↦ rw e (behind le)
    | inr (old, lt, at, free, e) ↦ rw e (get_elem?-set_self genes n new lt)
  ]
    where
      gap : List A
      gap = replicate (n - length genes) missing

      last : (n - length genes) - length gap ≡ 0
      last = omega (arith, length-replicate (n - length genes) missing)

      behind : length genes ≤ n → get_elem? (genes ++ (gap ++ (new ∷ []))) n ≡ some new
      behind le =
          get_elem?-right genes (gap ++ (new ∷ [])) n le
          ∙ get_elem?-right gap (new ∷ []) (n - length genes)
              (omega (arith, length-replicate (n - length genes) missing))
          ∙ ap (get_elem? (new ∷ [])) last

  -- where no gene did,
  pub store-was_free : (f : A → Bool) → tally exist f genes n ≡ 0
  store-was_free f = elim store-cases [
    | inl (le, e) ↦ rw (tally, get_elem?-outside genes n le)
    | inr (old, lt, at, free, e) ↦ rw (tally, at, free)
  ]

  -- and elsewhere nothing changes but for genes that do not exist.
  pub store-elsewhere :
      (i : ℕ)
      → i ≢ n
      → (get_elem? genes' i ≡ get_elem? genes i)
        ⊎ ((get_elem? genes i ≡ none)
            × ((get_elem? genes' i ≡ none) ⊎ (get_elem? genes' i ≡ some missing)))
  store-elsewhere i other = elim store-cases [
    | inr (old, lt, at, free, e) ↦
        inl (rw e (get_elem?-set_ne genes n i new (λ same. other (sym same))))
    | inl (le, e) ↦ elim (dec_lt i (length genes)) [
      | yes inside ↦ inl (rw e (get_elem?-left genes _ i inside))
      | no outside ↦ inr (
        get_elem?-outside genes i (omega arith),
        elim (dec_lt i n) [
          | yes short ↦ inr (rw e (in_gap (omega arith) short))
          | no behind ↦ inl (rw e (get_elem?-outside _ i (size le behind)))
        ],
      )
    ]
  ]
    where
      gap : List A
      gap = replicate (n - length genes) missing

      in_gap : length genes ≤ i → i < n → get_elem? (genes ++ (gap ++ (new ∷ []))) i ≡ some missing
      in_gap le lt =
          get_elem?-right genes (gap ++ (new ∷ [])) i le
          ∙ get_elem?-left gap (new ∷ []) (i - length genes)
              (omega (arith, length-replicate (n - length genes) missing))
          ∙ get_elem?-replicate missing (n - length genes) (i - length genes) (omega arith)

      size : length genes ≤ n → ¬ (i < n) → length (genes ++ (gap ++ (new ∷ []))) ≤ i
      size le h = omega (
        arith,
        length-append genes (gap ++ (new ∷ [])),
        length-append gap (new ∷ []),
        length-replicate (n - length genes) missing,
      )

  -- So the existing genes of a kind are the old ones and the new one, if it is of the kind.
  pub store-tally :
      (f : A → Bool) (i : ℕ)
      → exist new ≡ true
      → tally exist f genes' i ≡ tally exist f genes i + (if i == n && f new then 1 else 0)
  store-tally f i present = elim (ℕ_discrete i n) [
    | yes here ↦ rw (here, store-was_free f) (rw (tally, store-here, present) (ground arith))
    | no other ↦ elim (store-elsewhere i other) [
      | inl same ↦ rw (tally, same) (ground arith)
      | inr (was, inl is) ↦ rw (tally, was, is) (ground arith)
      | inr (was, inr is) ↦ rw (tally, was, is, absent) (ground arith)
    ]
  ]

  -- An existing gene is the new one at n, or an old one.
  pub store-origin :
      (i : ℕ) (g : A)
      → get_elem? genes' i ≡ some g
      → exist g ≡ true
      → ((i ≡ n) × (g ≡ new)) ⊎ (get_elem? genes i ≡ some g)
  store-origin i g at present = elim (ℕ_discrete i n) [
    | yes here ↦ inl (here, some-injective g new (sym at ∙ ap (get_elem? genes') here ∙ store-here))
    | no other ↦ elim (store-elsewhere i other) [
      | inl same ↦ inr (sym same ∙ at)
      | inr (was, inl is) ↦ absurd cc
      | inr (was, inr is) ↦ absurd cc
    ]
  ]

-- `store` succeeds exactly where no gene exists yet.
module _ {A : Type 0} (exist : A → Bool) (missing new : A) (n : ℕ) (genes : List A) where
  pub store-free :
      tally exist (λ _. true) genes n ≡ 0
      → (genes' : List A) × (store exist missing new n genes ≡ some genes')
  unfolding store
  store-free free = elim (Bool-cases (leb (length genes) n)) [
    | inl behind ↦ (genes ++ (replicate (n - length genes) missing ++ (new ∷ [])), rw behind)
    | inr inside ↦
        let (old, at) = get_elem?-inside genes n (ground arith) in
        elim (Bool-cases (exist old)) [
          | inl taken ↦ absurd (omega (arith, (rw (tally, at, taken) at free)))
          | inr absent ↦ (set genes n new, rw (inside, at, absent))
        ]
  ]

  pub store-taken : tally exist (λ _. true) genes n ≡ 1 → store exist missing new n genes ≡ none
  unfolding store
  store-taken taken = elim (Option-cases (get_elem? genes n)) [
    | inl outside ↦ absurd (omega (arith, (rw (tally, outside) at taken)))
    | inr (old, at) ↦ elim (Bool-cases (exist old)) [
      | inl here ↦ rw (inside old at, at, here)
      | inr absent ↦ absurd (omega (arith, (rw (tally, at, absent) at taken)))
    ]
  ]
    where
      inside : (old : A) → get_elem? genes n ≡ some old → leb (length genes) n ≡ false
      inside old at = ground (arith, get_elem?-some-lt genes n old at)
