-- ===== src/Neat/Crossover/Loop.antt =====
-- The loops of `crossover` (proyecto/NEAT/src/NEAT.cpp), for genes of either kind.
use tareas_elo.Common.{
  ℕ, zero, suc, ◌+◌, ◌≤◌, ◌<◌, ◌≡◌, refl, ◌∙◌, ap, min, Option, none, some, List, [], ◌∷◌, Bool,
  true, false, ◌&&◌, ◌||◌, ◌==◌, if◌then◌else◌, arith, get_elem?, ◌⊎◌, sym, Bool-cases, inl, inr,
}
use tareas_elo.Neat.Slots.{tally}
use tareas_elo.Neat.Genome.{Encoding}
use tareas_elo.Neat.Population.{Population, M}
use tareas_elo.Neat.Population.Drawing.{Drawn, Draws, Draws-pure, Draws-lift, Draws-bind, Draws-map}
use tareas_elo.Neat.Crossover.{add_picked, cross, existing}

-- A gene that may stand at i is chosen if there is one.
abbrev pub Picked : {G : Type 0} → (ℕ → G → Type 0) → ℕ → Bool → Option G → Type 0
Picked Good i present none = present ≡ false
Picked Good i present (some g) = (present ≡ true) × Good i g

module _ {D G : Type 0} (exist : G → Bool) (pick : G → G → M D (Option G))
    (add : G → Encoding D → Option (Encoding D)) (genes : Encoding D → List G)
    (Ok : Encoding D → Type 0) (Good : ℕ → G → Type 0) where
  -- Whether there is a gene at m.
  abbrev pub has : Encoding D → ℕ → ℕ
  has e m = tally exist (λ _. true) (genes e) m

  abbrev pub Adds : Type 0
  Adds =
      (i : ℕ) (g : G) (e : Encoding D)
      → Ok e
      → Good i g
      → has e i ≡ 0
      → (e' : Encoding D) × (add g e ≡ some e')
        × Ok e'
        × ((m : ℕ) → has e' m ≡ has e m + (if m == i then 1 else 0))

  -- What `pick` chooses of the genes that the parents `xs0` and `ys0` have at i.
  abbrev pub Picks : List G → List G → (Population D → Type 0) → Type 0
  Picks xs0 ys0 Here =
      (p : Population D) (i : ℕ) (a b : G)
      → Here p
      → get_elem? xs0 i ≡ some a
      → get_elem? ys0 i ≡ some b
      → Draws (pick a b) p (Picked Good i (exist a || exist b))

  -- A gene behind the end of the other parent.
  abbrev pub Ones : List G → List G → Type 0
  Ones xs0 ys0 =
      (i : ℕ) (g : G)
      → (((get_elem? xs0 i ≡ some g) × (get_elem? ys0 i ≡ none))
          ⊎ ((get_elem? ys0 i ≡ some g) × (get_elem? xs0 i ≡ none)))
      → exist g ≡ true
      → Good i g

  -- What is left of a parent from i on.
  abbrev pub From : List G → ℕ → List G → Type 0
  From zs0 i zs = (k : ℕ) → get_elem? zs k ≡ get_elem? zs0 (k + i)

  module _ (xs0 ys0 : List G) (Here : Population D → Type 0) (adds : Adds)
      (picks : Picks xs0 ys0 Here) (ones : Ones xs0 ys0)
      (stable : (p q : Population D) → Drawn p q → Here p → Here q) where
    From-first :
        (zs0 : List G) (i : ℕ) (zs : List G) (o : Option G)
        → From zs0 i zs
        → get_elem? zs 0 ≡ o
        → get_elem? zs0 i ≡ o
    From-first zs0 i zs o from first = ap (get_elem? zs0) (omega arith) ∙ sym (from 0) ∙ first

    From-rest :
        (zs0 : List G) (i : ℕ) (z : G) (zs : List G) → From zs0 i (z ∷ zs) → From zs0 (suc i) zs
    From-rest zs0 i z zs from k = from (suc k) ∙ ap (get_elem? zs0) (omega arith)

    From-end : (zs0 : List G) (i : ℕ) → From zs0 i [] → From zs0 (suc i) []
    From-end zs0 i from k = from (suc k) ∙ ap (get_elem? zs0) (omega arith)

    add_picked-returns :
        (p : Population D) (i : ℕ) (present : Bool) (o : Option G) (e : Encoding D)
        → Ok e
        → has e i ≡ 0
        → Picked Good i present o
        → Draws
            (add_picked pick (existing exist) add o e)
            p
            (λ e'. Ok e' × ((m : ℕ) → has e' m ≡ has e m + (if m == i && present then 1 else 0)))
    add_picked-returns p i present none e ok free picked =
        Draws-pure e p _ (ok, λ m. rw picked (ground arith))
    add_picked-returns p i present (some g) e ok free (there, good) =
        let (e', run, ok', tallies) = adds i g e ok good free in
        Draws-lift (add g e) e' p _ run (ok', λ m. tallies m ∙ rw there (ground arith))

    existing-Picked :
        (i : ℕ) (g : G) → (exist g ≡ true → Good i g) → Picked Good i (exist g) (existing exist g)
    existing-Picked i g good = elim (Bool-cases (exist g)) [
      | inl yes_it ↦ rw yes_it (refl, good yes_it)
      | inr no_it ↦ rw no_it refl
    ]

    -- Behind i the result has a gene exactly where a parent has one, and before i nothing changes.
    abbrev pub Crossed : ℕ → List G → List G → Encoding D → Encoding D → Type 0
    Crossed i xs ys e e' =
        Ok e'
        × ((m : ℕ) → m < i → has e' m ≡ has e m)
        × ((k : ℕ)
            → has e' (k + i) ≡ min 1 (tally exist (λ _. true) xs k + tally exist (λ _. true) ys k))

    still :
        (i : ℕ) (present : Bool) (e e' : Encoding D)
        → ((m : ℕ) → i ≤ m → has e m ≡ 0)
        → ((m : ℕ) → has e' m ≡ has e m + (if m == i && present then 1 else 0))
        → (m : ℕ) → suc i ≤ m
        → has e' m ≡ 0
    still i present e e' free step m h = step m ∙ rw (free m (omega arith)) (ground arith)

    Crossed-step :
        (i : ℕ) (all_xs all_ys xs ys : List G) (present : Bool) (e e' e'' : Encoding D)
        → ((m : ℕ) → i ≤ m → has e m ≡ 0)
        → ((m : ℕ) → has e' m ≡ has e m + (if m == i && present then 1 else 0))
        → (if present then 1 else 0)
          ≡ min 1 (tally exist (λ _. true) all_xs 0 + tally exist (λ _. true) all_ys 0)
        → ((k : ℕ) → tally exist (λ _. true) all_xs (suc k) ≡ tally exist (λ _. true) xs k)
        → ((k : ℕ) → tally exist (λ _. true) all_ys (suc k) ≡ tally exist (λ _. true) ys k)
        → Crossed (suc i) xs ys e' e''
        → Crossed i all_xs all_ys e e''
    Crossed-step i all_xs all_ys xs ys present e e' e'' free step head tail1 tail2 (ok, old, new) =
        (ok, (λ m h. old m (omega arith) ∙ step m ∙ ground arith), λ k. at k)
      where
        at :
            (k : ℕ)
            → has e'' (k + i)
              ≡ min 1 (tally exist (λ _. true) all_xs k + tally exist (λ _. true) all_ys k)
        at zero =
            ap (has e'') (omega arith)
            ∙ old i (omega arith)
            ∙ step i
            ∙ (rw (free i (omega arith)) (ground arith))
            ∙ head
        at (suc k) = ap (has e'') (omega arith) ∙ new k ∙ rw (tail1 k, tail2 k) refl

    pub cross-returns :
        (i : ℕ) (xs ys : List G) (e : Encoding D) (p : Population D)
        → Ok e
        → ((m : ℕ) → i ≤ m → has e m ≡ 0)
        → Here p
        → From xs0 i xs
        → From ys0 i ys
        → Draws (cross pick (existing exist) add xs ys e) p (Crossed i xs ys e)
    unfolding cross
    cross-returns i [] [] e p ok free here from1 from2 =
        Draws-pure e p _ (ok, (λ m h. refl), λ k. free (k + i) (omega arith))
    cross-returns i [] (b ∷ bs) e p ok free here from1 from2 =
        Draws-bind _ _ p _ _
          (add_picked-returns p i (exist b) (existing exist b) e ok (free i (omega arith)) (
            existing-Picked i b (
              ones i b (
                inr (
                  From-first ys0 i (b ∷ bs) (some b) from2 refl,
                  From-first xs0 i [] none from1 refl,
                )))))
          (λ e' q drawn (ok', step).
            Draws-map (cross pick (existing exist) add [] bs e') q _ _
              (cross-returns (suc i) [] bs e' q ok' (still i (exist b) e e' free step)
                (stable p q drawn here) (From-end xs0 i from1) (From-rest ys0 i b bs from2))
              (λ e''.
                Crossed-step i [] (b ∷ bs) [] bs (exist b) e e' e'' free step (ground arith)
                  (λ k. refl) (λ k. refl)))
    cross-returns i (a ∷ xs) [] e p ok free here from1 from2 =
        Draws-bind _ _ p _ _
          (add_picked-returns p i (exist a) (existing exist a) e ok (free i (omega arith)) (
            existing-Picked i a (
              ones i a (
                inl (
                  From-first xs0 i (a ∷ xs) (some a) from1 refl,
                  From-first ys0 i [] none from2 refl,
                )))))
          (λ e' q drawn (ok', step).
            Draws-map (cross pick (existing exist) add xs [] e') q _ _
              (cross-returns (suc i) xs [] e' q ok' (still i (exist a) e e' free step)
                (stable p q drawn here) (From-rest xs0 i a xs from1) (From-end ys0 i from2))
              (λ e''.
                Crossed-step i (a ∷ xs) [] xs [] (exist a) e e' e'' free step (ground arith)
                  (λ k. refl) (λ k. refl)))
    cross-returns i (a ∷ xs) (b ∷ bs) e p ok free here from1 from2 =
        Draws-bind _ _ p _ _
          (picks p i a b here (From-first xs0 i (a ∷ xs) (some a) from1 refl)
            (From-first ys0 i (b ∷ bs) (some b) from2 refl))
          (λ c q drawn picked.
            Draws-bind _ _ q _ _
              (add_picked-returns q i (exist a || exist b) c e ok (free i (omega arith)) picked)
              (λ e' r drawn' (ok', step).
                Draws-map (cross pick (existing exist) add xs bs e') r _ _
                  (cross-returns (suc i) xs bs e' r ok'
                    (still i (exist a || exist b) e e' free step)
                    (stable q r drawn' (stable p q drawn here)) (From-rest xs0 i a xs from1)
                    (From-rest ys0 i b bs from2))
                  (λ e''.
                    Crossed-step i (a ∷ xs) (b ∷ bs) xs bs (exist a || exist b) e e' e'' free step
                      (ground arith) (λ k. refl) (λ k. refl))))
