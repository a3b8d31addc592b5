-- ===== src/Neat/Crossover/Choices.antt =====
-- The choices of `crossover` (proyecto/NEAT/src/NEAT.cpp) that are the same for genes of both kinds.
use tareas_elo.Common.{
  ℕ, ◌≡◌, refl, none, some, List, Bool, true, false, ◌%◌, ◌&&◌, ◌||◌, if◌then◌else◌, leb, get_elem?,
  Bool-cases, ◌⊎◌, inl, inr,
}
use tareas_elo.Common.Doubles.{Doubles}
use tareas_elo.Neat.Genome.{ConnectionGene, NodeGene}
use tareas_elo.Neat.Population.{Population, Uninitialised, pure, rand, rand_share}
use tareas_elo.Neat.Population.Drawing.{Draws, Draws-pure, Draws-bind, Draws-rand}
use tareas_elo.Neat.Crossover.{existing, toss}
use tareas_elo.Neat.Crossover.Loop.{Picked}

-- Both parents have a connection at i, and not both are enabled.
abbrev pub Contested : {D : Type 0} → List (ConnectionGene D) → List (ConnectionGene D) → ℕ → Type 0
Contested {D} xs ys i =
    (a : ConnectionGene D) × (b : ConnectionGene D) × (get_elem? xs i ≡ some a)
    × (get_elem? ys i ≡ some b)
    × (a.exist ≡ true)
    × (b.exist ≡ true)
    × ((a.enable && b.enable) ≡ false)

-- The gene of a parent. Where the parents differ on it or both have it disabled, the parent's is a
-- disabled one, and it is enabled if a draw of `rand()` falls below the probability, and only then;
-- elsewhere its `enable` is the parent's.
abbrev pub SameConnection :
    (d : Doubles) (probability : d.Double)
    → List (ConnectionGene d.Double)
    → List (ConnectionGene d.Double)
    → ℕ
    → ConnectionGene d.Double
    → ConnectionGene d.Double
    → Type 0
SameConnection d probability xs ys i c parent =
    (c.innovation ≡ parent.innovation)
    × (c.in_node ≡ parent.in_node)
    × (c.out_node ≡ parent.out_node)
    × (c.weight ≡ parent.weight)
    × (Contested xs ys i
        → (parent.enable ≡ false) × (r : ℕ) × (c.enable ≡ d.lt (rand_share d r) probability))
    × ((Contested xs ys i → ⊥) → c.enable ≡ parent.enable)

-- The gene of a parent, but for what it last put out.
abbrev pub SameNode : {D : Type 0} → NodeGene D → NodeGene D → Type 0
SameNode g g' =
    (g.node ≡ g'.node)
    × (g.type ≡ g'.type)
    × (g.row ≡ g'.row)
    × (g.random_function ≡ g'.random_function)

-- An existing gene at i of one of two lists.
abbrev pub FromEither : {G : Type 0} → (G → Bool) → List G → List G → ℕ → G → Type 0
FromEither exist xs ys i g =
    ((get_elem? xs i ≡ some g) ⊎ (get_elem? ys i ≡ some g)) × (exist g ≡ true)

-- Every existing gene is that of a parent, at its place.
abbrev pub Inherits :
    {G : Type 0} → (G → Bool) → (ℕ → G → G → Type 0) → List G → List G → List G → Type 0
Inherits {G} exist Same xs ys genes =
    (i : ℕ) (g : G)
    → get_elem? genes i ≡ some g
    → exist g ≡ true
    → (parent : G) × FromEither exist xs ys i parent × Same i g parent

module _ (d : Doubles) (junk : Uninitialised d.Double) where
  pub toss-Picked :
      {G : Type 0} (Good : ℕ → G → Type 0) (p : Population d.Double) (i : ℕ) (a b : G)
      → Good i a
      → Good i b
      → Draws (toss d junk a b) p (Picked Good i true)
  unfolding toss
  toss-Picked Good p i a b good1 good2 = Draws-bind rand _ p _ _ (Draws-rand p) (λ r q drawn _.
      Draws-pure (some (if leb 5 (r % 10) then a else b)) q _ (refl, either (leb 5 (r % 10))))
    where
      either : (first : Bool) → Good i (if first then a else b)
      either true = good1
      either false = good2

  pub one_of-Picked :
      {G : Type 0} (exist : G → Bool) (Good : ℕ → G → Type 0) (p : Population d.Double) (i : ℕ)
      (a b : G)
      → (exist a && exist b) ≡ false
      → (exist a ≡ true → Good i a)
      → (exist b ≡ true → Good i b)
      → Draws
          (pure {D = d.Double} (if exist a then some a else existing exist b))
          p
          (Picked Good i (exist a || exist b))
  one_of-Picked exist Good p i a b not_both good1 good2 = elim (Bool-cases (exist a)) [
    | inl first ↦ rw first (Draws-pure (some a) p (Picked Good i true) (refl, good1 first))
    | inr no_first ↦ elim (Bool-cases (exist b)) [
      | inl second ↦
          rw (no_first, second) (Draws-pure (some b) p (Picked Good i true) (refl, good2 second))
      | inr no_second ↦ rw (no_first, no_second) (Draws-pure none p (Picked Good i false) refl)
    ]
  ]
