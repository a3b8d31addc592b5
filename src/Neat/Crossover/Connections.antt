-- ===== src/Neat/Crossover/Connections.antt =====
-- The connections of `crossover` (proyecto/NEAT/src/NEAT.cpp).
use tareas_elo.Common.{
  ℕ, ◌≡◌, refl, sym, subst, List, [], true, false, ◌&&◌, if◌then◌else◌, Bool-cases, inl, inr, ◌⊎◌,
  ◌∙◌, ap, get_elem?, some,
}
use mathlib.Core.Option.{some-injective}
use tareas_elo.Common.Int.{pos}
use tareas_elo.Common.Doubles.{Doubles}
use tareas_elo.Neat.Genome.{ConnectionGene, Encoding, add_connection_gene}
use tareas_elo.Neat.Genome.Nodes.{WellFormed, add_connection_gene-WellFormed}
use tareas_elo.Neat.Genome.Added.{add_connection_gene-free}
use tareas_elo.Neat.Population.{Population, Uninitialised, rand, rand_share}
use tareas_elo.Neat.Population.Drawing.{Draws, Draws-pure, Draws-bind, Draws-rand, Draws-gotten}
use tareas_elo.Neat.Crossover.{maybe_enable, pick_connection}
use tareas_elo.Neat.Crossover.Loop.{Picked, Adds}
use tareas_elo.Neat.Crossover.Choices.{Contested, SameConnection, FromEither, Inherits}

module _ (d : Doubles) (junk : Uninitialised d.Double) (probability : d.Double)
    (xs ys : List (ConnectionGene d.Double)) where
  abbrev Same : ℕ → ConnectionGene d.Double → ConnectionGene d.Double → Type 0
  Same = SameConnection d probability xs ys

  abbrev pub GoodConnection : ℕ → ConnectionGene d.Double → Type 0
  GoodConnection i c =
      (c.exist ≡ true)
      × (c.innovation ≡ pos i)
      × ((parent : ConnectionGene d.Double) × FromEither (λ g. g.exist) xs ys i parent
          × Same i c parent)

  abbrev pub OkConnections : Encoding d.Double → Type 0
  OkConnections e =
      WellFormed e × (Inherits (λ c. c.exist) Same xs ys e.lconnection_genes × (e.lnode_genes ≡ []))

  pub connection-Adds :
      Adds
        (λ c. c.exist)
        (pick_connection d junk)
        (add_connection_gene d junk.connection)
        (λ e. e.lconnection_genes)
        OkConnections
        GoodConnection
  connection-Adds i c e (ok, (inherits, no_nodes)) (there, number, parent) free =
      let (genes, run, origin, tallies) =
        add_connection_gene-free d junk.connection c e i number free in
      (
        record e { lconnection_genes = genes },
        run,
        (
          add_connection_gene-WellFormed d junk.connection c e _ ok run,
          (
            λ m g at present. elim (origin m g at present) [
              | inl (here, same) ↦
                  subst (λ k. Parent k g) (sym here) (subst (λ h. Parent i h) (sym same) parent)
              | inr was ↦ inherits m g was present
            ],
            no_nodes,
          ),
        ),
        tallies,
      )
    where
      Parent : ℕ → ConnectionGene d.Double → Type 0
      Parent k h =
          (parent : ConnectionGene d.Double) × FromEither (λ g. g.exist) xs ys k parent
          × Same k h parent

  -- What the probability is in a population.
  abbrev pub SetSo : Population d.Double → Type 0
  SetSo p = p.settings.prob_enable_an_disable_connection ≡ probability

  -- A connection of a parent may stand at its place where the parents do not contest it.
  pub uncontested :
      (i : ℕ) (c : ConnectionGene d.Double)
      → FromEither (λ g. g.exist) xs ys i c
      → c.innovation ≡ pos i
      → (Contested xs ys i → ⊥)
      → GoodConnection i c
  uncontested i c from number peace =
      (from.1, number, (c, from, (refl, refl, refl, refl, (λ h. absurd (peace h)), λ h. refl)))

  -- A contest at i is one of the genes that stand there.
  pub contest_of :
      (i : ℕ) (a b : ConnectionGene d.Double)
      → get_elem? xs i ≡ some a
      → get_elem? ys i ≡ some b
      → Contested xs ys i
      → ((a.exist && b.exist) ≡ true) × ((a.enable && b.enable) ≡ false)
  contest_of i a b at1 at2 (a', b', at1', at2', there1, there2, off) =
      subst (λ g. ((g.exist && b.exist) ≡ true) × ((g.enable && b.enable) ≡ false))
        (some-injective a' a (sym at1' ∙ at1))
        (subst (λ g. ((a'.exist && g.exist) ≡ true) × ((a'.enable && g.enable) ≡ false))
          (some-injective b' b (sym at2' ∙ at2)) (rw (there1, there2) refl, off))

  pub maybe_enable-Picked :
      (p : Population d.Double) (i : ℕ) (c : ConnectionGene d.Double)
      → SetSo p
      → FromEither (λ g. g.exist) xs ys i c
      → c.innovation ≡ pos i
      → Contested xs ys i
      → c.enable ≡ false
      → Draws (maybe_enable d junk c) p (Picked GoodConnection i true)
  unfolding maybe_enable
  maybe_enable-Picked p i c set_so from number contest off = Draws-gotten _ p _ (
      Draws-bind rand _ p _ _ (Draws-rand p) (λ r q drawn _. Draws-pure _ q _ (
        refl,
        enabled r (Bool-cases (d.lt (rand_share d r) p.settings.prob_enable_an_disable_connection)),
      )))
    where
      enabled :
          (r : ℕ)
          → (d.lt (rand_share d r) p.settings.prob_enable_an_disable_connection ≡ true)
            ⊎ (d.lt (rand_share d r) p.settings.prob_enable_an_disable_connection ≡ false)
          → GoodConnection i (
              if d.lt (rand_share d r) p.settings.prob_enable_an_disable_connection
              then record c { enable = true }
              else c)
      enabled r (inl on) = rw on (
        from.1,
        number,
        (
          c,
          from,
          (
            refl,
            refl,
            refl,
            refl,
            (λ h. (off, r, sym on ∙ ap (d.lt (rand_share d r)) set_so)),
            λ peace. absurd (peace contest),
          ),
        ),
      )
      enabled r (inr stays) = rw stays (
        from.1,
        number,
        (
          c,
          from,
          (
            refl,
            refl,
            refl,
            refl,
            (λ h. (off, r, off ∙ sym stays ∙ ap (d.lt (rand_share d r)) set_so)),
            λ peace. absurd (peace contest),
          ),
        ),
      )
