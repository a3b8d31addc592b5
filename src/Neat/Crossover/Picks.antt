-- ===== src/Neat/Crossover/Picks.antt =====
-- Which connection `crossover` (proyecto/NEAT/src/NEAT.cpp) chooses of two parents.
use tareas_elo.Common.{
  ℕ, ◌≡◌, sym, subst, List, true, false, ◌&&◌, ◌||◌, if◌then◌else◌, not, arith, Bool-cases, inl,
  inr, get_elem?, some,
}
use tareas_elo.Common.Int.{pos}
use tareas_elo.Common.Doubles.{Doubles}
use tareas_elo.Neat.Genome.{ConnectionGene, add_connection_gene}
use tareas_elo.Neat.Population.{Population, Uninitialised}
use tareas_elo.Neat.Population.Drawing.{Draws}
use tareas_elo.Neat.Crossover.{toss, maybe_enable, pick_connection}
use tareas_elo.Neat.Crossover.Loop.{Picked, Picks, Ones}
use tareas_elo.Neat.Crossover.Choices.{Contested, FromEither, toss-Picked, one_of-Picked}
use tareas_elo.Neat.Crossover.Connections.{
  GoodConnection, OkConnections, SetSo, uncontested, contest_of, maybe_enable-Picked,
}

module _ (d : Doubles) (junk : Uninitialised d.Double) (probability : d.Double)
    (xs ys : List (ConnectionGene d.Double)) where
  abbrev pub Numbers : List (ConnectionGene d.Double) → Type 0
  Numbers zs =
      (i : ℕ) (c : ConnectionGene d.Double)
      → get_elem? zs i ≡ some c
      → c.exist ≡ true
      → c.innovation ≡ pos i

  abbrev Good : ℕ → ConnectionGene d.Double → Type 0
  Good = GoodConnection d junk probability xs ys

  peaceful :
      (i : ℕ) (c : ConnectionGene d.Double)
      → FromEither (λ g. g.exist) xs ys i c
      → c.innovation ≡ pos i
      → (Contested xs ys i → ⊥)
      → Good i c
  peaceful = uncontested d junk probability xs ys

  pub connection-Ones :
      Numbers xs
      → Numbers ys
      → Ones
          (λ c. c.exist)
          (pick_connection d junk)
          (add_connection_gene d junk.connection)
          (λ e. e.lconnection_genes)
          (OkConnections d junk probability xs ys)
          Good
          xs
          ys
  connection-Ones numbers1 numbers2 i c (inl (at, other)) there =
      peaceful i c (inl at, there) (numbers1 i c at there)
        (λ (a, b, at1, at2, there1, there2, off). cc (at2, other))
  connection-Ones numbers1 numbers2 i c (inr (at, other)) there =
      peaceful i c (inr at, there) (numbers2 i c at there)
        (λ (a, b, at1, at2, there1, there2, off). cc (at1, other))

  -- Where both exist and not both are enabled, one that is disabled is chosen.
  contested-Picked :
      Numbers xs
      → Numbers ys
      → (p : Population d.Double) (i : ℕ) (a b : ConnectionGene d.Double)
      → SetSo d junk probability xs ys p
      → get_elem? xs i ≡ some a
      → get_elem? ys i ≡ some b
      → (a.exist ≡ true) × (b.exist ≡ true)
      → (a.enable && b.enable) ≡ false
      → Draws (maybe_enable d junk (if not a.enable then a else b)) p (Picked Good i true)
  contested-Picked numbers1 numbers2 p i a b set_so at1 at2 (there1, there2) disabled =
      elim (Bool-cases a.enable) [
        | inl on ↦
            subst (λ t. Draws (maybe_enable d junk (if not t then a else b)) p (Picked Good i true))
              (sym on)
              (maybe_enable-Picked d junk probability xs ys p i b set_so (inr at2, there2)
                (numbers2 i b at2 there2) contest (second_off on))
        | inr off ↦
            subst (λ t. Draws (maybe_enable d junk (if not t then a else b)) p (Picked Good i true))
              (sym off)
              (maybe_enable-Picked d junk probability xs ys p i a set_so (inl at1, there1)
                (numbers1 i a at1 there1) contest off)
      ]
    where
      contest : Contested xs ys i
      contest = (a, b, at1, at2, there1, there2, disabled)

      second_off : a.enable ≡ true → b.enable ≡ false
      second_off on = ground arith

  -- Where both exist.
  both-Picked :
      Numbers xs
      → Numbers ys
      → (p : Population d.Double) (i : ℕ) (a b : ConnectionGene d.Double)
      → SetSo d junk probability xs ys p
      → get_elem? xs i ≡ some a
      → get_elem? ys i ≡ some b
      → (a.exist ≡ true) × (b.exist ≡ true)
      → Draws
          (if a.enable && b.enable
            then toss d junk a b
            else maybe_enable d junk (if not a.enable then a else b))
          p
          (Picked Good i true)
  both-Picked numbers1 numbers2 p i a b set_so at1 at2 (there1, there2) =
      elim (Bool-cases (a.enable && b.enable)) [
        | inl enabled ↦ rw enabled (
            toss-Picked d junk Good p i a b
              (peaceful i a (inl at1, there1) (numbers1 i a at1 there1)
                (λ h. cc ((contest_of d junk probability xs ys i a b at1 at2 h).1, enabled)))
              (peaceful i b (inr at2, there2) (numbers2 i b at2 there2)
                (λ h. cc ((contest_of d junk probability xs ys i a b at1 at2 h).1, enabled))))
        | inr disabled ↦
            rw disabled
              (contested-Picked numbers1 numbers2 p i a b set_so at1 at2 (there1, there2) disabled)
      ]

  pub connection-Picks :
      Numbers xs
      → Numbers ys
      → Picks
          (λ c. c.exist)
          (pick_connection d junk)
          (add_connection_gene d junk.connection)
          (λ e. e.lconnection_genes)
          (OkConnections d junk probability xs ys)
          Good
          xs
          ys
          (SetSo d junk probability xs ys)
  unfolding pick_connection
  connection-Picks numbers1 numbers2 p i a b set_so at1 at2 =
      elim (Bool-cases (a.exist && b.exist)) [
        | inr not_both ↦ rw not_both (
            one_of-Picked d junk (λ c. c.exist) Good p i a b not_both
              (λ there.
                peaceful i a (inl at1, there) (numbers1 i a at1 there) (no_contest not_both))
              (λ there.
                peaceful i b (inr at2, there) (numbers2 i b at2 there) (no_contest not_both)))
        | inl both ↦
            rw (both, either_exists both)
              (both-Picked numbers1 numbers2 p i a b set_so at1 at2 (first both, second both))
      ]
    where
      no_contest : (a.exist && b.exist) ≡ false → Contested xs ys i → ⊥
      no_contest not_both h = cc ((contest_of d junk probability xs ys i a b at1 at2 h).0, not_both)

      first : (a.exist && b.exist) ≡ true → a.exist ≡ true
      first both = ground arith

      second : (a.exist && b.exist) ≡ true → b.exist ≡ true
      second both = ground arith

      either_exists : (a.exist && b.exist) ≡ true → (a.exist || b.exist) ≡ true
      either_exists both = ground arith
