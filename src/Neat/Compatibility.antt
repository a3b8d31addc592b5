-- ===== src/Neat/Compatibility.antt =====
-- `compatibility` of proyecto/NEAT/src/NEAT.cpp: how far apart two genomes are. `exp` and `fabs` of
-- the C library enter as parameters.
use tareas_elo.Common.{
  ℕ, ◌+◌, ◌≡◌, List, [], ◌∷◌, Bool, true, false, ◌&&◌, ◌||◌, if◌then◌else◌, length, drop, ltb,
}
use tareas_elo.Common.Int.{pos}
use tareas_elo.Common.Doubles.{Doubles}
use tareas_elo.Neat.Genome.{ConnectionGene, Encoding}
use tareas_elo.Neat.Population.{Settings}
pub mod Symmetric

-- W and D of the code.
pub record Differences (D : Type 0) : Type 0 where
  pub weights : D
  pub disjoint : ℕ

abbrev pub used : {D : Type 0} → ConnectionGene D → Bool
used c = c.exist && c.enable

-- E of the code: the connections used behind the end of the other genome.
abbrev pub count_used : {D : Type 0} → List (ConnectionGene D) → ℕ
count_used [] = 0
count_used (c ∷ cs) = (if used c then 1 else 0) + count_used cs

module _ (d : Doubles) (exp fabs : d.Double → d.Double) where
  abbrev pub compare_genes :
      ConnectionGene d.Double
      → ConnectionGene d.Double
      → Differences d.Double
      → Differences d.Double
  compare_genes a b found =
      if used a && used b
      then record found { weights = d.add found.weights (fabs (d.sub a.weight b.weight)) }
      else if used a || used b
      then record found { disjoint = found.disjoint + 1 }
      else found

  -- The loop over the places that both genomes have.
  unfoldable pub compare_all :
      List (ConnectionGene d.Double)
      → List (ConnectionGene d.Double)
      → Differences d.Double
      → Differences d.Double
  compare_all [] ys found = found
  compare_all (x ∷ xs) [] found = found
  compare_all (x ∷ xs) (y ∷ ys) found = compare_all xs ys (compare_genes x y found)

  abbrev number : ℕ → d.Double
  number n = d.of_int (pos n)

  abbrev pub no_differences : Differences d.Double
  no_differences = record { weights = d.of_int (pos 0); disjoint = 0 }

  -- `1.0 + (1.0 - exp(-(limit_sup + 10.0) / 2.5)) * (limit_sup - 1.0)` for more than ten places.
  abbrev pub divisor : ℕ → d.Double
  divisor limit_sup =
      if ltb 10 limit_sup
      then d.add (number 1) (
          d.mul
            (d.sub (number 1) (
              exp (
                d.div (d.sub (number 0) (d.add (number limit_sup) (number 10)))
                  (d.div (number 5) (number 2)))))
            (d.sub (number limit_sup) (number 1)))
      else number 1

  abbrev pub small_gnomes_adjust : Settings d.Double → ℕ → d.Double
  small_gnomes_adjust s limit_sup =
      if ltb 10 limit_sup
      then number 1
      else if d.lt s.organism_distance_3 (number 1)
      then d.div (number 1) s.organism_distance_3
      else number 1

  -- The sum at the end.
  abbrev pub distance : Settings d.Double → ℕ → ℕ → Differences d.Double → d.Double
  distance s limit_sup excess found =
      d.add
        (d.add (d.div (d.mul s.organism_distance_1 (number excess)) (divisor limit_sup))
          (d.div (d.mul s.organism_distance_2 (number found.disjoint)) (divisor limit_sup)))
        (d.mul (d.mul s.organism_distance_3 found.weights) (small_gnomes_adjust s limit_sup))

  unfoldable pub compatibility :
      Settings d.Double → Encoding d.Double → Encoding d.Double → d.Double
  compatibility s orgm1 orgm2 =
      let genes1 = orgm1.lconnection_genes in
      let genes2 = orgm2.lconnection_genes in
      if ltb (length genes2) (length genes1)
      then distance s (length genes1) (count_used (drop (length genes2) genes1))
          (compare_all genes1 genes2 no_differences)
      else distance s (length genes2) (count_used (drop (length genes1) genes2))
          (compare_all genes1 genes2 no_differences)
