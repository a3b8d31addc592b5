-- ===== src/Neat/Compatibility/Symmetric.antt =====
-- That the distance of two genomes (proyecto/NEAT/src/NEAT.cpp) is the same either way.
use tareas_elo.Common.{
  ℕ, zero, suc, ◌≤◌, ◌≡◌, refl, ◌∙◌, ap, List, [], ◌∷◌, length, drop, arith, inl, inr, Bool-cases,
  ltb_of_le, ltb_of_lt, dec_lt,
}
use tareas_elo.Common.Doubles.{Doubles}
use tareas_elo.Neat.Genome.{ConnectionGene, Encoding}
use tareas_elo.Neat.Population.{Settings}
use tareas_elo.Neat.Compatibility.{
  Differences, used, compare_genes, compare_all, no_differences, distance, compatibility,
}

drop-all : {A : Type 0} (xs : List A) (n : ℕ) → length xs ≤ n → drop n xs ≡ []
drop-all [] zero h = refl
drop-all [] (suc n) h = refl
drop-all (x ∷ xs) zero h = elim h [ ]
drop-all (x ∷ xs) (suc n) h = drop-all xs n (omega arith)

module _ (d : Doubles) (exp fabs : d.Double → d.Double)
    (fabs_sub : (a b : d.Double) → fabs (d.sub a b) ≡ fabs (d.sub b a)) where
  compare_genes_comm :
      (a b : ConnectionGene d.Double) (found : Differences d.Double)
      → compare_genes d exp fabs a b found ≡ compare_genes d exp fabs b a found
  compare_genes_comm a b found = elim (Bool-cases (used a)) [
    | inl a_used ↦ elim (Bool-cases (used b)) [
      | inl b_used ↦ rw (a_used, b_used, fabs_sub a.weight b.weight) refl
      | inr b_unused ↦ rw (a_used, b_unused) refl
    ]
    | inr a_unused ↦ elim (Bool-cases (used b)) [
      | inl b_used ↦ rw (a_unused, b_used) refl
      | inr b_unused ↦ rw (a_unused, b_unused) refl
    ]
  ]

  compare_all_comm :
      (xs ys : List (ConnectionGene d.Double)) (found : Differences d.Double)
      → compare_all d exp fabs xs ys found ≡ compare_all d exp fabs ys xs found
  unfolding compare_all
  compare_all_comm [] [] found = refl
  compare_all_comm [] (y ∷ ys) found = refl
  compare_all_comm (x ∷ xs) [] found = refl
  compare_all_comm (x ∷ xs) (y ∷ ys) found =
      compare_all_comm xs ys (compare_genes d exp fabs x y found)
      ∙ ap (compare_all d exp fabs ys xs) (compare_genes_comm x y found)

  -- Where the absolute value of a difference does not depend on its order, the distance of two
  -- genomes is the same from either of them, whatever their sizes.
  pub compatibility_comm :
      (s : Settings d.Double) (orgm1 orgm2 : Encoding d.Double)
      → compatibility d exp fabs s orgm1 orgm2 ≡ compatibility d exp fabs s orgm2 orgm1
  unfolding compatibility
  compatibility_comm s orgm1 orgm2 = elim (dec_lt (length genes2) (length genes1)) [
    | yes longer ↦
        rw
          (
            ltb_of_lt _ _ longer,
            ltb_of_le (length genes1) (length genes2) (omega arith),
            compare_all_comm genes1 genes2 (no_differences d exp fabs),
          )
          refl
    | no not_longer ↦ elim (dec_lt (length genes1) (length genes2)) [
      | yes shorter ↦
          rw
            (
              ltb_of_lt _ _ shorter,
              ltb_of_le (length genes2) (length genes1) (omega arith),
              compare_all_comm genes1 genes2 (no_differences d exp fabs),
            )
            refl
      | no same ↦
          rw
            (
              ltb_of_le (length genes2) (length genes1) (omega arith),
              ltb_of_le (length genes1) (length genes2) (omega arith),
              drop-all genes1 (length genes2) (omega arith),
              drop-all genes2 (length genes1) (omega arith),
              compare_all_comm genes1 genes2 (no_differences d exp fabs),
            )
            (ap
              (λ n.
                distance d exp fabs s n 0
                  (compare_all d exp fabs genes2 genes1 (no_differences d exp fabs)))
              {y = length genes1} (omega arith))
    ]
  ]
    where
      genes1 : List (ConnectionGene d.Double)
      genes1 = orgm1.lconnection_genes

      genes2 : List (ConnectionGene d.Double)
      genes2 = orgm2.lconnection_genes
