-- ===== src/Neat/Mutation/Kept.antt =====
-- That the mutations of proyecto/NEAT/src/NEAT.cpp keep genomes well-formed.
use tareas_elo.Common.{
  ℕ, ◌+◌, ◌≡◌, refl, sym, ◌∙◌, some, List, [], ◌∷◌, true, false, ◌&&◌, ◌==◌, get_elem?,
}
use tareas_elo.Common.Int.{pos}
use tareas_elo.Common.Doubles.{Doubles}
use tareas_elo.Neat.Genome.{ConnectionGene, NodeGene, Encoding, index}
use tareas_elo.Neat.Genome.Nodes.{WellFormed}
use tareas_elo.Neat.Population.{Organism, get, rand, rand_share}
use tareas_elo.Neat.Population.Rules.{
  Any, Keeps, Keeps-bind, Keeps-pure, Keeps-lift, Keeps-then, Keeps-lifted, Keeps-if, Keeps-get,
  Keeps-Pointwise, Pointwise, Pointwise-at,
}
use tareas_elo.Neat.Mutation.{
  Sack, random_weight, moved_weight, put_random_weight, put_randoms_weight, change_weight,
  mutation_change_weight, put_in, take_from, can_split, splittable, can_connect, connectable,
}
use tareas_elo.Neat.Mutation.Sane.{
  Sane, rand-Sane, obtain_innovation-Sane, obtain_historical_node-Sane,
}

-- Other connections that stand at their innovations.
pub connections-WellFormed :
    {D : Type 0} (e : Encoding D) (genes : List (ConnectionGene D))
    → WellFormed e
    → ((i : ℕ) (c : ConnectionGene D)
        → get_elem? genes i ≡ some c
        → c.exist ≡ true
        → c.innovation ≡ pos i)
    → WellFormed (record e { lconnection_genes = genes })
connections-WellFormed e genes ok numbered = record {
  numbers = ok.numbers;
  placed = ok.placed;
  rows = ok.rows;
  outputs = ok.outputs;
  innovations = numbered;
}

-- Another weight.
abbrev SameButWeight : {D : Type 0} → ConnectionGene D → ConnectionGene D → Type 0
SameButWeight c c' = (c'.exist ≡ c.exist) × (c'.innovation ≡ c.innovation)

weights-WellFormed :
    {D : Type 0} (e : Encoding D) (genes : List (ConnectionGene D))
    → WellFormed e
    → Pointwise SameButWeight e.lconnection_genes genes
    → WellFormed (record e { lconnection_genes = genes })
weights-WellFormed e genes ok same = connections-WellFormed e genes ok (λ i c at present.
    let (c0, at0, (exists, number)) =
      Pointwise-at SameButWeight e.lconnection_genes genes i c same at in
    number ∙ ok.innovations i c0 at0 (sym exists ∙ present))

module _ (d : Doubles) where
  abbrev pub GoodOrganism : Organism d.Double → Type 0
  GoodOrganism o = WellFormed o.genome

  pub put_randoms_weight-WellFormed :
      (o : Organism d.Double)
      → WellFormed o.genome
      → Keeps Sane GoodOrganism (put_randoms_weight d o)
  unfolding put_randoms_weight put_random_weight
  put_randoms_weight-WellFormed o ok =
      Keeps-bind Sane (Pointwise SameButWeight o.genome.lconnection_genes) GoodOrganism _ _
        (Keeps-Pointwise Sane SameButWeight _
          (λ c. Keeps-then Sane (SameButWeight c) rand _ rand-Sane (λ r.
            Keeps-pure Sane (SameButWeight c) (record c { weight = random_weight d r })
              (refl, refl)))
          o.genome.lconnection_genes)
        (λ genes same. Keeps-pure Sane GoodOrganism _ (weights-WellFormed o.genome genes ok same))

  pub mutation_change_weight-WellFormed :
      (o : Organism d.Double)
      → WellFormed o.genome
      → Keeps Sane GoodOrganism (mutation_change_weight d o)
  unfolding mutation_change_weight change_weight
  mutation_change_weight-WellFormed o ok =
      Keeps-bind Sane (Pointwise SameButWeight o.genome.lconnection_genes) GoodOrganism _ _
        (Keeps-Pointwise Sane SameButWeight _ one o.genome.lconnection_genes)
        (λ genes same. Keeps-pure Sane GoodOrganism _ (weights-WellFormed o.genome genes ok same))
    where
      one : (c : ConnectionGene d.Double) → Keeps Sane (SameButWeight c) (change_weight d c)
      one c = Keeps-bind Sane Sane (SameButWeight c) get _ (Keeps-get Sane) (λ p _.
          Keeps-then Sane (SameButWeight c) rand _ rand-Sane (λ r.
            Keeps-if Sane (SameButWeight c)
              (d.le (rand_share d r) p.settings.probability_change_weight) _ _
              (λ _. Keeps-then Sane (SameButWeight c) rand _ rand-Sane (λ r'.
                Keeps-pure Sane (SameButWeight c) (record c { weight = moved_weight d r' c.weight })
                  (refl, refl)))
              (λ _. Keeps-pure Sane (SameButWeight c) c (refl, refl))))

  pub take_from-Sane :
      {A : Type 0} (sack : Sack d.Double A) → Keeps (Sane {D = d.Double}) Any (take_from d sack)
  unfolding take_from
  take_from-Sane sack = Keeps-then Sane Any rand _ rand-Sane (λ r.
      Keeps-lifted Sane Any _ _
        (λ taken _. Keeps-lift Sane Any (get_elem? sack.inverse taken.0) (λ a e. tt)))

  pub splittable-Sane :
      (nodes : List (NodeGene d.Double)) (i : ℕ) (cs : List (ConnectionGene d.Double))
      (sack : Sack d.Double ℕ)
      → Keeps (Sane {D = d.Double}) Any (splittable d nodes i cs sack)
  unfolding splittable can_split
  splittable-Sane nodes i [] sack = Keeps-pure Sane Any sack tt
  splittable-Sane nodes i (c ∷ cs) sack =
      Keeps-then Sane Any (can_split d nodes c) _
        (Keeps-if Sane Any (c.exist && c.enable) _ _
          (λ _.
            Keeps-then Sane Any _ _ (obtain_historical_node-Sane c.in_node c.out_node)
              (λ node. Keeps-lifted Sane Any (index node) _ (λ n _. Keeps-pure Sane Any _ tt)))
          (λ _. Keeps-pure Sane Any false tt))
        (λ yes_it. splittable-Sane nodes (i + 1) cs (put_in d sack i yes_it))

  pub connectable-Sane :
      (e : Encoding d.Double) (pairs : List (ℕ × ℕ)) (sack : Sack d.Double (ℕ × ℕ))
      → Keeps (Sane {D = d.Double}) Any (connectable d e pairs sack)
  unfolding connectable can_connect
  connectable-Sane e [] sack = Keeps-pure Sane Any sack tt
  connectable-Sane e ((a, b) ∷ pairs) sack =
      Keeps-then Sane Any (can_connect d e (a, b)) _
        (Keeps-if Sane Any (a == b) _ _ (λ _. Keeps-pure Sane Any false tt)
          (λ _. Keeps-lifted Sane Any (get_elem? e.lnode_genes a) _ (λ g _.
            Keeps-lifted Sane Any (get_elem? e.lnode_genes b) _ (λ h _.
              Keeps-if Sane Any (g.exist && h.exist) _ _
                (λ _.
                  Keeps-then Sane Any _ _ (obtain_innovation-Sane (pos a) (pos b))
                    (λ z. Keeps-lifted Sane Any (index z) _ (λ n _. Keeps-pure Sane Any _ tt)))
                (λ _. Keeps-pure Sane Any false tt)))))
        (λ yes_it. connectable-Sane e pairs (put_in d sack (a, b) yes_it))
