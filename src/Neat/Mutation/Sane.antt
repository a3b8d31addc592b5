-- ===== src/Neat/Mutation/Sane.antt =====
-- What the population of proyecto/NEAT/src/NEAT.cpp keeps from step to step, and that its history
-- does.
use tareas_elo.Neat.Population.{Niche, Population, Organism, ◌>>=◌, pure, lift, get, modify, rand}
use tareas_elo.Neat.History.Kept.{
  Historic-same, with_innovation, with_innovation-Historic, with_node, with_node-Historic, Historic,
}
use tareas_elo.Neat.Table.{add_cells, Obtained, obtain}
use tareas_elo.Neat.History.{
  insert_at, obtain_historical_node, obtain_innovation, obtain_row, new_row, choose_row, insert_row,
  remember_row, known_row, or_else,
}
use tareas_elo.Common.{
  ◌⊎◌, set, ◌-◌, ℕ, ◌+◌, ◌≡◌, refl, ap, subst, Option, none, some, List, ◌==◌, inl, inr,
}
use tareas_elo.Neat.Table.Numbering.{obtain-number, obtain-negative}
use mathlib.Core.Option.{some-injective}
use tareas_elo.Common.Int.{ℤ, pos, negsuc, ◌+ℤ◌}
use tareas_elo.Neat.Genome.Nodes.{WellFormed}
use tareas_elo.Neat.Population.Rules.{
  All, Any, Keeps, Keeps-bind, Keeps-pure, Keeps-then, Keeps-lifted, Keeps-if, Keeps-get,
  Keeps-modify, Keeps-rand,
}

-- The history numbers pairs apart, and all genomes are well-formed.
pub record Sane {D : Type 0} (p : Population D) : Type 0 where
  pub historic : Historic p
  pub organisms : All (λ (o : Organism D). WellFormed o.genome) p.organisms
  pub prev_organisms : All (λ (o : Organism D). WellFormed o.genome) p.prev_organisms
  pub champion : WellFormed p.champion.genome

module _ {D : Type 0} where
  -- Nothing of it depends on the draws, or on the rows.
  abbrev pub with_draws : Population D → (ℕ → ℕ) → Population D
  with_draws p draws = record p { draws = draws }

  pub draws-Sane : (p : Population D) (draws : ℕ → ℕ) → Sane p → Sane (with_draws p draws)
  draws-Sane p draws ok = record {
    historic = Historic-same p _ refl refl refl refl ok.historic;
    organisms = ok.organisms;
    prev_organisms = ok.prev_organisms;
    champion = ok.champion;
  }

  -- Other organisms, if they are well-formed.
  pub organisms-Sane :
      (p : Population D) (os prev : List (Organism D)) (champion : Organism D) (fitness : D)
      (niches prev_niches : List Niche)
      → Historic p
      → All (λ (o : Organism D). WellFormed o.genome) os
      → All (λ (o : Organism D). WellFormed o.genome) prev
      → WellFormed champion.genome
      → Sane (record p {
        organisms = os;
        prev_organisms = prev;
        champion = champion;
        fitness_champion = fitness;
        current_niches = niches;
        prev_niches = prev_niches;
      })
  organisms-Sane p os prev champion fitness niches prev_niches historic ok_os ok_prev ok_champion =
      record {
        historic = Historic-same p _ refl refl refl refl historic;
        organisms = ok_os;
        prev_organisms = ok_prev;
        champion = ok_champion;
      }

  pub rand-Sane : Keeps (Sane {D = D}) Any rand
  rand-Sane = Keeps-rand Sane draws-Sane

  innovation_run :
      (p : Population D) (a b : ℤ)
      → Sane p
      → (obtain p.last_innovation a b p.historical_innovation ≡ none)
        ⊎ ((r : Obtained) × (obtain p.last_innovation a b p.historical_innovation ≡ some r)
            × Historic (with_innovation p r))
  innovation_run p (negsuc m) b ok =
      inl (obtain-negative p.last_innovation (negsuc m) b p.historical_innovation m (inl refl))
  innovation_run p (pos m) (negsuc n) ok =
      inl
        (obtain-negative p.last_innovation (pos m) (negsuc n) p.historical_innovation n (inr refl))
  innovation_run p (pos m) (pos n) ok =
      let next = ok.historic.next_innovation in
      let (r, k, e, found) = obtain-number next m n p.historical_innovation in
      inr (r, rw ok.historic.innovation e, with_innovation-Historic p r ok.historic m n k found)

  node_run :
      (p : Population D) (a b : ℤ)
      → Sane p
      → (obtain (p.last_node +ℤ pos 1) a b p.historical_nodes ≡ none)
        ⊎ ((r : Obtained) × (obtain (p.last_node +ℤ pos 1) a b p.historical_nodes ≡ some r)
            × Historic (with_node p r))
  node_run p (negsuc m) b ok =
      inl (obtain-negative (p.last_node +ℤ pos 1) (negsuc m) b p.historical_nodes m (inl refl))
  node_run p (pos m) (negsuc n) ok =
      inl
        (obtain-negative (p.last_node +ℤ pos 1) (pos m) (negsuc n) p.historical_nodes n (inr refl))
  node_run p (pos m) (pos n) ok =
      let next = ok.historic.next_node in
      let (r, k, e, found) = obtain-number next m n p.historical_nodes in
      inr (r, rw ok.historic.node e, with_node-Historic p r ok.historic m n k found)

  pub obtain_innovation-Sane : (a b : ℤ) → Keeps (Sane {D = D}) Any (obtain_innovation a b)
  unfolding obtain_innovation ◌>>=◌ get lift modify pure
  obtain_innovation-Sane a b p z p' ok run = elim (innovation_run p a b ok) [
    | inl ends ↦ absurd (cc (rw ends at run))
    | inr (r, e, historic) ↦ (
      subst Sane
          (ap (λ x. x.1) (some-injective (r.number, with_innovation p r) (z, p') (rw e at run)))
          (record {
            historic = historic;
            organisms = ok.organisms;
            prev_organisms = ok.prev_organisms;
            champion = ok.champion;
          }),
      tt,
    )
  ]

  pub obtain_historical_node-Sane :
      (a b : ℤ) → Keeps (Sane {D = D}) Any (obtain_historical_node a b)
  unfolding obtain_historical_node ◌>>=◌ get lift modify pure
  obtain_historical_node-Sane a b p z p' ok run = elim (node_run p a b ok) [
    | inl ends ↦ absurd (cc (rw ends at run))
    | inr (r, e, historic) ↦ (
      subst Sane (ap (λ x. x.1) (some-injective (r.number, with_node p r) (z, p') (rw e at run)))
          (record {
            historic = historic;
            organisms = ok.organisms;
            prev_organisms = ok.prev_organisms;
            champion = ok.champion;
          }),
      tt,
    )
  ]

  -- The rows are no part of it.
  abbrev with_rows : Population D → ℤ → List ℤ → List ℤ → Population D
  with_rows p last historical order = record p {
    last_row = last;
    historical_row = historical;
    row_orderer_list = order;
  }

  rows-Sane :
      (p : Population D) (last : ℤ) (historical order : List ℤ)
      → Sane p
      → Sane (with_rows p last historical order)
  rows-Sane p last historical order ok = record {
    historic = Historic-same p _ refl refl refl refl ok.historic;
    organisms = ok.organisms;
    prev_organisms = ok.prev_organisms;
    champion = ok.champion;
  }

  Any-pure : {A : Type 0} (a : A) → Keeps (Sane {D = D}) Any (pure a)
  Any-pure a = Keeps-pure Sane Any a tt

  remember_row-Sane : (node : ℕ) (row : ℤ) → Keeps (Sane {D = D}) Any (remember_row node row)
  unfolding remember_row
  remember_row-Sane node row =
      Keeps-then Sane Any _ _
        (Keeps-modify Sane _
          (λ p. rows-Sane p p.last_row (set p.historical_row node row) p.row_orderer_list))
        (λ _. Any-pure row)

  insert_row-Sane : (node i : ℕ) → Keeps (Sane {D = D}) Any (insert_row node i)
  unfolding insert_row
  insert_row-Sane node i = Keeps-bind Sane Sane Any get _ (Keeps-get Sane) (λ p ok.
      Keeps-then Sane Any _ _
        (Keeps-modify Sane _ (λ q.
          rows-Sane q (p.last_row +ℤ pos 1) q.historical_row
            (insert_at i p.last_row q.row_orderer_list)))
        (λ _. remember_row-Sane node p.last_row))

  choose_row-Sane :
      (node : ℕ) (row : ℤ) (i o : ℕ) → Keeps (Sane {D = D}) Any (choose_row node row i o)
  unfolding choose_row
  choose_row-Sane node row i o =
      Keeps-if Sane Any (i == o) _ _ (λ _. Any-pure row)
        (λ _.
          Keeps-if Sane Any (o == i + 1) _ _ (λ _. insert_row-Sane node (i + 1))
            (λ _.
              Keeps-if Sane Any (i == o + 1) _ _ (λ _. insert_row-Sane node (i - 1))
                (λ _.
                  Keeps-bind Sane Sane Any get _ (Keeps-get Sane)
                    (λ p _. Keeps-lifted Sane Any _ _ (λ z _. remember_row-Sane node z)))))

  new_row-Sane : (node : ℕ) (a b : ℤ) → Keeps (Sane {D = D}) Any (new_row node a b)
  unfolding new_row
  new_row-Sane node a b = Keeps-bind Sane Sane Any get _ (Keeps-get Sane) (λ p _.
      Keeps-lifted Sane Any _ _ (λ i _. Keeps-lifted Sane Any _ _ (λ o _.
        Keeps-then Sane Any _ _
          (Keeps-modify Sane _
            (λ q. rows-Sane q q.last_row (add_cells node q.historical_row) q.row_orderer_list))
          (λ _. choose_row-Sane node a i o))))

  pub obtain_row-Sane : (node a b : ℤ) → Keeps (Sane {D = D}) Any (obtain_row node a b)
  unfolding obtain_row
  obtain_row-Sane node a b =
      Keeps-bind Sane Sane Any get _ (Keeps-get Sane)
        (λ p _. Keeps-lifted Sane Any _ _ (λ n _. known (known_row p.historical_row n) n))
    where
      known : (o : Option ℤ) (n : ℕ) → Keeps (Sane {D = D}) Any (or_else o (new_row n a b))
      known none n = new_row-Sane n a b
      known (some row) n = Any-pure row
