-- ===== src/Neat/History/Kept.antt =====
-- What the numbers of nodes and innovations say, over the run of proyecto/NEAT/src/NEAT.cpp.
use tareas_elo.Common.{
  ℕ, ◌+◌, ◌≡◌, refl, some, Bool, true, false, if◌then◌else◌, ap, sym, subst, ◌∙◌, arith,
}
use tareas_elo.Common.Int.{ℤ, pos, ◌+ℤ◌}
use tareas_elo.Neat.Table.{Obtained, number_at}
use tareas_elo.Neat.Table.Numbering.{Numbered, ObtainsNumber, obtain-number, obtain-Numbered}
use tareas_elo.Neat.Population.{Population, ◌>>=◌, pure, lift, get, modify}
use tareas_elo.Neat.Population.Rules.{Returns}
use tareas_elo.Neat.History.{obtain_historical_node, obtain_innovation}

-- The next innovation and the next node are above all numbers given, and no two pairs have one.
pub record Historic {D : Type 0} (p : Population D) : Type 0 where
  pub next_innovation : ℕ
  pub next_node : ℕ
  pub innovation : p.last_innovation ≡ pos next_innovation
  pub node : p.last_node +ℤ pos 1 ≡ pos next_node
  pub innovations : Numbered p.historical_innovation next_innovation
  pub nodes : Numbered p.historical_nodes next_node

next : (b : Bool) (n : ℕ) → (if b then pos n +ℤ pos 1 else pos n) ≡ pos (if b then n + 1 else n)
unfolding ◌+ℤ◌
next true n = ground arith
next false n = refl

next_of_last :
    (b : Bool) (z : ℤ) (n : ℕ)
    → z +ℤ pos 1 ≡ pos n
    → (if b then z +ℤ pos 1 else z) +ℤ pos 1 ≡ pos (if b then n + 1 else n)
unfolding ◌+ℤ◌
next_of_last true z n e = rw e (ground arith)
next_of_last false z n e = e

module _ {D : Type 0} (p : Population D) (r : Obtained) where
  -- The population once `obtain_innovation`, or `obtain_historical_node`, has its number.
  abbrev pub with_innovation : Population D
  with_innovation = record p {
    historical_innovation = r.rows;
    last_innovation = if r.is_new then p.last_innovation +ℤ pos 1 else p.last_innovation;
  }

  abbrev pub with_node : Population D
  with_node = record p {
    historical_nodes = r.rows;
    last_node = if r.is_new then p.last_node +ℤ pos 1 else p.last_node;
  }

  module _ (ok : Historic p) (a b n : ℕ) where
    pub with_innovation-Historic :
        ObtainsNumber ok.next_innovation a b p.historical_innovation r n → Historic with_innovation
    with_innovation-Historic found = record {
      next_innovation = if r.is_new then ok.next_innovation + 1 else ok.next_innovation;
      next_node = ok.next_node;
      innovation = rw ok.innovation (next r.is_new ok.next_innovation);
      node = ok.node;
      innovations =
          (obtain-Numbered ok.next_innovation a b n p.historical_innovation r ok.innovations
            found).1;
      nodes = ok.nodes;
    }

    pub with_node-Historic :
        ObtainsNumber ok.next_node a b p.historical_nodes r n → Historic with_node
    with_node-Historic found = record {
      next_innovation = ok.next_innovation;
      next_node = if r.is_new then ok.next_node + 1 else ok.next_node;
      innovation = ok.innovation;
      node = next_of_last r.is_new p.last_node ok.next_node ok.node;
      innovations = ok.innovations;
      nodes = (obtain-Numbered ok.next_node a b n p.historical_nodes r ok.nodes found).1;
    }

-- For two nodes, `obtain_innovation` returns the one number of their connection: the number is not
-- that of another pair, before or after, and later calls return it again.
pub obtain_innovation-numbers :
    {D : Type 0} (p : Population D) (a b : ℕ)
    → Historic p
    → Returns (obtain_innovation (pos a) (pos b)) p (λ z q.
      (n : ℕ) × (z ≡ pos n)
      × (number_at q.historical_innovation a b ≡ some n)
      × Historic q
      × ((x y m : ℕ)
          → number_at p.historical_innovation x y ≡ some m
          → number_at q.historical_innovation x y ≡ some m))
unfolding obtain_innovation ◌>>=◌ get lift modify pure
obtain_innovation-numbers p a b ok =
    let (r, n, e, found) = obtain-number ok.next_innovation a b p.historical_innovation in
    let (has, numbered, kept) =
      obtain-Numbered ok.next_innovation a b n p.historical_innovation r ok.innovations found in
    (
      r.number,
      with_innovation p r,
      rw (ok.innovation, e) refl,
      (n, found.0, has, with_innovation-Historic p r ok a b n found, kept),
    )

-- For two nodes, `obtain_historical_node` returns the one node that splits their connection: no
-- other pair has it, and later calls return it again.
pub obtain_historical_node-numbers :
    {D : Type 0} (p : Population D) (a b : ℕ)
    → Historic p
    → Returns (obtain_historical_node (pos a) (pos b)) p (λ z q.
      (n : ℕ) × (z ≡ pos n)
      × (number_at q.historical_nodes a b ≡ some n)
      × Historic q
      × ((x y m : ℕ)
          → number_at p.historical_nodes x y ≡ some m
          → number_at q.historical_nodes x y ≡ some m))
unfolding obtain_historical_node ◌>>=◌ get lift modify pure
obtain_historical_node-numbers p a b ok =
    let (r, n, e, found) = obtain-number ok.next_node a b p.historical_nodes in
    let (has, numbered, kept) =
      obtain-Numbered ok.next_node a b n p.historical_nodes r ok.nodes found in
    (
      r.number,
      with_node p r,
      rw (ok.node, e) refl,
      (n, found.0, has, with_node-Historic p r ok a b n found, kept),
    )

-- The rest of the population does not matter.
pub Historic-same :
    {D : Type 0} (p q : Population D)
    → q.last_innovation ≡ p.last_innovation
    → q.last_node ≡ p.last_node
    → q.historical_innovation ≡ p.historical_innovation
    → q.historical_nodes ≡ p.historical_nodes
    → Historic p
    → Historic q
Historic-same p q last_i last_n innovations nodes ok = record {
  next_innovation = ok.next_innovation;
  next_node = ok.next_node;
  innovation = last_i ∙ ok.innovation;
  node = ap (λ z. z +ℤ pos 1) last_n ∙ ok.node;
  innovations = subst (λ t. Numbered t ok.next_innovation) (sym innovations) ok.innovations;
  nodes = subst (λ t. Numbered t ok.next_node) (sym nodes) ok.nodes;
}
