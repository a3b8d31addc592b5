-- ===== src/Neat/Genome/Renewed.antt =====
-- Genomes with other functions and other pasts in their nodes (proyecto/NEAT/src/NEAT.cpp).
use tareas_elo.Common.{
  ℕ, zero, suc, ◌≡◌, refl, sym, ◌∙◌, ap, ap₂, List, [], ◌∷◌, Bool, ◌&&◌, if◌then◌else◌, map,
}
use tareas_elo.Common.Int.{pos, eqb_ℤ}
use tareas_elo.Common.Doubles.{Doubles}
use tareas_elo.Neat.Slots.{tally}
use tareas_elo.Neat.Genome.{NodeGene, Encoding, is_output, reset_past_values}
use tareas_elo.Neat.Genome.Nodes.{WellFormed}
use tareas_elo.Neat.Population.Rules.{Pointwise, Pointwise-at}

-- Another function, or another past.
abbrev pub SamePlace : {D : Type 0} → NodeGene D → NodeGene D → Type 0
SamePlace g g' = (g'.exist ≡ g.exist) × (g'.node ≡ g.node) × (g'.row ≡ g.row) × (g'.type ≡ g.type)

tally-SamePlace :
    {D : Type 0} (f : NodeGene D → Bool) (genes genes' : List (NodeGene D)) (n : ℕ)
    → ((g g' : NodeGene D) → SamePlace g g' → f g' ≡ f g)
    → Pointwise SamePlace genes genes'
    → tally (λ g. g.exist) f genes' n ≡ tally (λ g. g.exist) f genes n
tally-SamePlace f [] [] n same all = refl
tally-SamePlace f [] (g' ∷ genes') n same all = elim all [ ]
tally-SamePlace f (g ∷ genes) [] n same all = elim all [ ]
tally-SamePlace f (g ∷ genes) (g' ∷ genes') zero same all =
    ap₂ (λ (a b : Bool). if a && b then 1 else 0) (all.0.0) (same g g' all.0)
tally-SamePlace f (g ∷ genes) (g' ∷ genes') (suc n) same all =
    tally-SamePlace f genes genes' n same all.1

pub nodes-WellFormed :
    {D : Type 0} (e : Encoding D) (genes : List (NodeGene D))
    → WellFormed e
    → Pointwise SamePlace e.lnode_genes genes
    → WellFormed (record e { lnode_genes = genes })
nodes-WellFormed e genes ok same = record {
  numbers = λ i g at present.
      let (g0, at0, (exists, node, row, type)) =
        Pointwise-at SamePlace e.lnode_genes genes i g same at in
      node ∙ ok.numbers i g0 at0 (sym exists ∙ present);
  placed = λ i g at present.
      let (g0, at0, (exists, node, row, type)) =
        Pointwise-at SamePlace e.lnode_genes genes i g same at in
      let (k, at_k) = ok.placed i g0 at0 (sym exists ∙ present) in (k, row ∙ at_k);
  rows = λ r n.
      ok.rows r n
      ∙ sym (
          tally-SamePlace (λ g. eqb_ℤ g.row (pos r)) e.lnode_genes genes n
            (λ g g' place. ap (λ z. eqb_ℤ z (pos r)) place.2) same);
  outputs = λ n.
      ok.outputs n
      ∙ sym (
          tally-SamePlace (λ g. is_output g.type) e.lnode_genes genes n
            (λ g g' place. ap is_output place.3) same);
  innovations = ok.innovations;
}

map-Pointwise :
    {A : Type 0} (R : A → A → Type 0) (f : A → A) (xs : List A)
    → ((a : A) → R a (f a))
    → Pointwise R xs (map f xs)
map-Pointwise R f [] h = tt
map-Pointwise R f (x ∷ xs) h = (h x, map-Pointwise R f xs h)

-- `reset_past_values` keeps a genome well-formed.
pub reset-WellFormed :
    (d : Doubles) (e : Encoding d.Double) → WellFormed e → WellFormed (reset_past_values d e)
unfolding reset_past_values
reset-WellFormed d e ok =
    nodes-WellFormed e _ ok
      (map-Pointwise SamePlace _ e.lnode_genes (λ g. (refl, refl, refl, refl)))
