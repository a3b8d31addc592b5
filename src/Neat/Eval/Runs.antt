-- ===== src/Neat/Eval/Runs.antt =====
-- `eval` of proyecto/NEAT/src/genetic_encoding.cpp as a whole: on a sound genome it returns.
use tareas_elo.Neat.Eval.Inputs.{collect-Lists, no_inputs}
use tareas_elo.Common.Int.{ltb_ℤ, ℤ, pos}
use tareas_elo.Neat.Eval.Total.{
  All-map, All, All-append, All-drop, Placed, Sound, Keeps, Done, Done-trans, update_at-Done,
  Lists-Keeps, Row, eval_rows-Done, All-Placed,
}
use tareas_elo.Neat.Eval.{
  used_row, adapted, Genes, update_at, with_value, load_inputs, read_outputs, eval, position_of,
  sum_inputs, gene_at,
}
use tareas_elo.Common.{
  ℕ, zero, suc, ◌+◌, ◌<◌, ◌≡◌, refl, ap, subst, some, List, [], ◌∷◌, ◌++◌, length, get_elem?,
  replicate, drop, ltb, arith, inl, inr, Bool-cases, dec_lt, get_elem?-inside, ◌∙◌, true, ◌≤◌, leb,
}
use mathlib.Core.Option.{some-injective}
use tareas_elo.Common.Doubles.{Doubles}
use tareas_elo.Neat.Functions.{Function}
use tareas_elo.Neat.Genome.{NodeGene, ConnectionGene, Encoding, index}

All-at {ℓ κ} :
    {A : Type ℓ} (P : A → Type κ) (xs : List A) (i : ℕ) (x : A)
    → All P xs
    → get_elem? xs i ≡ some x
    → P x
All-at P [] i x h e = absurd cc
All-at P (y ∷ ys) zero x h e = subst P (some-injective y x e) h.0
All-at P (y ∷ ys) (suc i) x h e = All-at P ys i x h.1 e

module _ (d : Doubles) (apply : Function → d.Double → d.Double) (e : Encoding d.Double)
    (ok : Sound e) where
  used_row-Row :
      (r : ℤ) (k : ℕ)
      → r ≡ pos k
      → (here : List ℤ) × (used_row e.nodes_at_row r ≡ some here)
        × All (Row d apply e e.lnode_genes) here
  unfolding used_row
  used_row-Row r k at_r = elim (dec_lt k (length e.nodes_at_row)) [
    | no absent ↦ ([], rw at_r (ground arith), tt)
    | yes present ↦
        let (zs, at) = get_elem?-inside e.nodes_at_row k present in
        elim (Bool-cases (ltb 0 (length zs))) [
          | inl some_nodes ↦ (
            r ∷ [],
            rw (at_r, test present) (rw (at, some_nodes)),
            (
              (
                k,
                zs,
                at_r,
                at,
                All-at (All (Placed e e.lnode_genes)) e.nodes_at_row k zs ok.rows at,
              ),
              tt,
            ),
          )
          | inr no_nodes ↦ ([], rw (at_r, test present) (rw (at, no_nodes)), tt)
        ]
  ]
    where
      test : k < length e.nodes_at_row → ltb_ℤ (pos k) (pos (length e.nodes_at_row)) ≡ true
      test present = ground arith

  adapted-Row :
      (rs : List ℤ)
      → All (λ r. (k : ℕ) × (r ≡ pos k)) rs
      → (order : List ℤ) × (adapted e.nodes_at_row rs ≡ some order)
        × All (Row d apply e e.lnode_genes) order
  unfolding adapted
  adapted-Row [] h = ([], refl, tt)
  adapted-Row (r ∷ rs) ((k, at_r), h) =
      let (here, run, rows) = used_row-Row r k at_r in
      let (more, run', rows') = adapted-Row rs h in
      (here ++ more, rw (run, run'), All-append (Row d apply e e.lnode_genes) here more rows rows')

  load_inputs-Done :
      (xs : List d.Double) (i : ℕ) (genes : Genes d apply)
      → ((k : ℕ) → k < i + length xs → Placed e genes (pos k))
      → Done d apply e genes (load_inputs d apply xs i genes)
  unfolding load_inputs
  load_inputs-Done [] i genes there = (genes, refl, (refl, λ z p. p))
  load_inputs-Done (x ∷ xs) i genes there =
      Done-trans d apply e genes (update_at d apply (with_value d apply x) genes (pos i))
        (load_inputs d apply xs (i + 1))
        (update_at-Done d apply e (with_value d apply x) genes (pos i) (λ g. refl)
          (there i (omega arith)))
        (λ next keeps.
          load_inputs-Done xs (i + 1) next (λ k lt. keeps.1 (pos k) (there k (omega arith))))

  read_outputs-some :
      (zs : List ℤ) (genes : Genes d apply)
      → All (Placed e genes) zs
      → (vs : List d.Double) × (read_outputs d apply zs genes ≡ some vs) × (length vs ≡ length zs)
  unfolding read_outputs
  read_outputs-some [] genes h = ([], refl, refl)
  read_outputs-some (z ∷ zs) genes ((n, g, r, at_z, at, at_row, lt), h) =
      let (vs, run, size) = read_outputs-some zs genes h in
      (g.node_output_value ∷ vs, rw (ap index at_z, at, run), ap suc size)

  -- On a sound genome, and at most as many inputs as nodes that are there from number 0 on, `eval`
  -- returns: no `at` is out of range. It gives one value for each output node.
  pub eval-returns :
      (inputs : List d.Double)
      → ((k : ℕ) → k < length inputs → Placed e e.lnode_genes (pos k))
      → (outputs : List d.Double) × (genes : Genes d apply) × (eval d apply e inputs
          ≡ some (outputs, genes))
        × (length outputs ≡ length e.outputs_positions)
  unfolding eval
  eval-returns inputs there =
      let (lists, collected, ls) =
        collect-Lists d apply e ok e.lconnection_genes 0 (replicate (length e.lnode_genes) [])
          (λ k. ap (get_elem? e.lconnection_genes) (omega arith)) (no_inputs d apply e ok) in
      let (order, ordered, rows) = adapted-Row e.row_orderer_list ok.order in
      let (loaded, load, keeps) =
        load_inputs-Done inputs 0 e.lnode_genes (λ k lt. there k (omega arith)) in
      let (genes, run, keeps') =
        eval_rows-Done d apply e lists (drop 1 order) loaded
          (Lists-Keeps d apply e e.lnode_genes loaded lists keeps ls)
          (All-drop (Row d apply e loaded) order (rows_stay loaded keeps order rows)) in
      let (outputs, read, size) = read_outputs-some e.outputs_positions genes (
        All-Placed d apply e e.lnode_genes genes e.outputs_positions
          (keeps'.0 ∙ keeps.0, λ z p. keeps'.1 z (keeps.1 z p)) ok.outputs) in
      (outputs, genes, rw (collected, ordered, load, run, read), size)
    where
      rows_stay :
          (loaded : Genes d apply)
          → Keeps d apply e e.lnode_genes loaded
          → (order : List ℤ) → All (Row d apply e e.lnode_genes) order
          → All (Row d apply e loaded) order
      rows_stay loaded keeps order rows =
          All-map (Row d apply e e.lnode_genes) (Row d apply e loaded) order
            (λ q (m, zs, at_q, at_m, placed).
              (m, zs, at_q, at_m, All-Placed d apply e e.lnode_genes loaded zs keeps placed))
            rows

-- The connections `ks` to the node `z` all come from rows that are not before the node's, and their
-- source nodes are `sources`.
abbrev pub AllBack :
    (d : Doubles) (apply : Function → d.Double → d.Double) (e : Encoding d.Double)
    → List (List ℕ)
    → Genes d apply
    → ℤ
    → List ℕ
    → List (NodeGene d.Double)
    → Type 0
AllBack d apply e lists genes z [] [] = Unit
AllBack d apply e lists genes z (k ∷ ks) (source ∷ sources) =
    ((c : ConnectionGene d.Double) × (from : ℕ) × (here : ℕ) × (get_elem? e.lconnection_genes k
        ≡ some c)
      × (position_of d apply e lists genes c.in_node ≡ some from)
      × (position_of d apply e lists genes z ≡ some here)
      × (here ≤ from)
      × (gene_at d apply genes c.in_node ≡ some source))
    × AllBack d apply e lists genes z ks sources
AllBack d apply e lists genes z _ _ = ⊥

abbrev pub past_sum : (d : Doubles) → List (NodeGene d.Double) → d.Double → d.Double
past_sum d [] acc = acc
past_sum d (source ∷ sources) acc = past_sum d sources (d.add acc source.output_t_minus_1)

-- Over connections that all come from rows not before the node's, the input of the node is the sum of
-- what their sources put out the time before: no weight has a part in it.
pub sum_inputs-past :
    (d : Doubles) (apply : Function → d.Double → d.Double) (e : Encoding d.Double)
    (lists : List (List ℕ)) (genes : Genes d apply) (z : ℤ) (ks : List ℕ)
    (sources : List (NodeGene d.Double)) (acc : d.Double)
    → AllBack d apply e lists genes z ks sources
    → sum_inputs d apply e lists genes z ks acc ≡ some (past_sum d sources acc)
unfolding sum_inputs
sum_inputs-past d apply e lists genes z [] [] acc back = refl
sum_inputs-past d apply e lists genes z (k ∷ ks) (source ∷ sources) acc
      ((c, from, here, at, at_from, at_here, not_before, at_source), back) =
    rw (at, at_from, at_here, at_source, leb_of_le here from not_before)
      (sum_inputs-past d apply e lists genes z ks sources (d.add acc source.output_t_minus_1) back)
  where
    leb_of_le : (a b : ℕ) → a ≤ b → leb a b ≡ true
    leb_of_le a b h = ground arith
sum_inputs-past d apply e lists genes z [] (source ∷ sources) acc back = absurd back
sum_inputs-past d apply e lists genes z (k ∷ ks) [] acc back = absurd back
