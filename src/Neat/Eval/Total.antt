-- ===== src/Neat/Eval/Total.antt =====
-- A sound genome is evaluated without an exception (proyecto/NEAT/src/genetic_encoding.cpp).
use tareas_elo.Common.{
  if◌then◌else◌, ℕ, ◌<◌, ◌≡◌, refl, sym, ap, Option, some, List, [], ◌∷◌, ◌++◌, length, get_elem?,
  set, drop, ◌>>=◌, true, ◌&&◌, ℕ_discrete, get_elem?-inside, get_elem?-set_self, get_elem?-set_ne,
  ◌∙◌, get_elem?-some-lt, length-set, arith, leb,
}
use tareas_elo.Common.Int.{ℤ, pos}
use tareas_elo.Common.Doubles.{Doubles}
use tareas_elo.Neat.Functions.{Function}
use tareas_elo.Neat.Genome.{ConnectionGene, NodeGene, Encoding}
use tareas_elo.Neat.Eval.{
  inverse, Genes, update_at, with_past, add_input, sum_inputs, save_past, eval_node, eval_rows,
  eval_nodes, with_value, index,
}

-- What holds of every element.
abbrev pub All {ℓ κ} : {A : Type ℓ} → (A → Type κ) → List A → Type κ
All P [] = Unit
All P (x ∷ xs) = P x × All P xs

pub All-map {ℓ κ} :
    {A : Type ℓ} (P Q : A → Type κ) (xs : List A) → ((x : A) → P x → Q x) → All P xs → All Q xs
All-map P Q [] f h = tt
All-map P Q (x ∷ xs) f h = (f x h.0, All-map P Q xs f h.1)

pub All-append {ℓ κ} :
    {A : Type ℓ} (P : A → Type κ) (xs ys : List A) → All P xs → All P ys → All P (xs ++ ys)
All-append P [] ys h k = k
All-append P (x ∷ xs) ys h k = (h.0, All-append P xs ys h.1 k)

pub All-drop {ℓ κ} : {A : Type ℓ} (P : A → Type κ) (xs : List A) → All P xs → All P (drop 1 xs)
All-drop P [] h = tt
All-drop P (x ∷ xs) h = h.1

-- A node that is there, at a row that has a position in the order.
abbrev pub Placed : {D : Type 0} → Encoding D → List (NodeGene D) → ℤ → Type 0
Placed {D = D} e genes z =
    (n : ℕ) × (g : NodeGene D) × (r : ℕ) × (z ≡ pos n)
    × (get_elem? genes n ≡ some g)
    × (g.row ≡ pos r)
    × (r < length (inverse e.row_orderer_list (length e.row_orderer_list) 0))

-- A connection that is used joins two nodes that are there.
abbrev pub Joins : {D : Type 0} → Encoding D → List (NodeGene D) → ConnectionGene D → Type 0
Joins e genes c = Placed e genes c.in_node × Placed e genes c.out_node

-- What `eval` relies on.
pub record Sound {D : Type 0} (e : Encoding D) : Type 0 where
  pub order : All (λ r. (k : ℕ) × (r ≡ pos k)) e.row_orderer_list
  pub rows : All (All (Placed e e.lnode_genes)) e.nodes_at_row
  pub outputs : All (Placed e e.lnode_genes) e.outputs_positions
  pub joins :
      (k : ℕ) (c : ConnectionGene D)
      → get_elem? e.lconnection_genes k ≡ some c
      → (c.exist && c.enable) ≡ true
      → Joins e e.lnode_genes c

module _ (d : Doubles) (apply : Function → d.Double → d.Double) (e : Encoding d.Double) where
  -- What is placed stays so.
  abbrev pub Keeps : Genes d apply → Genes d apply → Type 0
  Keeps genes genes' =
      (length genes' ≡ length genes) × ((z : ℤ) → Placed e genes z → Placed e genes' z)

  abbrev pub Done : Genes d apply → Option (Genes d apply) → Type 0
  Done genes run = (genes' : Genes d apply) × (run ≡ some genes') × Keeps genes genes'

  pub update_at-Done :
      (f : NodeGene d.Double → NodeGene d.Double) (genes : Genes d apply) (z : ℤ)
      → ((g : NodeGene d.Double) → (f g).row ≡ g.row)
      → Placed e genes z
      → Done genes (update_at d apply f genes z)
  update_at-Done f genes z same (n, g, r, at_z, at, at_row, lt) =
      (set genes n (f g), rw (at_z, at), keeps)
    where
      kept : (y : ℤ) → Placed e genes y → Placed e (set genes n (f g)) y
      kept y (m, h, q, at_y, at_m, at_q, lt_q) = elim (ℕ_discrete n m) [
        | yes here ↦ (
          n,
          f g,
          r,
          at_y ∙ ap pos (sym here),
          get_elem?-set_self genes n (f g) (get_elem?-some-lt genes n g at),
          same g ∙ at_row,
          lt,
        )
        | no other ↦ (m, h, q, at_y, get_elem?-set_ne genes n m (f g) other ∙ at_m, at_q, lt_q)
      ]

      keeps : Keeps genes (set genes n (f g))
      keeps = (length-set genes n (f g), kept)

  -- Every phase is a chain of such updates.
  pub Done-trans :
      (genes : Genes d apply) (m : Option (Genes d apply))
      (f : Genes d apply → Option (Genes d apply))
      → Done genes m
      → ((next : Genes d apply) → Keeps genes next → Done next (f next))
      → Done genes (m >>= f)
  Done-trans genes m f (next, run, keeps) after =
      let (last, run', keeps') = after next keeps in
      (last, rw run run', (keeps'.0 ∙ keeps.0, λ z h. keeps'.1 z (keeps.1 z h)))

  pub All-Placed :
      (genes genes' : Genes d apply) (zs : List ℤ)
      → Keeps genes genes'
      → All (Placed e genes) zs
      → All (Placed e genes') zs
  All-Placed genes genes' zs keeps = All-map (Placed e genes) (Placed e genes') zs keeps.1

  save_past-Done :
      (zs : List ℤ) (genes : Genes d apply)
      → All (Placed e genes) zs
      → Done genes (save_past d apply zs genes)
  unfolding save_past
  save_past-Done [] genes h = (genes, refl, (refl, λ z p. p))
  save_past-Done (z ∷ zs) genes h =
      Done-trans genes (update_at d apply (with_past d apply) genes z) (save_past d apply zs)
        (update_at-Done (with_past d apply) genes z (λ g. refl) h.0)
        (λ next keeps. save_past-Done zs next (All-Placed genes next zs keeps h.1))

  -- A connection into a node adds a value.
  add_input-some :
      (lists : List (List ℕ)) (genes : Genes d apply) (z : ℤ) (acc : d.Double)
      (c : ConnectionGene d.Double)
      → Placed e genes z
      → Placed e genes c.in_node
      → (v : d.Double) × (add_input d apply e lists genes z acc c ≡ some v)
  add_input-some lists genes z acc c (n, g, r, at_z, at, at_row, lt)
        (m, h, q, at_y, at_m, at_q, lt_q) =
      let (p, here) =
        get_elem?-inside (inverse e.row_orderer_list (length e.row_orderer_list) 0) r lt in
      let (p', from) =
        get_elem?-inside (inverse e.row_orderer_list (length e.row_orderer_list) 0) q lt_q in
      (
        if leb p p'
            then d.add acc h.output_t_minus_1
            else d.add acc (d.mul h.node_output_value c.weight),
        rw (at_y, at_m, at_q, from, at_z, at, at_row, here),
      )

  -- What the collected lists name.
  abbrev pub Named : Genes d apply → ℕ → Type 0
  Named genes k =
      (c : ConnectionGene d.Double) × (get_elem? e.lconnection_genes k ≡ some c)
      × Placed e genes c.in_node

  sum_inputs-some :
      (lists : List (List ℕ)) (genes : Genes d apply) (z : ℤ) (ks : List ℕ) (acc : d.Double)
      → Placed e genes z
      → All (Named genes) ks
      → (v : d.Double) × (sum_inputs d apply e lists genes z ks acc ≡ some v)
  unfolding sum_inputs
  sum_inputs-some lists genes z [] acc p h = (acc, refl)
  sum_inputs-some lists genes z (k ∷ ks) acc p ((c, at, source), h) =
      let (next, added) = add_input-some lists genes z acc c p source in
      let (v, rest) = sum_inputs-some lists genes z ks next p h in (v, rw (at, added) rest)

  -- Each node has a list, and it names connections of the genome.
  pub record Lists (genes : Genes d apply) (lists : List (List ℕ)) : Type 0 where
    pub size : length lists ≡ length genes
    pub named : (n : ℕ) (ks : List ℕ) → get_elem? lists n ≡ some ks → All (Named genes) ks

  pub Lists-Keeps :
      (genes next : Genes d apply) (lists : List (List ℕ))
      → Keeps genes next
      → Lists genes lists
      → Lists next lists
  Lists-Keeps genes next lists keeps ls = record {
    size = ls.size ∙ sym keeps.0;
    named = λ n ks at.
        All-map (Named genes) (Named next) ks
          (λ k (c, at_k, source). (c, at_k, keeps.1 c.in_node source)) (ls.named n ks at);
  }

  -- A row that the order names, with its nodes there.
  abbrev pub Row : Genes d apply → ℤ → Type 0
  Row genes r =
      (k : ℕ) × (nodes : List ℤ) × (r ≡ pos k)
      × (get_elem? e.nodes_at_row k ≡ some nodes)
      × All (Placed e genes) nodes

  module _ (lists : List (List ℕ)) where
    eval_node-Done :
        (genes : Genes d apply) (z : ℤ)
        → Lists genes lists
        → Placed e genes z
        → Done genes (eval_node d apply e lists genes z)
    unfolding eval_node
    eval_node-Done genes z ls p =
        let (n, g, r, at_z, at, at_row, lt) = p in
        let (ks, at_ks) =
          get_elem?-inside lists n (omega (arith, ls.size, get_elem?-some-lt genes n g at)) in
        let (v, sum) =
          sum_inputs-some lists genes z ks (d.of_int (pos 0)) p (ls.named n ks at_ks) in
        let (next, run, keeps) = update_at-Done (with_value d apply v) genes z (λ h. refl) p in
        (next, rw (ap index at_z, at_ks, sum) (rw (ap index at_z) at run), keeps)

    eval_nodes-Done :
        (zs : List ℤ) (genes : Genes d apply)
        → Lists genes lists
        → All (Placed e genes) zs
        → Done genes (eval_nodes d apply e lists zs genes)
    unfolding eval_nodes
    eval_nodes-Done [] genes ls h = (genes, refl, (refl, λ z p. p))
    eval_nodes-Done (z ∷ zs) genes ls h =
        Done-trans genes (eval_node d apply e lists genes z) (eval_nodes d apply e lists zs)
          (eval_node-Done genes z ls h.0)
          (λ next keeps.
            eval_nodes-Done zs next (Lists-Keeps genes next lists keeps ls)
              (All-Placed genes next zs keeps h.1))

    pub eval_rows-Done :
        (rs : List ℤ) (genes : Genes d apply)
        → Lists genes lists
        → All (Row genes) rs
        → Done genes (eval_rows d apply e lists rs genes)
    unfolding eval_rows
    eval_rows-Done [] genes ls h = (genes, refl, (refl, λ z p. p))
    eval_rows-Done (r ∷ rs) genes ls ((k, nodes, at_r, at, there), h) =
        let (last, run, keeps) = phases (λ saved. eval_rows-Done rs saved) in
        (last, rw (ap index at_r, at) run, keeps)
      where
        after : Genes d apply → Option (Genes d apply)
        after valued = save_past d apply nodes valued >>= eval_rows d apply e lists rs

        still : (next : Genes d apply) → Keeps genes next → All (Row next) rs
        still next keeps =
            All-map (Row genes) (Row next) rs
              (λ q (m, zs, at_q, at_m, placed).
                (m, zs, at_q, at_m, All-Placed genes next zs keeps placed))
              h

        phases :
            ((saved : Genes d apply)
              → Lists saved lists
              → All (Row saved) rs
              → Done saved (eval_rows d apply e lists rs saved))
            → Done genes (eval_nodes d apply e lists nodes genes >>= after)
        phases others =
            Done-trans genes (eval_nodes d apply e lists nodes genes) after
              (eval_nodes-Done nodes genes ls there)
              (λ valued keeps.
                Done-trans valued (save_past d apply nodes valued) (eval_rows d apply e lists rs)
                  (save_past-Done nodes valued (All-Placed genes valued nodes keeps there))
                  (λ saved keeps'.
                    let both : Keeps genes saved =
                      (keeps'.0 ∙ keeps.0, λ z p. keeps'.1 z (keeps.1 z p)) in
                    others saved (Lists-Keeps genes saved lists both ls) (still saved both)))
