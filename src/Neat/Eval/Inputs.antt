-- ===== src/Neat/Eval/Inputs.antt =====
-- `inputs_to_node` in `eval` of proyecto/NEAT/src/genetic_encoding.cpp: every list is made, and names
-- connections of the genome.
use tareas_elo.Neat.Eval.Total.{All, All-append, Joins, Sound, Named, Lists}
use tareas_elo.Neat.Eval.{push_input, collect_inputs, Genes}
use tareas_elo.Common.{
  ℕ, suc, ◌+◌, ◌<◌, ◌≡◌, refl, sym, ap, subst, some, List, [], ◌∷◌, ◌++◌, length, get_elem?, set,
  replicate, ◌&&◌, arith, inl, inr, Bool-cases, length-replicate, length-set, ℕ_discrete,
  get_elem?-inside, get_elem?-set_self, get_elem?-set_ne, ◌∙◌, get_elem?-some-lt,
}
use mathlib.Core.Option.{some-injective}
use tareas_elo.Common.Doubles.{Doubles}
use tareas_elo.Neat.Functions.{Function}
use tareas_elo.Neat.Slots.{get_elem?-replicate}
use tareas_elo.Neat.Genome.{ConnectionGene, Encoding, index}

module _ (d : Doubles) (apply : Function → d.Double → d.Double) (e : Encoding d.Double)
    (ok : Sound e) where
  abbrev pub nodes : Genes d apply
  nodes = e.lnode_genes

  push-Lists :
      (lists : List (List ℕ)) (i : ℕ) (c : ConnectionGene d.Double)
      → Lists d apply e nodes lists
      → get_elem? e.lconnection_genes i ≡ some c
      → Joins e nodes c
      → (next : List (List ℕ)) × (push_input c.out_node i lists ≡ some next)
        × Lists d apply e nodes next
  push-Lists lists i c ls at_c (source, (n, g, r, at_out, at, at_row, lt)) =
      let (ks, at_ks) = get_elem?-inside lists n inside in
      (set lists n (ks ++ (i ∷ [])), rw (ap index at_out, at_ks), longer ks at_ks)
    where
      inside : n < length lists
      inside = omega (arith, ls.size, get_elem?-some-lt nodes n g at)

      longer :
          (ks : List ℕ)
          → get_elem? lists n ≡ some ks
          → Lists d apply e nodes (set lists n (ks ++ (i ∷ [])))
      longer ks at_ks = record {
        size = length-set lists n (ks ++ (i ∷ [])) ∙ ls.size;
        named = λ m js at_js. elim (ℕ_discrete n m) [
          | yes here ↦
              subst (All (Named d apply e nodes))
                (some-injective (ks ++ (i ∷ [])) js (
                  sym (get_elem?-set_self lists n (ks ++ (i ∷ [])) inside)
                  ∙ ap (get_elem? (set lists n (ks ++ (i ∷ [])))) here
                  ∙ at_js))
                (All-append (Named d apply e nodes) ks (i ∷ []) (ls.named n ks at_ks)
                  ((c, at_c, source), tt))
          | no other ↦
              ls.named m js (sym (get_elem?-set_ne lists n m (ks ++ (i ∷ [])) other) ∙ at_js)
        ];
      }

  pub collect-Lists :
      (rest : List (ConnectionGene d.Double)) (i : ℕ) (lists : List (List ℕ))
      → ((k : ℕ) → get_elem? rest k ≡ get_elem? e.lconnection_genes (k + i))
      → Lists d apply e nodes lists
      → (next : List (List ℕ)) × (collect_inputs rest i lists ≡ some next)
        × Lists d apply e nodes next
  unfolding collect_inputs
  collect-Lists [] i lists same ls = (lists, refl, ls)
  collect-Lists (c ∷ rest) i lists same ls = elim (Bool-cases (c.exist && c.enable)) [
    | inr unused ↦
        let (next, run, ls') = collect-Lists rest (i + 1) lists later ls in
        (next, rw unused run, ls')
    | inl used ↦
        let (pushed, push, ls') = push-Lists lists i c ls here (ok.joins i c here used) in
        let (next, run, ls'') = collect-Lists rest (i + 1) pushed later ls' in
        (next, rw (used, push) run, ls'')
  ]
    where
      here : get_elem? e.lconnection_genes i ≡ some c
      here = sym (same 0 ∙ ap (get_elem? e.lconnection_genes) (omega arith))

      later : (k : ℕ) → get_elem? rest k ≡ get_elem? e.lconnection_genes (k + (i + 1))
      later k = same (suc k) ∙ ap (get_elem? e.lconnection_genes) (omega arith)

  pub no_inputs : Lists d apply e nodes (replicate (length nodes) [])
  no_inputs = record {
    size = length-replicate (length nodes) [];
    named = λ n ks at.
        subst (All (Named d apply e nodes))
          (some-injective [] ks
            (sym (get_elem?-replicate [] (length nodes) n (inside n ks at)) ∙ at))
          tt;
  }
    where
      inside :
          (n : ℕ) (ks : List ℕ)
          → get_elem? (replicate (length nodes) []) n ≡ some ks
          → n < length nodes
      inside n ks at = omega (
        arith,
        get_elem?-some-lt (replicate (length nodes) []) n ks at,
        length-replicate {A = List ℕ} (length nodes) [],
      )
