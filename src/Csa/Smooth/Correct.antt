-- ===== src/Csa/Smooth/Correct.antt =====
-- What `suavizamientoDeSaturacion` of tarea2/src/csa.c does to a whole signal.
use native.Mathlib.Nat.{add-zero}
use tareas_elo.Common.{
  ℕ, ◌+◌, ◌≡◌, refl, some, List, [], ◌∷◌, ◌++◌, length, get_elem?, ◌>>=◌, arith, false,
  write?-append, length-append, append_assoc, get_elem?-middle, write?, ◌∙◌, sym, dec_lt,
  get_elem?-inside, get_elem?-outside,
}
use tareas_elo.Common.Int.{ℤ}
use tareas_elo.Common.Doubles.{Doubles}
use tareas_elo.Csa.Smooth.{
  Limits, limits, is_saturated, smooth_step, smooth_loop, suavizamiento_de_saturacion,
}
use tareas_elo.Csa.Smooth.Loop.{Interior, Fresh, expected, loop-Upto, Upto, Upto-start}

-- For fewer than 2 ^ 30 int16_t samples, levels that an int16_t holds, no saturated sample among
-- the first three and the last two, and fresh memory that holds no level, the function returns
-- without a fault. Its signal has the length of the input; a sample that is not saturated is kept,
-- and a saturated one is the middle value of the polynomial through the three smoothed samples
-- before it and the two samples behind it, wrapped to int16_t.
pub suavizamiento_correct :
    (d : Doubles) (ganancia : List ℕ) (l : Limits) (saturados junk : List ℤ)
    → limits d (d.atof ganancia) ≡ some l
    → Interior l saturados
    → Fresh l (length saturados) junk
    → (out : List ℤ) × (suavizamiento_de_saturacion d saturados junk (length saturados) ganancia
        ≡ some out)
      × (length out ≡ length saturados)
      × ((k : ℕ) → get_elem? out k ≡ (get_elem? saturados k >>= expected l saturados out k))
unfolding suavizamiento_de_saturacion
suavizamiento_correct d ganancia l saturados junk e ok fresh =
    let (out, run, all) =
      loop-Upto l saturados junk ok fresh (length saturados) 0 junk (add-zero (length saturados))
        (Upto-start l saturados junk ok fresh) in
    (out, rw e run, all.size, each out all)
  where
    each :
        (out : List ℤ)
        → Upto l saturados junk (length saturados) out
        → (k : ℕ) → get_elem? out k ≡ (get_elem? saturados k >>= expected l saturados out k)
    each out all k = elim (dec_lt k (length saturados)) [
      | yes inside ↦
          let (v, at) = get_elem?-inside saturados k inside in rw at (all.done k v inside at)
      | no outside ↦
          rw (get_elem?-outside saturados k (omega arith))
            (get_elem?-outside out k (omega (arith, all.size)))
    ]

abbrev IsClean : Limits → List ℤ → Type 0
IsClean l saturados = (k : ℕ) (v : ℤ) → get_elem? saturados k ≡ some v → is_saturated l v ≡ false

-- The samples still to come are kept, if none is saturated: whatever the memory held.
smooth_loop-kept :
    (l : Limits) (saturados : List ℤ) (n i : ℕ) (before todo rest : List ℤ)
    → IsClean l saturados
    → saturados ≡ before ++ todo
    → i ≡ length before
    → length rest ≡ length todo
    → smooth_loop l saturados n (length todo) 0 i (before ++ rest) ≡ some saturados
unfolding smooth_loop smooth_step
smooth_loop-kept l saturados n i before [] [] clean e at size = rw e
smooth_loop-kept l saturados n i before (v ∷ todo) (r ∷ rest) clean e at size =
    rw (here, clean i v here, stored)
      (smooth_loop-kept l saturados n (i + 1) (before ++ (v ∷ [])) todo rest clean
        (e ∙ sym (append_assoc before (v ∷ []) todo)) (omega (arith, length-append before (v ∷ [])))
        (omega arith))
  where
    here : get_elem? saturados i ≡ some v
    here = rw (e, at) (get_elem?-middle before v todo)

    stored : write? (before ++ (r ∷ rest)) i v ≡ some ((before ++ (v ∷ [])) ++ rest)
    stored = rw at (write?-append before r rest v)
smooth_loop-kept l saturados n i before [] (r ∷ rest) clean e at size = absurd (omega arith)
smooth_loop-kept l saturados n i before (v ∷ todo) [] clean e at size = absurd (omega arith)

-- A signal without a saturated sample comes back unchanged, whatever the fresh memory of its
-- length held.
pub suavizamiento-kept :
    (d : Doubles) (ganancia : List ℕ) (l : Limits) (saturados junk : List ℤ)
    → limits d (d.atof ganancia) ≡ some l
    → ((k : ℕ) (v : ℤ) → get_elem? saturados k ≡ some v → is_saturated l v ≡ false)
    → length junk ≡ length saturados
    → suavizamiento_de_saturacion d saturados junk (length saturados) ganancia ≡ some saturados
unfolding suavizamiento_de_saturacion
suavizamiento-kept d ganancia l saturados junk e clean size =
    rw e (smooth_loop-kept l saturados (length saturados) 0 [] saturados junk clean refl refl size)
