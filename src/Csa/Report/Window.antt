-- ===== src/Csa/Report/Window.antt =====
-- Which samples `generacionGraficos` of tarea2/src/csa.c prints.
use native.Mathlib.Numerals.{add-one}
use tareas_elo.Common.{
  ℕ, zero, suc, ◌+◌, ◌*◌, ◌^◌, ◌≤◌, ◌<◌, ◌≡◌, refl, Option, none, some, List, [], ◌∷◌, ◌++◌, length,
  get_elem?, arith, take, drop, map, ◌∙◌, get_elem?-inside, get_elem?-outside, >>=-none, true,
}
use tareas_elo.Common.Int.{ℤ, pos, i32-Fits, ◌+ℤ◌, ◌*ℤ◌, ltb_ℤ, i32, int_laws}
use tareas_elo.Csa.Report.{
  Item, sample, instant, sample_at, print_loop, print_window, generacion_graficos, listing,
  plot_commands,
}
use tareas_elo.Csa.Smooth.{◌+i◌, ◌*i◌}

next_index : (i : ℕ) → i + 1 < 2 ^ 31 → pos i +i pos 1 ≡ pos (i + 1)
unfolding ◌+i◌
next_index i h = i32-Fits (pos i +ℤ pos 1) (omega int_laws) ∙ omega int_laws

drop-get_elem? :
    (xs : List ℤ) (i : ℕ) (v : ℤ) → get_elem? xs i ≡ some v → drop i xs ≡ v ∷ drop (suc i) xs
drop-get_elem? [] i v e = cc
drop-get_elem? (x ∷ xs) zero v e = cc
drop-get_elem? (x ∷ xs) (suc i) v e = drop-get_elem? xs i v e

-- The loop prints the `rounds` samples from i on, if the array has them.
print_loop-inside :
    (xs : List ℤ) (rounds i : ℕ)
    → i + rounds ≤ length xs
    → i + rounds < 2 ^ 31
    → print_loop (sample_at xs) rounds (pos i) ≡ some (map sample (take rounds (drop i xs)))
unfolding print_loop
print_loop-inside xs zero i fits small = refl
print_loop-inside xs (suc rounds) i fits small =
    let (v, at) = get_elem?-inside xs i (omega arith) in
    rw (
      at,
      next_index i (omega arith),
      print_loop-inside xs rounds (i + 1) (omega arith) (omega arith),
      drop-get_elem? xs i v at,
      add-one i,
    )

-- It faults where the array ends before the window.
print_loop-outside :
    (xs : List ℤ) (rounds i : ℕ)
    → length xs < i + rounds
    → 0 < rounds
    → i + rounds < 2 ^ 31
    → print_loop (sample_at xs) rounds (pos i) ≡ none
unfolding print_loop
print_loop-outside xs zero i short some_left small = elim some_left [ ]
print_loop-outside xs (suc zero) i short some_left small = rw (get_elem?-outside xs i (omega arith))
print_loop-outside xs (suc (suc rounds)) i short some_left small =
    >>=-none (sample_at xs (pos i)) _ λ x. rw (
      next_index i (omega arith),
      print_loop-outside xs (suc rounds) (i + 1) (omega arith) (omega arith) (omega arith),
    )

times_eight : (o : ℕ) → pos o *ℤ pos 8 ≡ pos (8 * o)
unfolding ◌*ℤ◌
times_eight o = ground arith

window_width : pos 40 *i pos 8 ≡ pos 320
unfolding ◌*i◌ ◌*ℤ◌ i32
window_width = refl

-- The window of an offset in milliseconds that does not overflow.
print_window-start :
    (item : ℤ → Option Item) (o : ℕ)
    → 8 * o + 320 < 2 ^ 31
    → print_window item (pos o) ≡ print_loop item 320 (pos (8 * o))
unfolding print_window
print_window-start item o h = rw (start, window_width, stop, forward)
  where
    start : pos o *i pos 8 ≡ pos (8 * o)
    start = unfold ◌*i◌ in rw (times_eight o) (i32-Fits (pos (8 * o)) (omega arith))

    stop : pos (8 * o) +i pos 320 ≡ pos (8 * o + 320)
    stop = unfold ◌+i◌ in i32-Fits (pos (8 * o) +ℤ pos 320) (omega int_laws) ∙ omega int_laws

    forward : ltb_ℤ (pos (8 * o)) (pos (8 * o + 320)) ≡ true
    forward = ground arith

-- The instants of the `rounds` samples from i on.
unfoldable pub times : ℕ → ℕ → List Item
times zero i = []
times (suc rounds) i = instant (pos i) ∷ times rounds (i + 1)

print_loop-times :
    (rounds i : ℕ)
    → i + rounds < 2 ^ 31
    → print_loop (λ k. some (instant k)) rounds (pos i) ≡ some (times rounds i)
unfolding print_loop times
print_loop-times zero i small = refl
print_loop-times (suc rounds) i small =
    rw (next_index i (omega arith), print_loop-times rounds (i + 1) (omega arith))

abbrev pub window : ℕ → List ℤ → List Item
window o xs = map sample (take 320 (drop (8 * o) xs))

-- For an offset of o milliseconds with the whole window of 320 samples inside the three signals
-- and below 2 ^ 31, the samples from index 8 * o on of each are printed, in order, then their
-- times and the plots.
pub generacion_graficos-window :
    (brutos saturados suavizados : List ℤ) (o : ℕ)
    → 8 * o + 320 < 2 ^ 31
    → 8 * o + 320 ≤ length brutos
    → length saturados ≡ length brutos
    → length suavizados ≡ length brutos
    → generacion_graficos brutos saturados suavizados (pos o)
      ≡ some (
          listing "datosBrutos = [ " (window o brutos)
          ++ (listing "datosSaturados = [ " (window o saturados)
              ++ (listing "datosSuavizados = [ " (window o suavizados)
                  ++ (listing "tiempo = [ " (times 320 (8 * o)) ++ plot_commands))))
unfolding generacion_graficos
generacion_graficos-window bs ss ms o small fits e e' = rw (
  print_window-start _ o small,
  print_loop-inside bs 320 (8 * o) fits small,
  print_window-start (sample_at ss) o small,
  print_loop-inside ss 320 (8 * o) (omega arith) small,
  print_window-start (sample_at ms) o small,
  print_loop-inside ms 320 (8 * o) (omega arith) small,
  print_window-start (λ i. some (instant i)) o small,
  print_loop-times 320 (8 * o) small,
)

-- Where the first signal ends before the window does, below 2 ^ 31, the function reads behind the
-- end of an array.
pub generacion_graficos-short :
    (brutos saturados suavizados : List ℤ) (o : ℕ)
    → 8 * o + 320 < 2 ^ 31
    → length brutos < 8 * o + 320
    → generacion_graficos brutos saturados suavizados (pos o) ≡ none
unfolding generacion_graficos
generacion_graficos-short bs ss ms o small short = rw (
  print_window-start (sample_at bs) o small,
  print_loop-outside bs 320 (8 * o) short (omega arith) small,
)
