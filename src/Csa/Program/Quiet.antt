-- ===== src/Csa/Program/Quiet.antt =====
-- A run of csa (tarea2/src/csa.c) on a recording that the gain does not saturate.
use tareas_elo.Csa.Report.Window.{times, window, generacion_graficos-window}
use tareas_elo.Common.{
  ℕ, ◌+◌, ◌*◌, ◌^◌, ◌≤◌, ◌<◌, ◌≡◌, refl, some, List, [], ◌∷◌, ◌++◌, get_elem?, length, map, arith,
  true, false, ltb, ltb_of_le, ltb_of_lt, ◌∙◌, ap,
}
use tareas_elo.Common.Int.{ℤ, pos, ◌+ℤ◌, ◌-ℤ◌, ◌*ℤ◌, int_laws}
use tareas_elo.Common.Doubles.{Doubles}
use tareas_elo.Common.Text.{atoi}
use tareas_elo.Csa.Samples.{samples}
use tareas_elo.Csa.Load.{saturado, malloc, obtencion_datos}
use tareas_elo.Csa.Load.Pass.{traverse, obtencion_datos_lem, length-malloc}
use tareas_elo.Csa.Smooth.{Limits, limits, is_saturated, suavizamiento_de_saturacion}
use tareas_elo.Csa.Smooth.Correct.{suavizamiento-kept}
use tareas_elo.Csa.Report.{listing, plot_commands, generacion_graficos, calculo_de_error}
use tareas_elo.Csa.Report.Error.{Near, signed_squares, calculo_de_error-exact}
use tareas_elo.Csa.Report.Playback.{AllInt16}
use tareas_elo.Csa.Program.{
  World, parent, exited, to_octave, report_error, protocolo_de_salida, wants_audio, play,
  main_parent, creacion_octave, comprobacion_datos_entrada, main,
}

opposite_self : (v : ℤ) → v -ℤ v ≡ pos 0
opposite_self v = omega int_laws

Near-self : (vs : List ℤ) → AllInt16 vs → Near vs vs
Near-self [] h = tt
Near-self (v ∷ vs) (h, hs) = (h, h, omega int_laws, Near-self vs hs)

signed_squares_self : (vs : List ℤ) → signed_squares vs vs ≡ pos 0
signed_squares_self [] = refl
signed_squares_self (v ∷ vs) = rw (opposite_self v, signed_squares_self vs) zero_term
  where
    zero_term : pos 0 *ℤ pos 0 +ℤ pos 0 ≡ pos 0
    zero_term = unfold ◌*ℤ◌ ◌+ℤ◌ in refl

play-nothing :
    (flushed : ℕ → ℕ) (argv : List (List ℕ)) (vs : List ℤ)
    → wants_audio argv ≡ false
    → play flushed argv (record { size_of_data = length vs; brutos = vs; saturados = vs }) vs
      ≡ some ([], [])
unfolding play
play-nothing flushed argv vs quiet = rw quiet

-- What the run needs.
pub record QuietRun (d : Doubles) (w : World) (argv : List (List ℕ)) : Type 0 where
  pub path : List ℕ
  pub ganancia : List ℕ
  pub offset : List ℕ
  pub file : List ℕ
  pub l : Limits
  pub o : ℕ
  pub octave : (w.pipe_ok ≡ true) × (w.fork ≡ parent)
  pub args :
      (get_elem? argv 1 ≡ some path)
      × (get_elem? argv 2 ≡ some ganancia)
      × (get_elem? argv 3 ≡ some offset)
      × (4 ≤ length argv)
      × (wants_audio argv ≡ false)
  pub opened : w.file path ≡ some file
  pub int16 : AllInt16 (samples file)
  pub levels : limits d (d.atof ganancia) ≡ some l
  pub soft : traverse (saturado d (d.atof ganancia)) (samples file) ≡ some (samples file)
  pub clean : (k : ℕ) (v : ℤ) → get_elem? (samples file) k ≡ some v → is_saturated l v ≡ false
  pub start : atoi offset ≡ pos o
  pub inside : 8 * o + 320 ≤ length (samples file)
  pub small : length (samples file) < 2 ^ 31

-- Where Octave starts, on a recording of int16_t samples none of which the gain saturates and none of
-- which is one of the two levels that the smoothing looks for, with the window inside it and no 'p' asked for, the run exits with 0: it plots the samples of the
-- file three times, unchanged, reports the error 0, and ends with the exit protocol.
pub main-quiet :
    (d : Doubles) (w : World) (argv : List (List ℕ)) (r : QuietRun d w argv)
    → main d w argv
      ≡ exited (pos 0) (
          map to_octave (
            listing "datosBrutos = [ " (window r.o (samples r.file))
            ++ (listing "datosSaturados = [ " (window r.o (samples r.file))
                ++ (listing "datosSuavizados = [ " (window r.o (samples r.file))
                    ++ (listing "tiempo = [ " (times 320 (8 * r.o)) ++ plot_commands))))
          ++ (report_error (pos 0) ∷ protocolo_de_salida))
unfolding main main_parent creacion_octave comprobacion_datos_entrada
main-quiet d w argv r = rw (
  enough,
  octave.0,
  octave.1,
  args.0,
  args.1,
  args.2,
  r.opened,
  loaded,
  smoothed,
  r.start,
  plotted,
  reported,
  play-nothing w.flushed argv vs args.4,
)
  where
    open r use {path, ganancia, offset, file, l, o, octave, args}

    vs : List ℤ
    vs = samples file

    enough : ltb (length argv) 4 ≡ false
    enough = ltb_of_le (length argv) 4 args.3

    loaded :
        obtencion_datos d file ganancia w.junk_brutos w.junk_saturados
        ≡ some (record { size_of_data = length vs; brutos = vs; saturados = vs })
    loaded =
        obtencion_datos_lem d file ganancia w.junk_brutos w.junk_saturados
        ∙ rw (ltb_of_lt (length vs) (2 ^ 31) r.small, r.soft)

    smoothed :
        suavizamiento_de_saturacion d vs (malloc w.junk_suavizados (length vs)) (length vs) ganancia
        ≡ some vs
    smoothed =
        suavizamiento-kept d ganancia l vs (malloc w.junk_suavizados (length vs)) r.levels r.clean
          (length-malloc (length vs) w.junk_suavizados)

    plotted :
        generacion_graficos vs vs vs (pos o)
        ≡ some (
            listing "datosBrutos = [ " (window o vs)
            ++ (listing "datosSaturados = [ " (window o vs)
                ++ (listing "datosSuavizados = [ " (window o vs)
                    ++ (listing "tiempo = [ " (times 320 (8 * o)) ++ plot_commands))))
    plotted = generacion_graficos-window vs vs vs o (omega arith) r.inside refl refl

    reported : calculo_de_error vs vs (length vs) ≡ some (pos 0)
    reported =
        calculo_de_error-exact vs vs (Near-self vs r.int16) refl r.small
        ∙ ap some (signed_squares_self vs)
