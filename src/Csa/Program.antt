-- ===== src/Csa/Program.antt =====
-- `main`, `comprobacionDatosEntrada`, `creacionOctave` and `protocoloDeSalida` of tarea2/src/csa.c.
pub mod Quiet
use Prim.Native.String.{String}
use tareas_elo.Common.{
  ℕ, zero, suc, ◌+◌, ◌≡◌, Option, none, some, List, [], ◌∷◌, ◌++◌, get_elem?, length, map, ◌>>=◌,
  if◌then◌else◌, Bool, true, false, ltb, ◌==◌, ◌&&◌,
}
use tareas_elo.Common.Int.{ℤ, pos, negsuc}
use tareas_elo.Common.Doubles.{Doubles}
use tareas_elo.Common.Text.{atoi}
use tareas_elo.Csa.Load.{Datos, malloc, obtencion_datos}
use tareas_elo.Csa.Smooth.{suavizamiento_de_saturacion}
use tareas_elo.Csa.Report.{Item, Audio, text, generacion_graficos, calculo_de_error, reproducir}

pub data Array : Type 0 where
  datos_brutos datos_saturados : Array

-- What the program does that can be seen from outside, in order.
pub data Effect : Type 0 where
  usage : Effect
  perror : String → Effect
  to_octave : Item → Effect
  report_error : ℤ → Effect
  write_audio : Audio → Effect
  run_command : String → Effect
  print : String → Effect
  ask_key : Effect
  wait_octave : Effect
  close_octave : Effect
  release : Array → Effect

-- How `fork` returns.
pub data Forked : Type 0 where
  failed child parent : Forked

-- What the program finds: the file at a path (none where it cannot be opened), what `pipe`, `fork`
-- and `execlp` answer, what the memory holds that `malloc` hands out, and how much of the bytes of a
-- stream the library has written before it is flushed.
pub record World : Type 0 where
  pub file : List ℕ → Option (List ℕ)
  pub pipe_ok : Bool
  pub fork : Forked
  pub exec_ok : Bool
  pub junk_brutos : ℕ → ℤ
  pub junk_saturados : ℕ → ℤ
  pub junk_suavizados : ℕ → ℤ
  pub flushed : ℕ → ℕ

-- How a run ends: with an exit status, as Octave (the child), or in a fault.
pub data Outcome : Type 0 where
  exited : ℤ → List Effect → Outcome
  became_octave : Outcome
  fault : Outcome

abbrev pub protocolo_de_salida : List Effect
protocolo_de_salida =
    print "Ingrese cualquier tecla para terminar\n"
    ∷ ask_key
    ∷ to_octave (text "\n exit\n")
    ∷ wait_octave
    ∷ close_octave
    ∷ release datos_brutos
    ∷ release datos_saturados
    ∷ print "\n"
    ∷ []

-- `(char) *argv[4] == 'p'`: the first byte, 0 for an empty argument.
abbrev pub starts_with_p : List ℕ → Bool
starts_with_p [] = false
starts_with_p (c ∷ _) = c == b'p'

unfoldable pub wants_audio : List (List ℕ) → Bool
wants_audio argv = elim (get_elem? argv 4) [
  | none ↦ false
  | some flag ↦ length argv == 5 && starts_with_p flag
]

-- The call of `reproducir`: what it does, and what is left for the end of the process, where the
-- library writes the rest of the streams.
unfoldable pub play : (ℕ → ℕ) → List (List ℕ) → Datos → List ℤ → Option (List Effect × List Effect)
play flushed argv datos suavizados =
    if wants_audio argv
    then (reproducir flushed datos.brutos datos.saturados suavizados datos.size_of_data >>= λ r.
        some (write_audio r.files ∷ map run_command r.commands, write_audio r.streams ∷ []))
    else some ([], [])

-- From `obtencionDatos` on.
unfoldable pub main_parent : (d : Doubles) → World → List (List ℕ) → Option (List Effect)
main_parent d w argv = get_elem? argv 1 >>= λ path. get_elem? argv 2 >>= λ ganancia.
    get_elem? argv 3 >>= λ offset. w.file path >>= λ file.
    obtencion_datos d file ganancia w.junk_brutos w.junk_saturados >>= λ datos.
    suavizamiento_de_saturacion d datos.saturados (malloc w.junk_suavizados datos.size_of_data)
      datos.size_of_data ganancia
    >>= λ suavizados.
        generacion_graficos datos.brutos datos.saturados suavizados (atoi offset) >>= λ items.
        calculo_de_error datos.brutos suavizados datos.size_of_data >>= λ e.
        play w.flushed argv datos suavizados >>= λ (played, at_exit).
        some
          (map to_octave items ++ (report_error e ∷ (played ++ (protocolo_de_salida ++ at_exit))))

unfoldable pub creacion_octave : World → Outcome → Outcome
creacion_octave w continue =
    if w.pipe_ok
    then (elim w.fork [
      | failed ↦ exited (pos 1) (perror "fork" ∷ [])
      | child ↦ if w.exec_ok then became_octave else exited (negsuc 0) (perror "exec" ∷ [])
      | parent ↦ continue
    ])
    else exited (pos 1) (perror "pipe" ∷ [])

unfoldable pub comprobacion_datos_entrada : List (List ℕ) → Outcome → Outcome
comprobacion_datos_entrada argv continue =
    if ltb (length argv) 4 then exited (pos 1) (usage ∷ []) else continue

abbrev pub finished : Option (List Effect) → Outcome
finished none = fault
finished (some effects) = exited (pos 0) effects

unfoldable pub main : (d : Doubles) → World → List (List ℕ) → Outcome
main d w argv =
    comprobacion_datos_entrada argv (creacion_octave w (finished (main_parent d w argv)))
