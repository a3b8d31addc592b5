-- ===== src/Csa/Report.antt =====
-- `calculoDeError`, `generacionGraficos` and `reproducir` of tarea2/src/csa.c.
pub mod Error
pub mod Window
pub mod Playback
use Prim.Native.String.{String}
use tareas_elo.Common.{
  ℕ, zero, suc, ◌+◌, ◌≡◌, Option, none, some, List, [], ◌∷◌, ◌++◌, get_elem?, ◌>>=◌, if◌then◌else◌,
  take, length,
}
use tareas_elo.Common.Int.{ℤ, pos, ◌+ℤ◌, i64, read?, ltb_ℤ}
use tareas_elo.Csa.Load.{abs}
use tareas_elo.Csa.Samples.{fwrite}
use tareas_elo.Csa.Smooth.{◌+i◌, ◌-i◌, ◌*i◌}

-- `abs(b - s) * (b - s)`, in int.
abbrev pub error_term : ℤ → ℤ → ℤ
error_term bruto suavizado = abs (bruto -i suavizado) *i (bruto -i suavizado)

-- The loop of `calculoDeError` from i on, `rounds` rounds left; the sum is a long.
unfoldable pub error_loop : List ℤ → List ℤ → ℕ → ℕ → ℤ → Option ℤ
error_loop brutos suavizados zero i error_sum = some error_sum
error_loop brutos suavizados (suc rounds) i error_sum = get_elem? brutos i >>= λ b.
    get_elem? suavizados i >>= λ s.
    error_loop brutos suavizados rounds (i + 1) (i64 (error_sum +ℤ error_term b s))

unfoldable pub calculo_de_error : List ℤ → List ℤ → ℕ → Option ℤ
calculo_de_error brutos suavizados n = error_loop brutos suavizados n 0 (pos 0)

-- What goes to Octave: text, a sample printed as an integer, `i / 8000.0` printed as a real.
pub data Item : Type 0 where
  text : String → Item
  sample : ℤ → Item
  instant : ℤ → Item

abbrev pub samples_per_millisec : ℤ
samples_per_millisec = pos 8

abbrev pub total_graph_time_millisec : ℤ
total_graph_time_millisec = pos 40

-- `for (i = start; i < stop; ++i)` prints one item for each index.
unfoldable pub print_loop : (ℤ → Option Item) → ℕ → ℤ → Option (List Item)
print_loop item zero i = some []
print_loop item (suc rounds) i =
    item i >>= λ x. print_loop item rounds (i +i pos 1) >>= λ xs. some (x ∷ xs)

-- From the offset on. The bound of the loop is 320 above its start, or, where that sum leaves the
-- range of int, below it.
unfoldable pub print_window : (ℤ → Option Item) → ℤ → Option (List Item)
print_window item offset =
    let start = offset *i samples_per_millisec in
    let stop = start +i total_graph_time_millisec *i samples_per_millisec in
    print_loop item (if ltb_ℤ start stop then 320 else 0) start

abbrev pub sample_at : List ℤ → ℤ → Option Item
sample_at values i = read? values i >>= λ v. some (sample v)

abbrev pub plot_commands : List Item
plot_commands =
    text "subplot(3,1,1);\n"
    ∷ text "plot(tiempo,datosBrutos);\n"
    ∷ text "subplot(3,1,2);\n"
    ∷ text "plot(tiempo,datosSaturados);\n"
    ∷ text "subplot(3,1,3);\n"
    ∷ text "plot(tiempo,datosSuavizados);\n"
    ∷ []

-- `name = [ … ];`
abbrev pub listing : String → List Item → List Item
listing head body = text head ∷ (body ++ (text " ];\n" ∷ []))

unfoldable pub generacion_graficos : List ℤ → List ℤ → List ℤ → ℤ → Option (List Item)
generacion_graficos brutos saturados suavizados offset =
    print_window (sample_at brutos) offset >>= λ b.
    print_window (sample_at saturados) offset >>= λ s.
    print_window (sample_at suavizados) offset >>= λ m.
    print_window (λ i. some (instant i)) offset >>= λ t. some (
      listing "datosBrutos = [ " b
      ++ (listing "datosSaturados = [ " s
          ++ (listing "datosSuavizados = [ " m ++ (listing "tiempo = [ " t ++ plot_commands))))

-- The bytes of the three streams that `reproducir` writes to, or of their files.
pub record Audio : Type 0 where
  pub normal : List ℕ
  pub saturado : List ℕ
  pub suavizado : List ℕ

unfoldable pub write_loop : List ℤ → List ℤ → List ℤ → ℕ → ℕ → Audio → Option Audio
write_loop brutos saturados suavizados zero i files = some files
write_loop brutos saturados suavizados (suc rounds) i files = get_elem? brutos i >>= λ b.
    get_elem? saturados i >>= λ s. get_elem? suavizados i >>= λ m.
    write_loop brutos saturados suavizados rounds (i + 1) (record {
      normal = files.normal ++ fwrite b;
      saturado = files.saturado ++ fwrite s;
      suavizado = files.suavizado ++ fwrite m;
    })

abbrev pub play_commands : List String
play_commands =
    "aplay --format=S16_LE -t raw audioNormal.raw"
    ∷ "aplay --format=S16_LE -t raw audioSaturado.raw"
    ∷ "aplay --format=S16_LE -t raw audioSuavizado.raw" ∷ []

-- What the streams were given, what of it is in the files when they are played, and the commands.
pub record Played : Type 0 where
  pub streams : Audio
  pub files : Audio
  pub commands : List String

-- The streams are neither flushed nor closed before the commands, so that of `n` bytes given to a
-- stream the library has written the first `flushed n` only.
unfoldable pub reproducir : (ℕ → ℕ) → List ℤ → List ℤ → List ℤ → ℕ → Option Played
reproducir flushed brutos saturados suavizados n =
    write_loop brutos saturados suavizados n 0
      (record { normal = []; saturado = []; suavizado = [] })
    >>= λ streams. some (record {
      streams = streams;
      files = record {
        normal = take (flushed (length streams.normal)) streams.normal;
        saturado = take (flushed (length streams.saturado)) streams.saturado;
        suavizado = take (flushed (length streams.suavizado)) streams.suavizado;
      };
      commands = play_commands;
    })
