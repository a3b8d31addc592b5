-- ===== src/Csa/Load.antt =====
-- `obtencionDatos` of tarea2/src/csa.c: the samples of a file and their saturated version.
pub mod Pass
pub mod Level
use tareas_elo.Common.{
  ℕ, zero, suc, ◌+◌, ◌-◌, ◌*◌, ◌/◌, ◌%◌, ◌^◌, ◌≤◌, ◌<◌, ◌≡◌, refl, ap, sym, Option, none, some,
  List, [], ◌∷◌, ◌++◌, arith, ltb, if◌then◌else◌, length, write?, ◌>>=◌, Bool, true, false, set,
  ◌∙◌,
}
use tareas_elo.Common.Int.{ℤ, pos, negsuc, magnitude, i32, div?, ltb_ℤ}
use tareas_elo.Common.Doubles.{Doubles, convert}
use tareas_elo.Csa.Samples.{fread, samples}

-- `abs` of stdlib.h, on an int.
abbrev pub abs : ℤ → ℤ
abs a = i32 (pos (magnitude a))

-- What `malloc` hands out: `n` values that nothing has written yet.
abbrev pub malloc : (ℕ → ℤ) → ℕ → List ℤ
malloc junk zero = []
malloc junk (suc n) = junk 0 ∷ malloc (λ i. junk (suc i)) n

-- `i++` on an int that is not negative: a fault where the int overflows.
abbrev pub increment : ℕ → Option ℕ
increment i = if ltb (i + 1) (2 ^ 31) then some (i + 1) else none

-- The first pass: how many samples there are.
unfoldable pub count_samples : ℕ → List ℕ → ℕ → Option ℕ
count_samples zero file i = some i
count_samples (suc fuel) file i = elim (fread file) [
  | none ↦ some i
  | some (v, file') ↦ increment i >>= λ i'. count_samples fuel file' i'
]

module _ (d : Doubles) (ganancia : d.Double) where
  -- The sample if it fits after the gain, else the level that saturates, with its sign.
  unfoldable pub saturado : ℤ → Option ℤ
  saturado valor = convert d (2 ^ 31) (d.mul ganancia (d.of_int valor)) >>= λ amplified.
      if ltb_ℤ (abs amplified) (pos 0x7fff)
      then some valor
      else div? valor (abs valor) >>= λ sign.
          convert d (2 ^ 15) (d.mul (d.of_int sign) (d.div (d.of_int (pos 0x7fff)) ganancia))

  -- The second pass: each sample and its saturated version go to their index.
  unfoldable pub fill_samples : ℕ → List ℕ → ℕ → List ℤ → List ℤ → Option (List ℤ × List ℤ)
  fill_samples zero file i brutos saturados = some (brutos, saturados)
  fill_samples (suc fuel) file i brutos saturados = elim (fread file) [
    | none ↦ some (brutos, saturados)
    | some (valor, file') ↦ write? brutos i valor >>= λ brutos'. saturado valor >>= λ s.
        write? saturados i s >>= λ saturados'.
        increment i >>= λ i'. fill_samples fuel file' i' brutos' saturados'
  ]

-- `*sizeOfData`, `*datosBrutos` and `*datosSaturados`.
pub record Datos : Type 0 where
  pub size_of_data : ℕ
  pub brutos : List ℤ
  pub saturados : List ℤ

unfoldable pub obtencion_datos : (d : Doubles) → List ℕ → List ℕ → (ℕ → ℤ) → (ℕ → ℤ) → Option Datos
obtencion_datos d file ganancia junk junk' = count_samples (length file) file 0 >>= λ n.
    fill_samples d (d.atof ganancia) (length file) file 0 (malloc junk n) (malloc junk' n)
    >>= λ both. some (record { size_of_data = n; brutos = both.0; saturados = both.1 })
