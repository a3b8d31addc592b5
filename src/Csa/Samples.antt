-- ===== src/Csa/Samples.antt =====
-- The int16_t samples of a raw audio file: `fread` and `fwrite` of one sample (tarea2/src/csa.c).
use tareas_elo.Common.{
  ℕ, ◌+◌, ◌-◌, ◌*◌, ◌/◌, ◌%◌, ◌^◌, ◌≡◌, Option, none, some, List, [], ◌∷◌, ◌++◌, arith, ltb,
  if◌then◌else◌,
}
use tareas_elo.Common.Int.{ℤ, pos, negsuc, Fits}

-- `fread(&valor, sizeof(valor), 1, file)` on a little-endian machine: none where it returns 0.
abbrev pub fread : List ℕ → Option (ℤ × List ℕ)
fread [] = none
fread (lo ∷ []) = none
fread (lo ∷ hi ∷ rest) =
    some (if ltb hi 128 then pos (lo + 256 * hi) else negsuc (2 ^ 16 - 1 - (lo + 256 * hi)), rest)

-- The two bytes that `fwrite(&v, sizeof(int16_t), 1, file)` appends.
abbrev pub fwrite : ℤ → List ℕ
fwrite (pos n) = n % 256 ∷ (n / 256) % 256 ∷ []
fwrite (negsuc n) = (255 - n % 256) ∷ (255 - (n / 256) % 256) ∷ []

-- All the samples of a file, one after the other; a last odd byte is no sample.
abbrev pub samples : List ℕ → List ℤ
samples [] = []
samples (lo ∷ []) = []
samples (lo ∷ hi ∷ rest) =
    (if ltb hi 128 then pos (lo + 256 * hi) else negsuc (2 ^ 16 - 1 - (lo + 256 * hi)))
    ∷ samples rest

-- A sample that is written is read back.
pub fread-fwrite :
    (v : ℤ) (rest : List ℕ) → Fits (2 ^ 15) v → fread (fwrite v ++ rest) ≡ some (v, rest)
fread-fwrite (pos n) rest h = ground arith
fread-fwrite (negsuc n) rest h = ground arith
