-- ===== src/Csa/Tests.antt =====
-- csa.c run on small inputs, and the theorems about it at inputs that meet their hypotheses.
use tareas_elo.Csa.Load.{count_samples, fill_samples, saturado, obtencion_datos}
use tareas_elo.Csa.Samples.{samples}
use tareas_elo.Csa.Load.Pass.{traverse, obtencion_datos_lem}
use tareas_elo.Csa.Smooth.Formula.{middle, lagrange-middle}
use tareas_elo.Csa.Smooth.Faults.{smooth_step-edge}
use tareas_elo.Csa.Smooth.Correct.{suavizamiento_correct, suavizamiento-kept}
use tareas_elo.Common.{
  inl, ◌>>=◌, AllFrom-zero, true, false, ◌≤◌, ◌<◌, ◌^◌, arith, length, ℕ, ◌+◌, ◌≡◌, refl, none,
  some, List, [], ◌∷◌, get_elem?, write?,
}
use tareas_elo.Csa.Smooth.Loop.{Interior, Fresh, expected}
use tareas_elo.Csa.Smooth.{
  is_saturated, Limits, limits, suavizamiento_de_saturacion, lagrange, summand, ◌+i◌, ◌-i◌, ◌*i◌,
  smooth_loop, smooth_step, repair, block_length, fill,
}
use tareas_elo.Common.Int.{Fits, ℤ, pos, negsuc, ◌+ℤ◌, ◌-ℤ◌, ◌*ℤ◌, i16, i32}
use tareas_elo.Common.Doubles.{fractions}

abbrev gain_3 : List ℕ
gain_3 = 51 ∷ []

-- 20000 saturates at 0x7fff / 3.
saturado-loud : saturado fractions (fractions.atof gain_3) (pos 20000) ≡ some (pos 10922)
unfolding saturado fractions i32
saturado-loud = refl

abbrev wave : List ℤ
wave = pos 9000 ∷ pos 9700 ∷ pos 10300 ∷ pos 10922 ∷ pos 10500 ∷ pos 9900 ∷ pos 9000 ∷ []

abbrev level : Limits
level = record { superior = pos 10922; inferior = negsuc 10921 }

abbrev fresh : List ℤ
fresh = pos 0 ∷ pos 0 ∷ pos 0 ∷ pos 0 ∷ pos 0 ∷ pos 0 ∷ pos 0 ∷ []

smooth-wave :
    suavizamiento_de_saturacion fractions wave fresh 7 gain_3
    ≡ some (pos 9000 ∷ pos 9700 ∷ pos 10300 ∷ pos 10610 ∷ pos 10500 ∷ pos 9900 ∷ pos 9000 ∷ [])
unfolding suavizamiento_de_saturacion limits smooth_loop smooth_step repair block_length fill
    fractions lagrange summand ◌+i◌ ◌-i◌ ◌*i◌ i16 i32 ◌+ℤ◌ ◌-ℤ◌ ◌*ℤ◌ write?
smooth-wave = refl

wave-limits : limits fractions (fractions.atof gain_3) ≡ some level
unfolding limits fractions
wave-limits = refl

wave-Interior : Interior level wave
wave-Interior = record {
  small = omega arith;
  int16 = AllFrom-zero (λ k v. Fits (2 ^ 15) v) wave (omega arith);
  inside =
      AllFrom-zero (λ k v. is_saturated level v ≡ true → (3 ≤ k) × (k + 2 < 7)) wave
        (λ e. cc, (λ e. cc, (λ e. cc, (λ e. omega arith, (λ e. cc, (λ e. cc, (λ e. cc, tt)))))));
}

fresh-Fresh : Fresh level 7 fresh
fresh-Fresh = record {
  size = refl;
  no_level =
      AllFrom-zero (λ k v. is_saturated level v ≡ false) fresh
        (refl, (refl, (refl, (refl, (refl, (refl, (refl, tt)))))));
}

suavizamiento_correct_example :
    (out : List ℤ) × (suavizamiento_de_saturacion fractions wave fresh 7 gain_3 ≡ some out)
    × (length out ≡ 7)
    × ((k : ℕ) → get_elem? out k ≡ (get_elem? wave k >>= expected level wave out k))
suavizamiento_correct_example =
    suavizamiento_correct fractions gain_3 level wave fresh wave-limits wave-Interior fresh-Fresh

abbrev quiet_wave : List ℤ
quiet_wave = pos 100 ∷ negsuc 99 ∷ pos 100 ∷ []

suavizamiento-kept_example :
    suavizamiento_de_saturacion fractions quiet_wave (pos 10922 ∷ pos 0 ∷ pos 7 ∷ []) 3 gain_3
    ≡ some quiet_wave
suavizamiento-kept_example =
    suavizamiento-kept fractions gain_3 level quiet_wave (pos 10922 ∷ pos 0 ∷ pos 7 ∷ [])
      wave-limits
      (AllFrom-zero (λ k v. is_saturated level v ≡ false) quiet_wave (refl, (refl, (refl, tt))))
      refl

lagrange-middle_example :
    lagrange (pos 9000) (pos 9700) (pos 10300) (pos 10500) (pos 9900) (pos 3) (pos 0) (pos 3)
    ≡ some (i16 (middle (pos 9000) (pos 9700) (pos 10300) (pos 10500) (pos 9900)))
lagrange-middle_example =
    lagrange-middle (pos 9000) (pos 9700) (pos 10300) (pos 10500) (pos 9900) 3 (omega arith)
      (omega arith)

-- Memory full of the level: the block reaches the end of the array.
abbrev level_memory : List ℤ
level_memory = pos 10922 ∷ pos 10922 ∷ []

smooth_step-edge_example :
    smooth_step level (pos 1 ∷ pos 10922 ∷ pos 5 ∷ []) 3 2 1 (pos 1 ∷ pos 0 ∷ pos 0 ∷ []) ≡ none
smooth_step-edge_example =
    smooth_step-edge level (pos 1 ∷ pos 10922 ∷ pos 5 ∷ []) 3 1 1 (pos 1 ∷ pos 0 ∷ pos 0 ∷ [])
      (pos 10922) (pos 0) refl refl refl refl refl (inl (omega arith))

-- Two loud samples and a quiet one, in bytes, and an odd byte.
abbrev recording : List ℕ
recording = 32 ∷ 78 ∷ 224 ∷ 177 ∷ 5 ∷ 0 ∷ 9 ∷ []

obtencion_datos_lem_example :
    obtencion_datos fractions recording gain_3 (λ _. pos 0) (λ _. pos 1) ≡ (
      traverse (saturado fractions (fractions.atof gain_3)) (samples recording) >>= λ ss.
      some (record { size_of_data = 3; brutos = samples recording; saturados = ss }))
obtencion_datos_lem_example =
    obtencion_datos_lem fractions recording gain_3 (λ _. pos 0) (λ _. pos 1)

recording_loaded :
    obtencion_datos fractions recording gain_3 (λ _. pos 0) (λ _. pos 1)
    ≡ some (record {
      size_of_data = 3;
      brutos = pos 20000 ∷ negsuc 19999 ∷ pos 5 ∷ [];
      saturados = pos 10922 ∷ negsuc 10921 ∷ pos 5 ∷ [];
    })
unfolding obtencion_datos count_samples fill_samples saturado fractions i32 write?
recording_loaded = refl
