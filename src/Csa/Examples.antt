-- ===== src/Csa/Examples.antt =====
-- csa.c (tarea2/src): the theorems about loading, reporting and whole runs at concrete inputs.
use tareas_elo.Common.{
  ◌-◌, if◌then◌else◌, ◌^◌, true, false, ap, sym, ℕ, zero, suc, ◌≡◌, refl, Option, none, some, List,
  [], ◌∷◌, ◌++◌, get_elem?, arith, replicate, map, Bool, subst, ◌≤◌, length, ◌<◌,
}
use tareas_elo.Common.Doubles.{convert, fractions, fractions-SignLaws}
use tareas_elo.Common.Int.{ltb_ℤ, ℤ, pos, negsuc, ◌-ℤ◌, i32}
use tareas_elo.Csa.Load.{abs, saturado}
use tareas_elo.Csa.Report.{
  Played, listing, plot_commands, generacion_graficos, calculo_de_error, reproducir,
}
use tareas_elo.Csa.Report.Window.{times, window, generacion_graficos-window}
use native.Mathlib.Nat.{le_refl}
use tareas_elo.Common.Text.{atoi}
use tareas_elo.Csa.Load.Level.{level_of, saturado-level}
use tareas_elo.Csa.Load.Pass.{traverse}
use tareas_elo.Csa.Samples.{samples}
use tareas_elo.Csa.Smooth.{Limits, limits, is_saturated}
use tareas_elo.Csa.Report.Error.{signed_squares, calculo_de_error-exact}
use tareas_elo.Csa.Report.Playback.{AllInt16, written, samples-written, reproducir-samples}
use tareas_elo.Csa.Program.{
  World, parent, exited, to_octave, report_error, protocolo_de_salida, main, wants_audio,
}
use tareas_elo.Csa.Program.Quiet.{QuietRun, main-quiet}

abbrev gain_3 : List ℕ
gain_3 = b'3' ∷ []

abbrev level : Limits
level = record { superior = pos 10922; inferior = negsuc 10921 }

levels : limits fractions (fractions.atof gain_3) ≡ some level
unfolding limits fractions
levels = refl

loud : fractions.lt (fractions.of_int (pos 1)) (fractions.atof gain_3) ≡ true
unfolding fractions
loud = refl

clipped : saturado fractions (fractions.atof gain_3) (negsuc 19999) ≡ some (negsuc 10921)
unfolding saturado fractions i32
clipped = refl

saturado-level_example :
    (amplified : ℤ) × (convert fractions
        (2 ^ 31)
        (fractions.mul (fractions.atof gain_3) (fractions.of_int (negsuc 19999)))
      ≡ some amplified)
    × (negsuc 10921 ≡ (
        if ltb_ℤ (abs amplified) (pos 0x7fff) then negsuc 19999 else level_of level (negsuc 19999)))
saturado-level_example =
    saturado-level fractions fractions-SignLaws (fractions.atof gain_3) level (negsuc 19999)
      (negsuc 10921) (omega arith) loud levels clipped

calculo_de_error-exact_example :
    calculo_de_error (pos 5 ∷ negsuc 2 ∷ []) (pos 2 ∷ pos 4 ∷ []) 2
    ≡ some (signed_squares (pos 5 ∷ negsuc 2 ∷ []) (pos 2 ∷ pos 4 ∷ []))
calculo_de_error-exact_example =
    calculo_de_error-exact (pos 5 ∷ negsuc 2 ∷ []) (pos 2 ∷ pos 4 ∷ []) (unfold ◌-ℤ◌ in omega arith)
      refl (omega arith)

-- A window of 320 samples, all of them 7.
abbrev tone : List ℤ
tone = replicate 320 (pos 7)

generacion_graficos-window_example :
    generacion_graficos tone tone tone (pos 0)
    ≡ some (
        listing "datosBrutos = [ " (window 0 tone)
        ++ (listing "datosSaturados = [ " (window 0 tone)
            ++ (listing "datosSuavizados = [ " (window 0 tone)
                ++ (listing "tiempo = [ " (times 320 0) ++ plot_commands))))
generacion_graficos-window_example =
    generacion_graficos-window tone tone tone 0 (omega arith) (le_refl 320) refl refl

reproducir-samples_example :
    (played : Played) × (reproducir (λ n. n - 1) (pos 300 ∷ []) (negsuc 299 ∷ []) (pos 0 ∷ []) 1
      ≡ some played)
    × (samples played.streams.normal ≡ pos 300 ∷ [])
    × (samples played.streams.saturado ≡ negsuc 299 ∷ [])
    × (samples played.streams.suavizado ≡ pos 0 ∷ [])
    × (samples played.files.normal ≡ [])
    × (samples played.files.saturado ≡ [])
    × (samples played.files.suavizado ≡ [])
reproducir-samples_example =
    reproducir-samples (λ n. n - 1) (pos 300 ∷ []) (negsuc 299 ∷ []) (pos 0 ∷ []) (refl, refl)
      (omega arith)

abbrev args : List (List ℕ)
args = (b'c' ∷ []) ∷ (b'a' ∷ []) ∷ gain_3 ∷ (b'0' ∷ []) ∷ []

abbrev world : World
world = record {
  file = λ path. some (written tone);
  pipe_ok = true;
  fork = parent;
  exec_ok = true;
  junk_brutos = λ _. pos 0;
  junk_saturados = λ _. pos 0;
  junk_suavizados = λ _. pos 0;
  flushed = λ n. 0;
}

AllInt16-tone : (n : ℕ) → AllInt16 (replicate n (pos 7))
AllInt16-tone zero = tt
AllInt16-tone (suc n) = (omega arith, AllInt16-tone n)

clean-tone :
    (n k : ℕ) (v : ℤ) → get_elem? (replicate n (pos 7)) k ≡ some v → is_saturated level v ≡ false
clean-tone zero k v h = absurd cc
clean-tone (suc n) (suc k) v h = clean-tone n k v h
clean-tone (suc n) zero v h = ap at_some (sym h)
  where
    at_some : Option ℤ → Bool
    at_some o = elim o [ none ↦ false | some w ↦ is_saturated level w ]

quiet_7 : saturado fractions (fractions.atof gain_3) (pos 7) ≡ some (pos 7)
unfolding saturado fractions i32
quiet_7 = refl

traverse-tone :
    (f : ℤ → Option ℤ) (n : ℕ)
    → f (pos 7) ≡ some (pos 7)
    → traverse f (replicate n (pos 7)) ≡ some (replicate n (pos 7))
traverse-tone f zero h = refl
traverse-tone f (suc n) h = rw (h, traverse-tone f n h)

no_audio : wants_audio args ≡ false
unfolding wants_audio
no_audio = refl

from_start : atoi (b'0' ∷ []) ≡ pos 0
unfolding atoi
from_start = refl

recorded : samples (written tone) ≡ tone
recorded = samples-written tone (AllInt16-tone 320)

tone_run : QuietRun fractions world args
tone_run = record {
  path = b'a' ∷ [];
  ganancia = gain_3;
  offset = b'0' ∷ [];
  file = written tone;
  l = level;
  o = 0;
  octave = (refl, refl);
  args = (refl, refl, refl, omega arith, no_audio);
  opened = refl;
  int16 = subst AllInt16 (sym recorded) (AllInt16-tone 320);
  levels = levels;
  soft =
      subst (λ vs. traverse (saturado fractions (fractions.atof gain_3)) vs ≡ some vs)
        (sym recorded) (traverse-tone (saturado fractions (fractions.atof gain_3)) 320 quiet_7);
  clean =
      subst (λ vs. (k : ℕ) (v : ℤ) → get_elem? vs k ≡ some v → is_saturated level v ≡ false)
        (sym recorded) (clean-tone 320);
  start = from_start;
  inside = subst (λ vs. 320 ≤ length vs) (sym recorded) (le_refl 320);
  small = subst (λ vs. length vs < 2 ^ 31) (sym recorded) (omega arith);
}

main-quiet_example :
    main fractions world args
    ≡ exited (pos 0) (
        map to_octave (
          listing "datosBrutos = [ " (window 0 (samples (written tone)))
          ++ (listing "datosSaturados = [ " (window 0 (samples (written tone)))
              ++ (listing "datosSuavizados = [ " (window 0 (samples (written tone)))
                  ++ (listing "tiempo = [ " (times 320 0) ++ plot_commands))))
        ++ (report_error (pos 0) ∷ protocolo_de_salida))
unfolding tone_run
main-quiet_example = main-quiet fractions world args tone_run
