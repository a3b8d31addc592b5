-- ===== src/Csa/Report/Playback.antt =====
-- The files that `reproducir` of tarea2/src/csa.c writes, read back as samples.
use tareas_elo.Common.{
  ℕ, zero, suc, ◌*◌, ◌/◌, take, ◌+◌, ◌^◌, ◌≡◌, refl, some, List, [], ◌∷◌, ◌++◌, length, get_elem?,
  arith, get_elem?-middle, length-append, append_assoc, append-nil, ◌∙◌, ap,
}
use tareas_elo.Common.Int.{ℤ, pos, negsuc, Fits}
use tareas_elo.Csa.Report.{Audio, Played, write_loop, play_commands, reproducir}
use tareas_elo.Csa.Samples.{samples, fwrite}

abbrev pub written : List ℤ → List ℕ
written [] = []
written (v ∷ vs) = fwrite v ++ written vs

abbrev pub AllInt16 : List ℤ → Type 0
AllInt16 [] = Unit
AllInt16 (v ∷ vs) = Fits (2 ^ 15) v × AllInt16 vs

samples-fwrite :
    (v : ℤ) (rest : List ℕ) → Fits (2 ^ 15) v → samples (fwrite v ++ rest) ≡ v ∷ samples rest
samples-fwrite (pos n) rest h = ground arith
samples-fwrite (negsuc n) rest h = ground arith

pub samples-written : (vs : List ℤ) → AllInt16 vs → samples (written vs) ≡ vs
samples-written [] h = refl
samples-written (v ∷ vs) (h, hs) =
    samples-fwrite v (written vs) h ∙ ap (λ r. v ∷ r) (samples-written vs hs)

abbrev files : List ℤ → List ℤ → List ℤ → Audio → Audio
files bs ss ms f = record {
  normal = f.normal ++ written bs;
  saturado = f.saturado ++ written ss;
  suavizado = f.suavizado ++ written ms;
}

write_loop_lem :
    (b0 s0 m0 bs ss ms : List ℤ) (i : ℕ) (f : Audio)
    → (i ≡ length b0) × (i ≡ length s0) × (i ≡ length m0)
    → (length bs ≡ length ss) × (length bs ≡ length ms)
    → write_loop (b0 ++ bs) (s0 ++ ss) (m0 ++ ms) (length bs) i f ≡ some (files bs ss ms f)
unfolding write_loop
write_loop_lem b0 s0 m0 [] [] [] i f at size = rw (append-nil, append-nil, append-nil)
write_loop_lem b0 s0 m0 (b ∷ bs) (s ∷ ss) (m ∷ ms) i f (ib, is, im) size =
    rw (here b0 b bs ib, here s0 s ss is, here m0 m ms im)
      (rw
        (
          append_assoc b0 (b ∷ []) bs,
          append_assoc s0 (s ∷ []) ss,
          append_assoc m0 (m ∷ []) ms,
          append_assoc f.normal (fwrite b) (written bs),
          append_assoc f.saturado (fwrite s) (written ss),
          append_assoc f.suavizado (fwrite m) (written ms),
        )
        at
        (write_loop_lem (b0 ++ (b ∷ [])) (s0 ++ (s ∷ [])) (m0 ++ (m ∷ [])) bs ss ms (i + 1)
          (record {
            normal = f.normal ++ fwrite b;
            saturado = f.saturado ++ fwrite s;
            suavizado = f.suavizado ++ fwrite m;
          })
          (
            omega (arith, length-append b0 (b ∷ [])),
            omega (arith, length-append s0 (s ∷ [])),
            omega (arith, length-append m0 (m ∷ [])),
          )
          (omega arith)))
  where
    here :
        (xs : List ℤ) (y : ℤ) (ys : List ℤ) → i ≡ length xs → get_elem? (xs ++ (y ∷ ys)) i ≡ some y
    here xs y ys e = rw e (get_elem?-middle xs y ys)
write_loop_lem b0 s0 m0 [] [] (m ∷ ms) i f at size = absurd (omega arith)
write_loop_lem b0 s0 m0 [] (s ∷ ss) ms i f at size = absurd (omega arith)
write_loop_lem b0 s0 m0 (b ∷ bs) [] ms i f at size = absurd (omega arith)
write_loop_lem b0 s0 m0 (b ∷ bs) (s ∷ ss) [] i f at size = absurd (omega arith)

length-written : (vs : List ℤ) → length (written vs) ≡ 2 * length vs
length-written [] = refl
length-written (pos n ∷ vs) = omega (arith, length-written vs)
length-written (negsuc n ∷ vs) = omega (arith, length-written vs)

take-fwrite :
    (k : ℕ) (v : ℤ) (rest : List ℕ)
    → take (suc (suc k)) (fwrite v ++ rest) ≡ fwrite v ++ take k rest
take-fwrite k (pos n) rest = refl
take-fwrite k (negsuc n) rest = refl

no_sample : (v : ℤ) (rest : List ℕ) → samples (take 1 (fwrite v ++ rest)) ≡ []
no_sample (pos n) rest = refl
no_sample (negsuc n) rest = refl

half : (k : ℕ) → suc (k / 2) ≡ suc (suc k) / 2
half k = omega arith

-- A file that is cut short holds the samples of which both bytes are there.
samples-take : (k : ℕ) (vs : List ℤ) → AllInt16 vs → samples (take k (written vs)) ≡ take (k / 2) vs
samples-take zero vs h = refl
samples-take (suc zero) [] h = refl
samples-take (suc zero) (v ∷ vs) h = no_sample v (written vs)
samples-take (suc (suc k)) [] h = ap (λ n. take n []) (half k)
samples-take (suc (suc k)) (v ∷ vs) (h, hs) =
    ap samples (take-fwrite k v (written vs))
    ∙ samples-fwrite v (take k (written vs)) h
    ∙ ap (λ r. v ∷ r) (samples-take k vs hs)
    ∙ ap (λ n. take n (v ∷ vs)) (half k)

-- For three int16_t signals of one length, `reproducir` faults nowhere, and each of its streams reads
-- back, sample by sample, as the signal that it was made from. The file of a stream, when it is
-- played, reads back as the first samples of the signal, as many as have both bytes flushed.
pub reproducir-samples :
    (flushed : ℕ → ℕ) (brutos saturados suavizados : List ℤ)
    → (length brutos ≡ length saturados) × (length brutos ≡ length suavizados)
    → AllInt16 brutos × AllInt16 saturados × AllInt16 suavizados
    → (played : Played) × (reproducir flushed brutos saturados suavizados (length brutos)
        ≡ some played)
      × (samples played.streams.normal ≡ brutos)
      × (samples played.streams.saturado ≡ saturados)
      × (samples played.streams.suavizado ≡ suavizados)
      × (samples played.files.normal ≡ take (flushed (2 * length brutos) / 2) brutos)
      × (samples played.files.saturado ≡ take (flushed (2 * length saturados) / 2) saturados)
      × (samples played.files.suavizado ≡ take (flushed (2 * length suavizados) / 2) suavizados)
unfolding reproducir
reproducir-samples flushed bs ss ms size (hb, hs, hm) = (
  record {
    streams = record { normal = written bs; saturado = written ss; suavizado = written ms };
    files = record {
      normal = take (flushed (length (written bs))) (written bs);
      saturado = take (flushed (length (written ss))) (written ss);
      suavizado = take (flushed (length (written ms))) (written ms);
    };
    commands = play_commands;
  },
  rw
      (write_loop_lem [] [] [] bs ss ms 0 (record { normal = []; saturado = []; suavizado = [] })
        (refl, refl, refl) size)
      refl,
  samples-written bs hb,
  samples-written ss hs,
  samples-written ms hm,
  cut_short bs hb,
  cut_short ss hs,
  cut_short ms hm,
)
  where
    cut_short :
        (vs : List ℤ)
        → AllInt16 vs
        → samples (take (flushed (length (written vs))) (written vs))
          ≡ take (flushed (2 * length vs) / 2) vs
    cut_short vs h =
        samples-take (flushed (length (written vs))) vs h
        ∙ ap (λ n. take (flushed n / 2) vs) (length-written vs)
