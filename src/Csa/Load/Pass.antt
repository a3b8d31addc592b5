-- ===== src/Csa/Load/Pass.antt =====
-- The two passes of `obtencionDatos` agree with one pass over the samples of the file.
use tareas_elo.Common.{
  ℕ, zero, suc, ◌+◌, ◌-◌, ◌*◌, ◌^◌, ◌≤◌, ◌≡◌, refl, ap, Option, some, List, [], ◌∷◌, ◌++◌, arith,
  ltb, if◌then◌else◌, length, Option-cases, inl, inr, write?-append, ◌>>=◌, ◌∙◌, length-append,
  append_assoc, none, ◌<◌, dec_lt, ltb_of_lt, ltb_of_le,
}
use native.Mathlib.Nat.{zero-add}
use tareas_elo.Common.Int.{ℤ, pos, negsuc}
use tareas_elo.Common.Doubles.{Doubles}
use tareas_elo.Csa.Samples.{samples}
use tareas_elo.Csa.Load.{
  increment, malloc, count_samples, saturado, fill_samples, Datos, obtencion_datos,
}

-- What the loop computes, without indices: every sample through `f`, if none faults.
abbrev pub traverse : (ℤ → Option ℤ) → List ℤ → Option (List ℤ)
traverse f [] = some []
traverse f (x ∷ xs) = f x >>= λ y. traverse f xs >>= λ ys. some (y ∷ ys)

-- A number that an int holds, or a fault.
abbrev pub as_int : ℕ → Option ℕ
as_int n = if ltb n (2 ^ 31) then some n else none

increment-small : (i : ℕ) → i + 1 < 2 ^ 31 → increment i ≡ some (i + 1)
increment-small i h = rw (ltb_of_lt (i + 1) (2 ^ 31) h) refl

count_samples_lem :
    (fuel : ℕ) (file : List ℕ) (i : ℕ)
    → length file ≤ fuel
    → i < 2 ^ 31
    → count_samples fuel file i ≡ as_int (i + length (samples file))
unfolding count_samples
count_samples_lem zero [] i h small = ground arith
count_samples_lem zero (x ∷ xs) i h small = absurd (omega arith)
count_samples_lem (suc f) [] i h small = ground arith
count_samples_lem (suc f) (x ∷ []) i h small = ground arith
count_samples_lem (suc f) (lo ∷ hi ∷ rest) i h small = elim (dec_lt (i + 1) (2 ^ 31)) [
  | yes fits ↦
      rw (increment-small i fits)
        (count_samples_lem f rest (i + 1) (omega arith) fits ∙ ap as_int (omega arith))
  | no large ↦
      rw
        (
          ltb_of_le (i + 1) (2 ^ 31) (omega arith),
          ltb_of_le (i + suc (length (samples rest))) (2 ^ 31) (omega arith),
        )
        refl
]

pub length-malloc : (n : ℕ) (junk : ℕ → ℤ) → length (malloc junk n) ≡ n
length-malloc zero junk = refl
length-malloc (suc n) junk = ap suc (length-malloc n (λ i. junk (suc i)))

module _ (d : Doubles) (g : d.Double) where
  abbrev joined : List ℤ → List ℤ → List ℤ → Option (List ℤ × List ℤ)
  joined bs ss vs = traverse (saturado d g) vs >>= λ ys. some (bs ++ vs, ss ++ ys)

  fill_samples_lem :
      (fuel : ℕ) (file : List ℕ) (bs ss bs' ss' : List ℤ)
      → length file ≤ fuel
      → length bs ≡ length ss
      → length bs' ≡ length (samples file)
      → length ss' ≡ length (samples file)
      → length bs + length (samples file) < 2 ^ 31
      → fill_samples d g fuel file (length bs) (bs ++ bs') (ss ++ ss') ≡ joined bs ss (samples file)
  unfolding fill_samples
  fill_samples_lem zero [] bs ss [] [] h e e' e'' small = refl
  fill_samples_lem (suc f) [] bs ss [] [] h e e' e'' small = refl
  fill_samples_lem (suc f) (x ∷ []) bs ss [] [] h e e' e'' small = refl
  fill_samples_lem (suc f) (lo ∷ hi ∷ rest) bs ss (y ∷ bs') (z ∷ ss') h e e' e'' small =
      elim (Option-cases (saturado d g v)) [
        | inl bad ↦ rw (write?-append bs y bs' v, bad)
        | inr (s, good) ↦
            rw
              (
                write?-append bs y bs' v,
                good,
                e,
                write?-append ss z ss' s,
                increment-small (length ss) (omega arith),
              )
              (next s (
                fill_samples_lem f rest (bs ++ (v ∷ [])) (ss ++ (s ∷ [])) bs' ss' (omega arith)
                  (omega (arith, length-append bs (v ∷ []), length-append ss (s ∷ [])))
                  (omega arith) (omega arith) (omega (arith, length-append bs (v ∷ [])))))
      ]
    where
      v : ℤ
      v = if ltb hi 128 then pos (lo + 256 * hi) else negsuc (2 ^ 16 - 1 - (lo + 256 * hi))

      next :
          (s : ℤ)
          → fill_samples d g f rest
              (length (bs ++ (v ∷ [])))
              ((bs ++ (v ∷ [])) ++ bs')
              ((ss ++ (s ∷ [])) ++ ss')
            ≡ joined (bs ++ (v ∷ [])) (ss ++ (s ∷ [])) (samples rest)
          → fill_samples d g f rest
              (length ss + 1)
              ((bs ++ (v ∷ [])) ++ bs')
              ((ss ++ (s ∷ [])) ++ ss')
            ≡ (traverse (saturado d g) (samples rest)
                >>= (λ ys. some (s ∷ ys))
                >>= (λ ys. some (bs ++ (v ∷ samples rest), ss ++ ys)))
      next s ih = elim (Option-cases (traverse (saturado d g) (samples rest))) [
        | inl t ↦ rw t (rw (← count) (ih ∙ (rw t)))
        | inr (ys, t) ↦ rw t (
            rw (← count, ← append_assoc bs (v ∷ []) (samples rest), ← append_assoc ss (s ∷ []) ys)
              (ih ∙ (rw t)))
      ]
        where
          count : length (bs ++ (v ∷ [])) ≡ length ss + 1
          count = omega (arith, length-append bs (v ∷ []))
  fill_samples_lem _ _ bs ss bs' ss' h e e' e'' small = absurd (omega arith)

-- In every case, errors included: with fewer than 2 ^ 31 samples `datosBrutos` holds the samples of
-- the file in order, and `datosSaturados` the saturated version of each, where a fault comes only
-- from `saturado`; with more of them the int that counts them overflows, a fault.
pub obtencion_datos_lem :
    (d : Doubles) (file ganancia : List ℕ) (junk junk' : ℕ → ℤ)
    → obtencion_datos d file ganancia junk junk' ≡ (
        if ltb (length (samples file)) (2 ^ 31)
        then (traverse (saturado d (d.atof ganancia)) (samples file) >>= λ ss. some (record {
          size_of_data = length (samples file);
          brutos = samples file;
          saturados = ss;
        }))
        else none)
unfolding obtencion_datos
obtencion_datos_lem d file ganancia junk junk' = elim (dec_lt m (2 ^ 31)) [
  | yes small ↦
      rw
        (
          count_samples_lem (length file) file 0 (omega arith) (omega arith),
          zero-add,
          ltb_of_lt m (2 ^ 31) small,
          filled small,
        )
        joined-some
  | no large ↦
      rw
        (
          count_samples_lem (length file) file 0 (omega arith) (omega arith),
          zero-add,
          ltb_of_le m (2 ^ 31) (omega arith),
        )
        refl
]
  where
    m : ℕ
    m = length (samples file)

    filled :
        m < 2 ^ 31
        → fill_samples d (d.atof ganancia) (length file) file 0 (malloc junk m) (malloc junk' m)
          ≡ joined d (d.atof ganancia) [] [] (samples file)
    filled small =
        fill_samples_lem d (d.atof ganancia) (length file) file [] [] (malloc junk m)
          (malloc junk' m) (omega arith) refl (length-malloc m junk) (length-malloc m junk')
          (omega arith)

    joined-some :
        ◌≡◌ {A = Option Datos}
          (joined d (d.atof ganancia) [] [] (samples file) >>= λ both.
            some (record { size_of_data = m; brutos = both.0; saturados = both.1 }))
          (traverse (saturado d (d.atof ganancia)) (samples file) >>= λ ss.
            some (record { size_of_data = m; brutos = samples file; saturados = ss }))
    joined-some = elim (Option-cases (traverse (saturado d (d.atof ganancia)) (samples file))) [
      | inl t ↦ rw t
      | inr (ys, t) ↦ rw t
    ]
