-- ===== src/Csa/Report/Error.antt =====
-- What `calculoDeError` of tarea2/src/csa.c sums.
use tareas_elo.Common.{
  ℕ, zero, suc, ◌+◌, ◌*◌, ◌^◌, ◌≤◌, ◌<◌, ◌≡◌, refl, some, List, [], ◌∷◌, ◌++◌, length, get_elem?,
  arith, ap, get_elem?-middle, length-append, append_assoc, ◌∙◌,
}
use tareas_elo.Common.Int.{
  ℤ, pos, negsuc, pos_part, neg_part, magnitude, Fits, ◌+ℤ◌, ◌-ℤ◌, ◌*ℤ◌, i32-Fits, i64-Fits,
  int_laws,
}
use tareas_elo.Csa.Report.{error_term, error_loop, calculo_de_error}
use tareas_elo.Csa.Smooth.{◌-i◌, ◌*i◌}

-- The sum of |b - s| * (b - s), over the integers.
abbrev pub signed_squares : List ℤ → List ℤ → ℤ
signed_squares (b ∷ bs) (s ∷ ss) = pos (magnitude (b -ℤ s)) *ℤ (b -ℤ s) +ℤ signed_squares bs ss
signed_squares _ _ = pos 0

-- int16_t samples whose difference is at most 46340, the root of the largest int.
abbrev pub Near : List ℤ → List ℤ → Type 0
Near (b ∷ bs) (s ∷ ss) =
    Fits (2 ^ 15) b × Fits (2 ^ 15) s × (magnitude (b -ℤ s) ≤ 46340) × Near bs ss
Near _ _ = Unit

square_bound : (n : ℕ) → n ≤ 46340 → n * n < 2 ^ 31
square_bound n h = grind arith

square-Fits : (m : ℤ) → magnitude m ≤ 46340 → Fits (2 ^ 31) (pos (magnitude m) *ℤ m)
unfolding ◌*ℤ◌
square-Fits (pos n) h = ground (arith, square_bound n)
square-Fits (negsuc n) h = ground (arith, square_bound (suc n))

term_exact :
    (b s : ℤ)
    → Fits (2 ^ 15) b
    → Fits (2 ^ 15) s
    → magnitude (b -ℤ s) ≤ 46340
    → error_term b s ≡ pos (magnitude (b -ℤ s)) *ℤ (b -ℤ s)
unfolding ◌-i◌ ◌*i◌
term_exact b s hb hs near =
    rw (i32-Fits (b -ℤ s) (omega int_laws), i32-Fits (pos (magnitude (b -ℤ s))) (omega arith))
      (i32-Fits _ (square-Fits (b -ℤ s) near))

error_loop_lem :
    (bs ss bs' ss' : List ℤ) (i : ℕ) (acc : ℤ)
    → Near bs' ss'
    → length bs' ≡ length ss'
    → i ≡ length bs
    → i ≡ length ss
    → magnitude acc + length bs' * 2 ^ 31 ≤ 2 ^ 62
    → error_loop (bs ++ bs') (ss ++ ss') (length bs') i acc ≡ some (acc +ℤ signed_squares bs' ss')
unfolding error_loop
error_loop_lem bs ss [] [] i acc near size at at' room = ap some (omega int_laws)
error_loop_lem bs ss (b ∷ bs') (s ∷ ss') i acc (hb, hs, close, near) size at at' room =
    rw (here, here', term_exact b s hb hs close, i64-Fits (acc +ℤ term) fits)
      (moved (
          error_loop_lem (bs ++ (b ∷ [])) (ss ++ (s ∷ [])) bs' ss' (i + 1) (acc +ℤ term) near
            (omega arith) (omega (arith, length-append bs (b ∷ [])))
            (omega (arith, length-append ss (s ∷ []))) (omega (int_laws, term_fits)))
        ∙ ap some (omega int_laws))
  where
    term : ℤ
    term = pos (magnitude (b -ℤ s)) *ℤ (b -ℤ s)

    term_fits : Fits (2 ^ 31) term
    term_fits = square-Fits (b -ℤ s) close

    fits : Fits (2 ^ 63) (acc +ℤ term)
    fits = omega (int_laws, term_fits)

    here : get_elem? (bs ++ (b ∷ bs')) i ≡ some b
    here = rw at (get_elem?-middle bs b bs')

    here' : get_elem? (ss ++ (s ∷ ss')) i ≡ some s
    here' = rw at' (get_elem?-middle ss s ss')

    moved :
        error_loop
            ((bs ++ (b ∷ [])) ++ bs')
            ((ss ++ (s ∷ [])) ++ ss')
            (length bs')
            (i + 1)
            (acc +ℤ term)
          ≡ some (acc +ℤ term +ℤ signed_squares bs' ss')
        → error_loop (bs ++ (b ∷ bs')) (ss ++ (s ∷ ss')) (length bs') (i + 1) (acc +ℤ term)
          ≡ some (acc +ℤ term +ℤ signed_squares bs' ss')
    moved ih = rw (append_assoc bs (b ∷ []) bs', append_assoc ss (s ∷ []) ss') at ih
error_loop_lem bs ss [] (s ∷ ss') i acc near size at at' room = absurd (omega arith)
error_loop_lem bs ss (b ∷ bs') [] i acc near size at at' room = absurd (omega arith)

-- For int16_t signals of one length below 2 ^ 31 that nowhere differ by more than 46340, nothing
-- overflows, and what is printed is the sum of |b - s| * (b - s) over the integers.
pub calculo_de_error-exact :
    (brutos suavizados : List ℤ)
    → Near brutos suavizados
    → length brutos ≡ length suavizados
    → length brutos < 2 ^ 31
    → calculo_de_error brutos suavizados (length brutos) ≡ some (signed_squares brutos suavizados)
unfolding calculo_de_error
calculo_de_error-exact bs ss near size small =
    error_loop_lem [] [] bs ss 0 (pos 0) near size refl refl (omega arith)
    ∙ ap some (omega int_laws)

scale_opposite : (k : ℕ) (m : ℤ) → pos k *ℤ (pos 0 -ℤ m) +ℤ pos k *ℤ m ≡ pos 0
unfolding ◌+ℤ◌ ◌-ℤ◌ ◌*ℤ◌
scale_opposite k (pos zero) = ground arith
scale_opposite k (pos (suc n)) = ground arith
scale_opposite k (negsuc n) = ground arith

magnitude-opposite : (m : ℤ) → magnitude (pos 0 -ℤ m) ≡ magnitude m
unfolding ◌-ℤ◌
magnitude-opposite (pos n) = ground arith
magnitude-opposite (negsuc n) = ground arith

-- The summand changes its sign with the difference.
summand_odd :
    (b s : ℤ) → pos (magnitude (b -ℤ s)) *ℤ (b -ℤ s) +ℤ pos (magnitude (s -ℤ b)) *ℤ (s -ℤ b) ≡ pos 0
summand_odd b s = rw (opposite b s) (odd (s -ℤ b))
  where
    opposite : (b s : ℤ) → b -ℤ s ≡ pos 0 -ℤ (s -ℤ b)
    opposite b s = omega int_laws

    odd : (m : ℤ) → pos (magnitude (pos 0 -ℤ m)) *ℤ (pos 0 -ℤ m) +ℤ pos (magnitude m) *ℤ m ≡ pos 0
    odd m = rw (magnitude-opposite m) (scale_opposite (magnitude m) m)

-- For int16_t a and b that differ by at most 46340, the signals a, b and b, a have the error 0:
-- differences of opposite sign cancel.
pub calculo_de_error-cancels :
    (a b : ℤ)
    → Fits (2 ^ 15) a
    → Fits (2 ^ 15) b
    → magnitude (a -ℤ b) ≤ 46340
    → calculo_de_error (a ∷ b ∷ []) (b ∷ a ∷ []) 2 ≡ some (pos 0)
calculo_de_error-cancels a b ha hb near =
    calculo_de_error-exact (a ∷ b ∷ []) (b ∷ a ∷ []) (ha, hb, near, (hb, ha, omega int_laws, tt))
      refl (omega arith)
    ∙ ap some (omega (int_laws, ap pos_part (summand_odd a b), ap neg_part (summand_odd a b)))
