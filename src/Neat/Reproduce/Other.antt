-- ===== src/Neat/Reproduce/Other.antt =====
-- The loop that draws another niche (proyecto/NEAT/src/NEAT.cpp).
use tareas_elo.Common.{
  ℕ, zero, suc, ◌+◌, ◌%◌, ◌<◌, ◌≡◌, refl, some, true, false, ◌==◌, arith, ap, ap₂, sym, subst, ◌∙◌,
}
use tareas_elo.Common.Int.{ℤ, pos, eqb_ℤ}
use tareas_elo.Neat.Population.{Population, ◌>>=◌, pure, rand}
use tareas_elo.Neat.Reproduce.{other_niche}

-- With at least two niches, the loop ends at the first draw of a niche that is not the organism's,
-- and returns it, however many tries it has beyond that.
pub other_niche-first :
    {D : Type 0} (tries k amount : ℕ) (niche : ℤ) (p : Population D)
    → 1 < amount
    → k < tries
    → ((j : ℕ) → j < k → eqb_ℤ (pos (p.draws j % amount)) niche ≡ true)
    → eqb_ℤ (pos (p.draws k % amount)) niche ≡ false
    → other_niche tries niche amount p
      ≡ some (some (p.draws k % amount), record p { draws = λ j. p.draws (j + (k + 1)) })
unfolding other_niche ◌>>=◌ rand pure
other_niche-first zero k amount niche p many inside same other = elim inside [ ]
other_niche-first (suc tries) zero amount niche p many inside same other =
    rw (not_empty, other) refl
  where
    not_empty : (amount == 0) ≡ false
    not_empty = ground arith
other_niche-first (suc tries) (suc k) amount niche p many inside same other =
    rw (not_empty, same 0 (omega arith), not_one)
      (other_niche-first tries k amount niche (record p { draws = λ j. p.draws (j + 1) }) many
          (omega arith) (λ j h. same' j h) other'
        ∙ ap₂ (λ v draws. some (some (v % amount), record p { draws = draws }))
            (ap p.draws one_more) (λ i j. p.draws (shifted j i)))
  where
    not_empty : (amount == 0) ≡ false
    not_empty = ground arith

    not_one : (amount == 1) ≡ false
    not_one = ground arith

    same' : (j : ℕ) → j < k → eqb_ℤ (pos (p.draws (j + 1) % amount)) niche ≡ true
    same' j h = same (j + 1) (omega arith)

    one_more : k + 1 ≡ suc k
    one_more = omega arith

    shifted : (j : ℕ) → j + (k + 1) + 1 ≡ j + (suc k + 1)
    shifted j = omega arith

    other' : eqb_ℤ (pos (p.draws (k + 1) % amount)) niche ≡ false
    other' = subst (λ n. eqb_ℤ (pos (p.draws n % amount)) niche ≡ false) (sym one_more) other
