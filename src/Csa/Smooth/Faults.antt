-- ===== src/Csa/Smooth/Faults.antt =====
-- Where `suavizamientoDeSaturacion` of tarea2/src/csa.c leaves its arrays.
use native.Mathlib.Nat.{add-zero}
use tareas_elo.Common.{
  ℕ, zero, suc, ◌+◌, ◌≤◌, ◌<◌, ◌≡◌, none, some, List, length, get_elem?, ◌>>=◌, arith, true, false,
  write?-inside, write?-outside, length-set, set, get_elem?-outside, ◌⊎◌, inl, inr,
  get_elem?-some-lt, ◌==◌, ap, >>=-none, dec_lt,
}
use tareas_elo.Common.Int.{ℤ, sub_ℕ, read?}
use tareas_elo.Csa.Smooth.{Limits, is_saturated, block_length, fill, repair, smooth_step}
use tareas_elo.Csa.Smooth.Loop.{block_length-zero}

-- Writes of one value that go past the end of the array fault.
fill-overrun :
    (v : ℤ) (rounds k : ℕ) (out : List ℤ)
    → k ≤ length out
    → length out < k + rounds
    → fill (λ _. some v) rounds k out ≡ none
unfolding fill
fill-overrun v zero k out le lt = absurd (omega arith)
fill-overrun v (suc rounds) k out le lt = elim (dec_lt k (length out)) [
  | yes inside ↦ rw (write?-inside out k v inside) (
      fill-overrun v rounds (k + 1) (set out k v) (omega (arith, length-set out k v))
        (omega (arith, length-set out k v)))
  | no outside ↦ rw (write?-outside out k v (omega arith))
]

-- At a sample of the signal from which on the fresh memory, of n entries, holds levels up to its
-- end, the loop that copies the last level writes behind the array.
pub repair-tail :
    (l : Limits) (saturados : List ℤ) (n rounds i j : ℕ) (out : List ℤ) (v : ℤ)
    → get_elem? saturados i ≡ some v
    → length out ≡ n
    → block_length l out rounds i ≡ some j
    → i + j ≡ n
    → repair l saturados n rounds i out ≡ none
unfolding repair
repair-tail l saturados n rounds i j out v at size block e =
    rw (block, at_end, at, fill-overrun v (suc j) i out (omega arith) (omega arith))
  where
    at_end : (i + j == n) ≡ true
    at_end = ground arith

-- With fresh memory that holds no level at i, a saturated sample among the first three or the last
-- two makes the round fault: the polynomial wants samples outside the array.
pub smooth_step-edge :
    (l : Limits) (saturados : List ℤ) (n rounds i : ℕ) (out : List ℤ) (v g : ℤ)
    → get_elem? saturados i ≡ some v
    → is_saturated l v ≡ true
    → get_elem? out i ≡ some g
    → is_saturated l g ≡ false
    → length saturados ≡ n
    → (i < 3) ⊎ (n ≤ i + 2)
    → smooth_step l saturados n (suc rounds) i out ≡ none
unfolding smooth_step repair
smooth_step-edge l saturados n rounds i out v g at level own keep size edge =
    rw (at, level, block_length-zero l out rounds i g own keep)
      (rw (add-zero i, not_last)
        (elim edge [
          | inl early ↦ rw (before_array early)
          | inr late ↦
              ap (λ m. m >>= λ next. some (0, next))
                (>>=-none (read? out (sub_ℕ i 3)) _ λ v0. >>=-none (read? out (sub_ℕ i 2)) _ λ v1.
                  >>=-none (read? out (sub_ℕ i 1)) _
                    λ v2. >>=-none (get_elem? saturados (i + 1)) _ λ w0. rw (behind_array late))
        ]))
  where
    not_last : (i == n) ≡ false
    not_last = ground (arith, get_elem?-some-lt saturados i v at)

    before_array : i < 3 → read? out (sub_ℕ i 3) ≡ none
    before_array early = ground arith

    behind_array : n ≤ i + 2 → get_elem? saturados (i + 2) ≡ none
    behind_array late = get_elem?-outside saturados (i + 2) (omega arith)
