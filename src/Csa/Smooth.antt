-- ===== src/Csa/Smooth.antt =====
-- `suavizamientoDeSaturacion` of tarea2/src/csa.c: each block of saturated samples is replaced by
-- the Lagrange polynomial through three samples before it and two behind it. `int` arithmetic wraps
-- at 32 bits, the stores at 16, and an access outside an array is a fault (`none`).
pub mod Formula
pub mod Loop
pub mod Correct
pub mod Faults
use tareas_elo.Common.{
  ℕ, zero, suc, ◌+◌, ◌-◌, ◌^◌, ◌≡◌, refl, Option, none, some, List, [], ◌∷◌, if◌then◌else◌, length,
  get_elem?, write?, ◌>>=◌, Bool, true, false, ◌||◌, ◌==◌,
}
use tareas_elo.Common.Int.{ℤ, pos, negsuc, ◌+ℤ◌, ◌-ℤ◌, ◌*ℤ◌, sub_ℕ, i16, i32, div?, read?, eqb_ℤ}
use tareas_elo.Common.Doubles.{Doubles, convert}

-- `saturado_superior` and `saturado_inferior`.
pub record Limits : Type 0 where
  pub superior : ℤ
  pub inferior : ℤ

unfoldable pub limits : (d : Doubles) → d.Double → Option Limits
limits d ganancia =
    if d.lt (d.of_int (pos 1)) ganancia
    then (convert d (2 ^ 15) (d.div (d.of_int (pos 0x7fff)) ganancia) >>= λ superior.
        convert d (2 ^ 15) (d.div (d.of_int (negsuc 0x7ffe)) ganancia) >>= λ inferior.
        some (record { superior = superior; inferior = inferior }))
    else some (record { superior = pos 0x7fff; inferior = negsuc 0x7ffe })

abbrev pub is_saturated : Limits → ℤ → Bool
is_saturated l v = eqb_ℤ v l.superior || eqb_ℤ v l.inferior

-- `int` arithmetic.
infixl 65 ◌+i◌ ◌-i◌
infixl 70 ◌*i◌
unfoldable pub ◌+i◌ : ℤ → ℤ → ℤ
a +i b = i32 (a +ℤ b)

unfoldable pub ◌-i◌ : ℤ → ℤ → ℤ
a -i b = i32 (a -ℤ b)

unfoldable pub ◌*i◌ : ℤ → ℤ → ℤ
a *i b = i32 (a *ℤ b)

-- One summand: the sample `v` at `x`, for the point `k`, with the other four points a, b, c, e.
unfoldable pub summand : ℤ → ℤ → ℤ → ℤ → ℤ → ℤ → ℤ → Option ℤ
summand v k x a b c e =
    div? (v *i (k -i a) *i (k -i b) *i (k -i c) *i (k -i e))
      ((x -i a) *i (x -i b) *i (x -i c) *i (x -i e))

-- The right side of the assignment in the loop: i is where the block starts, i + j where it ends.
unfoldable pub lagrange : ℤ → ℤ → ℤ → ℤ → ℤ → ℤ → ℤ → ℤ → Option ℤ
lagrange v0 v1 v2 w0 w1 i j k =
    let x0 = i -i pos 3 in
    let x1 = i -i pos 2 in
    let x2 = i -i pos 1 in
    let y0 = i +i j +i pos 1 in
    let y1 = i +i j +i pos 2 in
    summand v0 k x0 x1 x2 y0 y1 >>= λ s0. summand v1 k x1 x0 x2 y0 y1 >>= λ s1.
    summand v2 k x2 x0 x1 y0 y1 >>= λ s2. summand w0 k y0 x0 x1 x2 y1 >>= λ s3.
    summand w1 k y1 x0 x1 x2 y0 >>= λ s4. some (i16 (s0 +i s1 +i s2 +i s3 +i s4))

-- `while (i + j < sizeOfData)`: how many entries from `p` = i + j on hold a saturation level. The
-- loop reads `datosSuavizados`, `rounds` entries of which are left.
unfoldable pub block_length : Limits → List ℤ → ℕ → ℕ → Option ℕ
block_length l suavizados zero p = some 0
block_length l suavizados (suc rounds) p =
    let rest = block_length l suavizados rounds (p + 1) in
    get_elem? suavizados p >>= λ v.
    if is_saturated l v then rest >>= (λ j. some (suc j)) else some 0

-- `for (k = i; k <= i + j; ++k) suavizados[k] = value k`, as `rounds` = j + 1 rounds.
unfoldable pub fill : (ℕ → Option ℤ) → ℕ → ℕ → List ℤ → Option (List ℤ)
fill value zero k suavizados = some suavizados
fill value (suc rounds) k suavizados =
    value k >>= λ v. write? suavizados k v >>= λ next. fill value rounds (k + 1) next

-- The `else` of the loop, at a saturated sample: j, and the array after the block is replaced.
unfoldable pub repair : Limits → List ℤ → ℕ → ℕ → ℕ → List ℤ → Option (ℕ × List ℤ)
repair l saturados n rounds i suavizados = block_length l suavizados rounds i >>= λ j.
    (if i + j == n
      then fill (λ k. get_elem? saturados i) (suc j) i suavizados
      else read? suavizados (sub_ℕ i 3) >>= λ v0. read? suavizados (sub_ℕ i 2) >>= λ v1.
          read? suavizados (sub_ℕ i 1) >>= λ v2. get_elem? saturados (i + j + 1) >>= λ w0.
          get_elem? saturados (i + j + 2) >>= λ w1.
          fill (λ k. lagrange v0 v1 v2 w0 w1 (pos i) (pos j) (pos k)) (suc j) i suavizados)
    >>= λ next. some (j, next)

-- One round of the `for` at i, with `rounds` indices left: j (0 for a sample kept), and the array.
unfoldable pub smooth_step : Limits → List ℤ → ℕ → ℕ → ℕ → List ℤ → Option (ℕ × List ℤ)
smooth_step l saturados n rounds i suavizados = get_elem? saturados i >>= λ v.
    if is_saturated l v
    then repair l saturados n rounds i suavizados
    else write? suavizados i v >>= λ next. some (0, next)

-- The `for`: `skip` of the `rounds` indices left are jumped over by `i = i + j`.
unfoldable pub smooth_loop : Limits → List ℤ → ℕ → ℕ → ℕ → ℕ → List ℤ → Option (List ℤ)
smooth_loop l saturados n zero skip i suavizados = some suavizados
smooth_loop l saturados n (suc rounds) (suc skip) i suavizados =
    smooth_loop l saturados n rounds skip (i + 1) suavizados
smooth_loop l saturados n (suc rounds) zero i suavizados =
    smooth_step l saturados n (suc rounds) i suavizados >>= λ r.
    smooth_loop l saturados n rounds r.0 (i + 1) r.1

-- `suavizados` is what `malloc` returned: the code does not clear it.
unfoldable pub suavizamiento_de_saturacion :
    (d : Doubles) → List ℤ → List ℤ → ℕ → List ℕ → Option (List ℤ)
suavizamiento_de_saturacion d saturados suavizados n ganancia =
    limits d (d.atof ganancia) >>= λ l. smooth_loop l saturados n n 0 0 suavizados
