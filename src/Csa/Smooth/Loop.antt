-- ===== src/Csa/Smooth/Loop.antt =====
-- The loop of `suavizamientoDeSaturacion` on a signal whose first three and last two samples are
-- not saturated, with fresh memory that holds no saturation level.
use tareas_elo.Common.{
  ℕ, zero, suc, ◌+◌, ◌-◌, ◌^◌, ◌≤◌, ◌<◌, ◌≡◌, refl, Option, some, List, length, get_elem?, set,
  ◌>>=◌, arith, true, false, if◌then◌else◌, length-set, get_elem?-set_self, get_elem?-set_ne,
  get_elem?-inside, write?-inside, Bool-cases, inl, inr, ◌∙◌, sym, ◌==◌, subst, ℕ_discrete,
}
use native.Mathlib.Nat.{add-zero}
use tareas_elo.Common.Int.{ℤ, pos, i16, Fits, Fits-i16, sub_ℕ, read?}
use tareas_elo.Csa.Smooth.{
  Limits, is_saturated, lagrange, block_length, fill, repair, smooth_step, smooth_loop,
}
use tareas_elo.Csa.Smooth.Formula.{middle, lagrange-middle}

-- What the smoothed signal holds at k, where the saturated one holds v: v itself unless it is a
-- saturation level, else the middle value of the polynomial through the three smoothed samples
-- before it and the two samples behind it.
abbrev pub expected : Limits → List ℤ → List ℤ → ℕ → ℤ → Option ℤ
expected l saturados out k v =
    if is_saturated l v
    then (get_elem? out (k - 3) >>= λ v0. get_elem? out (k - 2) >>= λ v1.
        get_elem? out (k - 1) >>= λ v2. get_elem? saturados (k + 1) >>= λ w0.
        get_elem? saturados (k + 2) >>= λ w1. some (i16 (middle v0 v1 v2 w0 w1)))
    else some v

-- The conditions on the input.
pub record Interior (l : Limits) (saturados : List ℤ) : Type 0 where
  pub small : length saturados < 2 ^ 30
  pub int16 : (k : ℕ) (v : ℤ) → get_elem? saturados k ≡ some v → Fits (2 ^ 15) v
  pub inside :
      (k : ℕ) (v : ℤ)
      → get_elem? saturados k ≡ some v
      → is_saturated l v ≡ true
      → (3 ≤ k) × (k + 2 < length saturados)

pub record Fresh (l : Limits) (n : ℕ) (junk : List ℤ) : Type 0 where
  pub size : length junk ≡ n
  pub no_level : (k : ℕ) (v : ℤ) → get_elem? junk k ≡ some v → is_saturated l v ≡ false

pub read?-back : (out : List ℤ) (i k : ℕ) → k ≤ i → read? out (sub_ℕ i k) ≡ get_elem? out (i - k)
read?-back out i k h = ground arith

pub block_length-zero :
    (l : Limits) (out : List ℤ) (rounds i : ℕ) (g : ℤ)
    → get_elem? out i ≡ some g
    → is_saturated l g ≡ false
    → block_length l out (suc rounds) i ≡ some 0
unfolding block_length
block_length-zero l out rounds i g own keep = rw (own, keep)

fill-one :
    (value : ℕ → Option ℤ) (i : ℕ) (out : List ℤ) (v : ℤ)
    → value i ≡ some v
    → i < length out
    → fill value 1 i out ≡ some (set out i v)
unfolding fill
fill-one value i out v e lt = rw (e, write?-inside out i v lt)

-- The repair of a block of one sample.
repair_one :
    (l : Limits) (saturados : List ℤ) (n rounds i : ℕ) (out : List ℤ) (g v0 v1 v2 w0 w1 : ℤ)
    {new : ℤ}
    → 3 ≤ i
    → i < n
    → i < length out
    → (get_elem? out i ≡ some g) × (is_saturated l g ≡ false)
    → (get_elem? out (i - 3) ≡ some v0)
      × (get_elem? out (i - 2) ≡ some v1)
      × (get_elem? out (i - 1) ≡ some v2)
      × (get_elem? saturados (i + 1) ≡ some w0)
      × (get_elem? saturados (i + 2) ≡ some w1)
    → lagrange v0 v1 v2 w0 w1 (pos i) (pos 0) (pos i) ≡ some new
    → repair l saturados n (suc rounds) i out ≡ some (0, set out i new)
unfolding repair
repair_one l saturados n rounds i out g v0 v1 v2 w0 w1 {new} far lt room (own, keep)
      (r0, r1, r2, s0, s1) e =
    rw (block_length-zero l out rounds i g own keep) (
      rw (
        add-zero i,
        not_last,
        read?-back out i 3 far,
        r0,
        read?-back out i 2 (omega arith),
        r1,
        read?-back out i 1 (omega arith),
        r2,
        s0,
        s1,
        fill-one _ i out new e room,
      ))
  where
    not_last : (i == n) ≡ false
    not_last = ground arith

module _ (l : Limits) (saturados junk : List ℤ) where
  abbrev pub n : ℕ
  n = length saturados

  pub record Upto (i : ℕ) (out : List ℤ) : Type 0 where
    pub size : length out ≡ n
    int16 : (k : ℕ) (v : ℤ) → k < i → get_elem? out k ≡ some v → Fits (2 ^ 15) v
    pub done :
        (k : ℕ) (v : ℤ)
        → k < i
        → get_elem? saturados k ≡ some v
        → get_elem? out k ≡ expected l saturados out k v
    rest : (k : ℕ) → i ≤ k → get_elem? out k ≡ get_elem? junk k

  module _ (ok : Interior l saturados) (fresh : Fresh l n junk) where
    -- One round: the value stored at i, and where it comes from.
    record Stored (rounds i : ℕ) (out : List ℤ) (v : ℤ) : Type 0 where
      new : ℤ
      step : smooth_step l saturados n (suc rounds) i out ≡ some (0, set out i new)
      value : expected l saturados out i v ≡ some new
      int16 : Fits (2 ^ 15) new

    kept-Stored :
        (rounds i : ℕ) (out : List ℤ) (v : ℤ)
        → Upto i out
        → i < n
        → get_elem? saturados i ≡ some v
        → is_saturated l v ≡ false
        → Stored rounds i out v
    unfolding smooth_step
    kept-Stored rounds i out v u lt at keep = record {
      new = v;
      step = rw (at, keep, write?-inside out i v (omega (arith, u.size)));
      value = rw keep;
      int16 = ok.int16 i v at;
    }

    repaired-Stored :
        (rounds i : ℕ) (out : List ℤ) (v : ℤ)
        → Upto i out
        → i < n
        → get_elem? saturados i ≡ some v
        → is_saturated l v ≡ true
        → Stored rounds i out v
    unfolding smooth_step
    repaired-Stored rounds i out v u lt at level =
        let (far, near) = ok.inside i v at level in
        let (g, own) = get_elem?-inside out i (omega (arith, u.size)) in
        let (v0, r0) = get_elem?-inside out (i - 3) (omega (arith, u.size)) in
        let (v1, r1) = get_elem?-inside out (i - 2) (omega (arith, u.size)) in
        let (v2, r2) = get_elem?-inside out (i - 1) (omega (arith, u.size)) in
        let (w0, s0) = get_elem?-inside saturados (i + 1) (omega arith) in
        let (w1, s1) = get_elem?-inside saturados (i + 2) (omega arith) in
        record {
          new = i16 (middle v0 v1 v2 w0 w1);
          step =
              rw (at, level)
                (repair_one l saturados n rounds i out g v0 v1 v2 w0 w1 far (omega arith)
                  (omega (arith, u.size))
                  (own, fresh.no_level i g (sym (u.rest i (omega arith)) ∙ own))
                  (r0, r1, r2, s0, s1)
                  (lagrange-middle v0 v1 v2 w0 w1 i
                    (
                      u.int16 (i - 3) v0 (omega arith) r0,
                      u.int16 (i - 2) v1 (omega arith) r1,
                      u.int16 (i - 1) v2 (omega arith) r2,
                      ok.int16 (i + 1) w0 s0,
                      ok.int16 (i + 2) w1 s1,
                    )
                    (omega (arith, ok.small))));
          value = rw (level, r0, r1, r2, s0, s1);
          int16 = Fits-i16 _;
        }

    stored :
        (rounds i : ℕ) (out : List ℤ) (v : ℤ)
        → Upto i out
        → i < n
        → get_elem? saturados i ≡ some v
        → Stored rounds i out v
    stored rounds i out v u lt at = elim (Bool-cases (is_saturated l v)) [
      | inl level ↦ repaired-Stored rounds i out v u lt at level
      | inr keep ↦ kept-Stored rounds i out v u lt at keep
    ]

    -- Storing at i leaves alone what the values up to i are made from.
    expected-set :
        (out : List ℤ) (i k : ℕ) (v new : ℤ)
        → k ≤ i
        → get_elem? saturados k ≡ some v
        → expected l saturados (set out i new) k v ≡ expected l saturados out k v
    expected-set out i k v new le at = elim (Bool-cases (is_saturated l v)) [
      | inl level ↦
          let (far, near) = ok.inside k v at level in
          rw (
            get_elem?-set_ne out i (k - 3) new (omega arith),
            get_elem?-set_ne out i (k - 2) new (omega arith),
            get_elem?-set_ne out i (k - 1) new (omega arith),
          )
      | inr keep ↦ rw keep
    ]

    Upto-next :
        (rounds i : ℕ) (out : List ℤ) (v : ℤ)
        → i < n
        → get_elem? saturados i ≡ some v
        → Upto i out
        → (s : Stored rounds i out v) → Upto (i + 1) (set out i s.new)
    Upto-next rounds i out v lt at u s = record {
      size = length-set out i s.new ∙ u.size;
      int16 = λ k w less e. elim (ℕ_discrete i k) [
        | yes same ↦ ground (arith, own, s.int16)
        | no other ↦ u.int16 k w (omega arith) (sym (get_elem?-set_ne out i k s.new other) ∙ e)
      ];
      done = λ k w less e. elim (ℕ_discrete i k) [
        | yes same ↦
            rw (← same, own, expected-set out i i w s.new (omega arith) (rw same e))
              (sym (rw (same_sample w (rw same e)) s.value))
        | no other ↦
            rw (get_elem?-set_ne out i k s.new other, expected-set out i k w s.new (omega arith) e)
              (u.done k w (omega arith) e)
      ];
      rest = λ k le. get_elem?-set_ne out i k s.new (λ same. omega arith) ∙ u.rest k (omega arith);
    }
      where
        own : get_elem? (set out i s.new) i ≡ some s.new
        own = get_elem?-set_self out i s.new (omega (arith, u.size))

        same_sample : (w : ℤ) → get_elem? saturados i ≡ some w → w ≡ v
        same_sample w e = cc (e, at)

    pub Upto-start : Upto 0 junk
    Upto-start = record {
      size = fresh.size;
      int16 = λ k v less. elim less [ ];
      done = λ k v less. elim less [ ];
      rest = λ k le. refl;
    }

    pub loop-Upto :
        (rounds i : ℕ) (out : List ℤ)
        → rounds + i ≡ n
        → Upto i out
        → (last : List ℤ) × (smooth_loop l saturados n rounds 0 i out ≡ some last) × Upto n last
    unfolding smooth_loop
    loop-Upto zero i out e u = (out, refl, subst (λ k. Upto k out) (omega arith) u)
    loop-Upto (suc rounds) i out e u =
        let (v, at) = get_elem?-inside saturados i (omega arith) in
        let s : Stored rounds i out v = stored rounds i out v u (omega arith) at in
        let (last, run, all) =
          loop-Upto rounds (i + 1) (set out i s.new) (omega arith)
            (Upto-next rounds i out v (omega arith) at u s) in
        (last, rw s.step run, all)
