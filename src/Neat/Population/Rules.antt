-- ===== src/Neat/Population/Rules.antt =====
-- Rules to reason about the steps of `Population` (proyecto/NEAT/src/NEAT.cpp) with a property of the
-- population that each of them keeps.
use tareas_elo.Common.{
  ℕ, zero, suc, get_elem?, ◌+◌, Bool, true, false, if◌then◌else◌, ◌≡◌, refl, Option, none, some,
  List, [], ◌∷◌, subst, ap, inl, inr, Option-cases,
}
use mathlib.Core.Option.{some-injective}
use tareas_elo.Neat.Population.{Population, M, ◌>>=◌, pure, lift, get, modify, rand, for_each}

-- P of every element.
abbrev pub All : {A : Type 0} → (A → Type 0) → List A → Type 0
All P [] = Unit
All P (a ∷ xs) = P a × All P xs

-- Two lists of one length, related place by place.
abbrev pub Pointwise : {A B : Type 0} → (A → B → Type 0) → List A → List B → Type 0
Pointwise R [] [] = Unit
Pointwise R [] (b ∷ bs) = ⊥
Pointwise R (a ∷ xs) [] = ⊥
Pointwise R (a ∷ xs) (b ∷ bs) = R a b × Pointwise R xs bs

-- No claim.
abbrev pub Any : {A : Type 0} → A → Type 0
Any _ = Unit

-- What m says if it returns: I is kept, and the result has P.
abbrev pub Keeps : {D A : Type 0} → (Population D → Type 0) → (A → Type 0) → M D A → Type 0
Keeps {D} {A} I P m =
    (p : Population D) (a : A) (p' : Population D) → I p → m p ≡ some (a, p') → I p' × P a

-- m returns from p, with a result and a population that Q relates.
abbrev pub Returns : {D A : Type 0} → M D A → Population D → (A → Population D → Type 0) → Type 0
Returns {D} {A} m p Q = (a : A) × (p' : Population D) × (m p ≡ some (a, p')) × Q a p'

module _ {D : Type 0} where
  >>=-cases :
      {A B : Type 0} (m : M D A) (f : A → M D B) (p : Population D) (b : B) (p' : Population D)
      → (m >>= f) p ≡ some (b, p')
      → (a : A) × (q : Population D) × (m p ≡ some (a, q)) × (f a q ≡ some (b, p'))
  unfolding ◌>>=◌
  >>=-cases m f p b p' run = elim (Option-cases (m p)) [
    | inl ends ↦ absurd (cc (rw (◌>>=◌, ends) at run))
    | inr ((a, q), e) ↦ (a, q, e, rw (◌>>=◌, e) at run)
  ]

  pub Returns-bind :
      {A B : Type 0} (m : M D A) (f : A → M D B) (p : Population D) (Q : A → Population D → Type 0)
      (R : B → Population D → Type 0)
      → Returns m p Q
      → ((a : A) (q : Population D) → Q a q → Returns (f a) q R)
      → Returns (m >>= f) p R
  unfolding ◌>>=◌
  Returns-bind m f p Q R (a, q, e, h) next =
      let (b, p', e', h') = next a q h in (b, p', rw (◌>>=◌, e, e'), h')

  -- A first step with a known outcome.
  pub Returns-step :
      {A B : Type 0} (m : M D A) (f : A → M D B) (p q : Population D) (a : A)
      (R : B → Population D → Type 0)
      → m p ≡ some (a, q)
      → Returns (f a) q R
      → Returns (m >>= f) p R
  unfolding ◌>>=◌
  Returns-step m f p q a R e (b, p', e', h) = (b, p', rw (◌>>=◌, e, e') refl, h)

module _ {D : Type 0} (I : Population D → Type 0) where
  pub Keeps-bind :
      {A B : Type 0} (P : A → Type 0) (Q : B → Type 0) (m : M D A) (f : A → M D B)
      → Keeps I P m
      → ((a : A) → P a → Keeps I Q (f a))
      → Keeps I Q (m >>= f)
  Keeps-bind P Q m f first next p b p' ok run =
      let (a, q, e, rest) = >>=-cases m f p b p' run in
      let (ok', h) = first p a q ok e in next a h q b p' ok' rest

  -- Where nothing is said of the result of the first step.
  pub Keeps-pure : {A : Type 0} (P : A → Type 0) (a : A) → P a → Keeps I P (pure a)
  unfolding pure
  Keeps-pure P a h p b p' ok run =
      let e = some-injective (a, p) (b, p') run in
      (subst I (ap (λ x. x.1) e) ok, subst P (ap (λ x. x.0) e) h)

  pub Keeps-lift :
      {A : Type 0} (P : A → Type 0) (o : Option A)
      → ((a : A) → o ≡ some a → P a)
      → Keeps I P (lift o)
  unfolding lift
  Keeps-lift P none h p b p' ok run = cc
  Keeps-lift P (some a) h p b p' ok run =
      let e = some-injective (a, p) (b, p') run in
      (subst I (ap (λ x. x.1) e) ok, subst P (ap (λ x. x.0) e) (h a refl))

  pub Keeps-then :
      {A B : Type 0} (Q : B → Type 0) (m : M D A) (f : A → M D B)
      → Keeps I Any m
      → ((a : A) → Keeps I Q (f a))
      → Keeps I Q (m >>= f)
  Keeps-then Q m f first next = Keeps-bind Any Q m f first (λ a _. next a)

  -- Where the first step keeps the population as it is.
  pub Keeps-lifted :
      {A B : Type 0} (Q : B → Type 0) (o : Option A) (f : A → M D B)
      → ((a : A) → o ≡ some a → Keeps I Q (f a))
      → Keeps I Q (lift o >>= f)
  Keeps-lifted Q o f next =
      Keeps-bind (λ a. o ≡ some a) Q (lift o) f (Keeps-lift (λ a. o ≡ some a) o (λ a e. e)) next

  pub Keeps-weaken :
      {A : Type 0} (P Q : A → Type 0) (m : M D A)
      → Keeps I P m
      → ((a : A) → P a → Q a)
      → Keeps I Q m
  Keeps-weaken P Q m h weaker p a p' ok run = let (ok', hp) = h p a p' ok run in (ok', weaker a hp)

  pub Keeps-if :
      {A : Type 0} (P : A → Type 0) (b : Bool) (m n : M D A)
      → (b ≡ true → Keeps I P m)
      → (b ≡ false → Keeps I P n)
      → Keeps I P (if b then m else n)
  Keeps-if P true m n hm hn = hm refl
  Keeps-if P false m n hm hn = hn refl

  pub Keeps-get : Keeps I I get
  unfolding get
  Keeps-get p b p' ok run =
      let e = some-injective (p, p) (b, p') run in
      (subst I (ap (λ x. x.1) e) ok, subst I (ap (λ x. x.0) e) ok)

  pub Keeps-modify :
      (f : Population D → Population D)
      → ((p : Population D) → I p → I (f p))
      → Keeps I Any (modify f)
  unfolding modify
  Keeps-modify f h p b p' ok run =
      (subst I (ap (λ x. x.1) (some-injective (tt, f p) (b, p') run)) (h p ok), tt)

  pub Keeps-rand :
      ((p : Population D) (draws : ℕ → ℕ) → I p → I (record p { draws = draws })) → Keeps I Any rand
  unfolding rand
  Keeps-rand h p b p' ok run = (
    subst I
        (ap (λ x. x.1)
          (some-injective (p.draws 0, record p { draws = λ k. p.draws (k + 1) }) (b, p') run))
        (h p (λ k. p.draws (k + 1)) ok),
    tt,
  )

  pub Keeps-for_each :
      {A B : Type 0} (P : A → Type 0) (Q : B → Type 0) (f : A → M D B)
      → ((a : A) → P a → Keeps I Q (f a))
      → (xs : List A) → All P xs
      → Keeps I (All Q) (for_each f xs)
  unfolding for_each
  Keeps-for_each P Q f h [] all = Keeps-pure (All Q) [] tt
  Keeps-for_each P Q f h (a ∷ xs) (one, all) = Keeps-bind Q (All Q) (f a) _ (h a one) (λ b hb.
      Keeps-bind (All Q) (All Q) (for_each f xs) _ (Keeps-for_each P Q f h xs all)
        (λ bs hbs. Keeps-pure (All Q) (b ∷ bs) (hb, hbs)))

  pub Keeps-Pointwise :
      {A B : Type 0} (R : A → B → Type 0) (f : A → M D B)
      → ((a : A) → Keeps I (R a) (f a))
      → (xs : List A) → Keeps I (Pointwise R xs) (for_each f xs)
  unfolding for_each
  Keeps-Pointwise R f h [] = Keeps-pure (Pointwise R []) [] tt
  Keeps-Pointwise R f h (a ∷ xs) = Keeps-bind (R a) (Pointwise R (a ∷ xs)) (f a) _ (h a) (λ b hb.
      Keeps-bind (Pointwise R xs) (Pointwise R (a ∷ xs)) (for_each f xs) _
        (Keeps-Pointwise R f h xs) (λ bs hbs. Keeps-pure (Pointwise R (a ∷ xs)) (b ∷ bs) (hb, hbs)))

-- What stands at a place of the second list has its partner in the first.
pub Pointwise-at :
    {A B : Type 0} (R : A → B → Type 0) (xs : List A) (ys : List B) (i : ℕ) (b : B)
    → Pointwise R xs ys
    → get_elem? ys i ≡ some b
    → (a : A) × (get_elem? xs i ≡ some a) × R a b
Pointwise-at R [] [] i b h e = cc
Pointwise-at R [] (y ∷ ys) i b h e = elim h [ ]
Pointwise-at R (x ∷ xs) [] i b h e = elim h [ ]
Pointwise-at R (x ∷ xs) (y ∷ ys) zero b h e = (x, refl, subst (R x) (some-injective y b e) h.0)
Pointwise-at R (x ∷ xs) (y ∷ ys) (suc i) b h e = Pointwise-at R xs ys i b h.1 e
