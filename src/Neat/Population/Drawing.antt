-- ===== src/Neat/Population/Drawing.antt =====
-- Rules for the steps of `Population` (proyecto/NEAT/src/NEAT.cpp) that return and change nothing of
-- the population but what `rand()` returns next.
use tareas_elo.Common.{ℕ, ◌+◌, ◌≡◌, refl, sym, ◌∙◌, ap, subst, Option, some}
use mathlib.Core.Option.{some-injective}
use tareas_elo.Neat.Population.{Population, M, ◌>>=◌, pure, lift, rand, get}
use tareas_elo.Neat.Population.Rules.{Keeps, Returns, Returns-bind}

abbrev pub Drawn : {D : Type 0} → Population D → Population D → Type 0
Drawn p q = (draws : ℕ → ℕ) × (q ≡ record p { draws = draws })

abbrev pub Draws : {D A : Type 0} → M D A → Population D → (A → Type 0) → Type 0
Draws m p P = Returns m p (λ a q. Drawn p q × P a)

module _ {D : Type 0} where
  pub Draws-pure :
      {A : Type 0} (a : A) (p : Population D) (P : A → Type 0) → P a → Draws (pure a) p P
  unfolding pure
  Draws-pure a p P h = (a, p, refl, ((p.draws, refl), h))

  pub Draws-lift :
      {A : Type 0} (o : Option A) (a : A) (p : Population D) (P : A → Type 0)
      → o ≡ some a
      → P a
      → Draws (lift o) p P
  unfolding lift
  Draws-lift o a p P e h = (a, p, rw e refl, ((p.draws, refl), h))

  pub Draws-rand : (p : Population D) → Draws rand p (λ _. Unit {0})
  unfolding rand
  Draws-rand p = (
    p.draws 0,
    record p { draws = λ k. p.draws (k + 1) },
    refl,
    (((λ k. p.draws (k + 1)), refl), tt),
  )

  pub Draws-get : (p : Population D) → Draws get p (λ s. Drawn p s)
  unfolding get
  Draws-get p = (p, p, refl, ((p.draws, refl), (p.draws, refl)))

  pub Draws-bind :
      {A B : Type 0} (m : M D A) (f : A → M D B) (p : Population D) (P : A → Type 0)
      (Q : B → Type 0)
      → Draws m p P
      → ((a : A) (q : Population D) → Drawn p q → P a → Draws (f a) q Q)
      → Draws (m >>= f) p Q
  Draws-bind {A} {B} m f p P Q first next =
      Returns-bind m f p (λ a q. Drawn p q × P a) (λ b r. Drawn p r × Q b) first
        (λ a q (drawn, h). later a q drawn (next a q drawn h))
    where
      later :
          (a : A) (q : Population D)
          → Drawn p q
          → Draws (f a) q Q
          → Returns (f a) q (λ b r. Drawn p r × Q b)
      later a q (draws, e) (b, r, run, ((draws', e'), h)) =
          (b, r, run, ((draws', e' ∙ ap (λ (s : Population D). record s { draws = draws' }) e), h))

  pub Draws-map :
      {A : Type 0} (m : M D A) (p : Population D) (P Q : A → Type 0)
      → Draws m p P
      → ((a : A) → P a → Q a)
      → Draws m p Q
  Draws-map m p P Q (a, q, run, (drawn, h)) weaker = (a, q, run, (drawn, weaker a h))

  -- A first step that draws nothing, by what it returns.
  pub Draws-lifted :
      {A B : Type 0} (o : Option A) (a : A) (f : A → M D B) (p : Population D) (Q : B → Type 0)
      → o ≡ some a
      → Draws (f a) p Q
      → Draws (lift o >>= f) p Q
  unfolding lift ◌>>=◌
  Draws-lifted o a f p Q e (b, q, run, h) = (b, q, rw e run, h)

  pub Draws-gotten :
      {B : Type 0} (f : Population D → M D B) (p : Population D) (Q : B → Type 0)
      → Draws (f p) p Q
      → Draws (get >>= f) p Q
  unfolding get ◌>>=◌
  Draws-gotten f p Q (b, q, run, h) = (b, q, run, h)

  -- Such a step keeps what the draws do not matter for.
  pub Draws→Keeps :
      {A : Type 0} (I : Population D → Type 0) (P : A → Type 0) (m : M D A)
      → ((p : Population D) (draws : ℕ → ℕ) → I p → I (record p { draws = draws }))
      → ((p : Population D) → I p → Draws m p P)
      → Keeps I P m
  Draws→Keeps I P m closed h p a p' ok run =
      let (b, q, run', ((draws, e), hb)) = h p ok in
      let same = some-injective (b, q) (a, p') (sym run' ∙ run) in
      (subst I (sym e ∙ ap (λ x. x.1) same) (closed p draws ok), subst P (ap (λ x. x.0) same) hb)
