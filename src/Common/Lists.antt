-- ===== src/Common/Lists.antt =====
-- C arrays as lists with native indices; `write?` and `read?` fault outside the array.
use mathlib.Core.Option.{some-injective}
use mathlib.Core.Path.{subst}
use Prim.Native.Nat.{ℕ, zero, suc, ◌+◌, ◌<◌, ◌≤◌}
use mathlib.Core.Path.{◌≡◌, refl, ap}
use mathlib.Core.Logic.{◌≢◌}
use mathlib.Core.List.{List, [], ◌∷◌, ◌++◌, map}
use mathlib.Core.Option.{Option, none, some}
use native.Mathlib.Omega.{arith}
use tareas_elo.Common.Tests.{ltb, if◌then◌else◌}

module _ {ℓ} {A : Type ℓ} where
  abbrev pub length : List A → ℕ
  length [] = 0
  length (x ∷ xs) = suc (length xs)

  abbrev pub get_elem? : List A → ℕ → Option A
  get_elem? [] i = none
  get_elem? (x ∷ xs) zero = some x
  get_elem? (x ∷ xs) (suc i) = get_elem? xs i

  abbrev pub set : List A → ℕ → A → List A
  set [] i v = []
  set (x ∷ xs) zero v = v ∷ xs
  set (x ∷ xs) (suc i) v = x ∷ set xs i v

  abbrev pub take : ℕ → List A → List A
  take zero xs = []
  take (suc n) [] = []
  take (suc n) (x ∷ xs) = x ∷ take n xs

  abbrev pub drop : ℕ → List A → List A
  drop zero xs = xs
  drop (suc n) [] = []
  drop (suc n) (x ∷ xs) = drop n xs

  abbrev pub replicate : ℕ → A → List A
  replicate zero a = []
  replicate (suc n) a = a ∷ replicate n a

  pub length-append : (xs ys : List A) → length (xs ++ ys) ≡ length xs + length ys
  length-append [] ys = omega arith
  length-append (x ∷ xs) ys = omega (arith, length-append xs ys)

  pub length-set : (xs : List A) (i : ℕ) (v : A) → length (set xs i v) ≡ length xs
  length-set [] i v = refl
  length-set (x ∷ xs) zero v = refl
  length-set (x ∷ xs) (suc i) v = ap suc (length-set xs i v)

  pub length-replicate : (n : ℕ) (a : A) → length (replicate n a) ≡ n
  length-replicate zero a = refl
  length-replicate (suc n) a = ap suc (length-replicate n a)

  pub get_elem?-set_self :
      (xs : List A) (i : ℕ) (v : A) → i < length xs → get_elem? (set xs i v) i ≡ some v
  get_elem?-set_self [] i v h = elim h [ ]
  get_elem?-set_self (x ∷ xs) zero v h = refl
  get_elem?-set_self (x ∷ xs) (suc i) v h = get_elem?-set_self xs i v (omega arith)

  pub get_elem?-set_ne :
      (xs : List A) (i j : ℕ) (v : A) → i ≢ j → get_elem? (set xs i v) j ≡ get_elem? xs j
  get_elem?-set_ne [] i j v h = refl
  get_elem?-set_ne (x ∷ xs) zero zero v h = absurd (h refl)
  get_elem?-set_ne (x ∷ xs) zero (suc j) v h = refl
  get_elem?-set_ne (x ∷ xs) (suc i) zero v h = refl
  get_elem?-set_ne (x ∷ xs) (suc i) (suc j) v h = get_elem?-set_ne xs i j v (λ e. h (ap suc e))

  -- Inside the array a read returns, outside it does not.
  pub get_elem?-inside : (xs : List A) (i : ℕ) → i < length xs → (v : A) × (get_elem? xs i ≡ some v)
  get_elem?-inside [] i h = elim h [ ]
  get_elem?-inside (x ∷ xs) zero h = (x, refl)
  get_elem?-inside (x ∷ xs) (suc i) h = get_elem?-inside xs i (omega arith)

  pub get_elem?-outside : (xs : List A) (i : ℕ) → length xs ≤ i → get_elem? xs i ≡ none
  get_elem?-outside [] i h = refl
  get_elem?-outside (x ∷ xs) zero h = elim h [ ]
  get_elem?-outside (x ∷ xs) (suc i) h = get_elem?-outside xs i (omega arith)

  pub get_elem?-some-lt : (xs : List A) (i : ℕ) (v : A) → get_elem? xs i ≡ some v → i < length xs
  get_elem?-some-lt [] i v e = cc
  get_elem?-some-lt (x ∷ xs) zero v e = omega arith
  get_elem?-some-lt (x ∷ xs) (suc i) v e = omega (arith, get_elem?-some-lt xs i v e)

  pub get_elem?-middle :
      (xs : List A) (y : A) (ys : List A) → get_elem? (xs ++ (y ∷ ys)) (length xs) ≡ some y
  get_elem?-middle [] y ys = refl
  get_elem?-middle (x ∷ xs) y ys = get_elem?-middle xs y ys

  -- Two arrays of one length that agree at every index are equal.
  pub list_ext : (xs ys : List A) → ((i : ℕ) → get_elem? xs i ≡ get_elem? ys i) → xs ≡ ys
  list_ext [] [] h = refl
  list_ext [] (y ∷ ys) h = absurd (none_ne (h 0))
    where
      none_ne : none ≡ some y → ⊥
      none_ne e = cc
  list_ext (x ∷ xs) [] h = absurd (some_ne (h 0))
    where
      some_ne : some x ≡ none → ⊥
      some_ne e = cc
  list_ext (x ∷ xs) (y ∷ ys) h = cc (h 0, list_ext xs ys (λ i. h (suc i)))

module _ {ℓ} {A : Type ℓ} where
  -- `xs[i] = v`, a fault outside the array.
  unfoldable pub write? : List A → ℕ → A → Option (List A)
  write? xs i v = if ltb i (length xs) then some (set xs i v) else none

  pub write?-inside :
      (xs : List A) (i : ℕ) (v : A) → i < length xs → write? xs i v ≡ some (set xs i v)
  unfolding write?
  write?-inside xs i v h = ground arith

  pub write?-outside : (xs : List A) (i : ℕ) (v : A) → length xs ≤ i → write? xs i v ≡ none
  unfolding write?
  write?-outside xs i v h = ground arith

  -- A write just behind a prefix.
  pub write?-append :
      (xs : List A) (y : A) (ys : List A) (v : A)
      → write? (xs ++ (y ∷ ys)) (length xs) v ≡ some ((xs ++ (v ∷ [])) ++ ys)
  unfolding write?
  write?-append [] y ys v = ground arith
  write?-append (x ∷ xs) y ys v = ground (arith, write?-append xs y ys v)

  pub length-map {κ} : {B : Type κ} (xs : List A) (f : A → B) → length (map f xs) ≡ length xs
  length-map [] f = refl
  length-map (x ∷ xs) f = ap suc (length-map xs f)

-- What holds at every index of an array, counted from i.
abbrev pub AllFrom {ℓ κ} : {A : Type ℓ} → (ℕ → A → Type κ) → ℕ → List A → Type κ
AllFrom P i [] = Unit
AllFrom P i (x ∷ xs) = P i x × AllFrom P (suc i) xs

pub AllFrom-at {ℓ κ} :
    {A : Type ℓ} (P : ℕ → A → Type κ) (i : ℕ) (xs : List A) (k : ℕ) (v : A)
    → AllFrom P i xs
    → get_elem? xs k ≡ some v
    → P (k + i) v
AllFrom-at P i [] k v h e = cc
AllFrom-at P i (x ∷ xs) zero v h e =
    subst (λ n. P n v) (omega arith) (subst (λ y. P i y) (some-injective x v e) h.0)
AllFrom-at P i (x ∷ xs) (suc k) v h e =
    subst (λ n. P n v) (omega arith) (AllFrom-at P (suc i) xs k v h.1 e)

pub AllFrom-zero {ℓ κ} :
    {A : Type ℓ} (P : ℕ → A → Type κ) (xs : List A)
    → AllFrom P 0 xs
    → (k : ℕ) (v : A) → get_elem? xs k ≡ some v
    → P k v
AllFrom-zero P xs h k v e = subst (λ n. P n v) (omega arith) (AllFrom-at P 0 xs k v h e)

pub AllFrom-intro {ℓ κ} :
    {A : Type ℓ} (P : ℕ → A → Type κ) (xs : List A)
    → ((k : ℕ) (v : A) → get_elem? xs k ≡ some v → P k v)
    → AllFrom P 0 xs
AllFrom-intro {A = A} P xs h = from 0 xs (λ k v e. subst (λ n. P n v) (omega arith) (h k v e))
  where
    from :
        (i : ℕ) (ys : List A)
        → ((k : ℕ) (v : A) → get_elem? ys k ≡ some v → P (k + i) v)
        → AllFrom P i ys
    from i [] h = tt
    from i (y ∷ ys) h = (
      subst (λ n. P n y) (omega arith) (h 0 y refl),
      from (suc i) ys (λ k v e. subst (λ n. P n v) (omega arith) (h (suc k) v e)),
    )
