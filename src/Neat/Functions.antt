-- ===== src/Neat/Functions.antt =====
-- The table of node functions of proyecto/NEAT/src/random_function.cpp: the draw of one, and the
-- search by name. What the functions compute with `exp`, `sin` and `cos` stands with the genome's
-- evaluation.
use tareas_elo.Common.{refl, get_elem?-inside, arith}
use tareas_elo.Common.{
  ℕ, ◌%◌, Option, none, some, List, [], ◌∷◌, Bool, true, false, ◌&&◌, ◌==◌, if◌then◌else◌, length,
  get_elem?, ◌≡◌, get_elem?-inside, arith,
}

pub data Function : Type 0 where
  gaussian sigmoid sin cos identity : Function

-- `str_name`.
abbrev pub str_name : Function → List ℕ
str_name gaussian = b'g' ∷ b'a' ∷ b'u' ∷ b's' ∷ b's' ∷ b'i' ∷ b'a' ∷ b'n' ∷ []
str_name sigmoid = b's' ∷ b'i' ∷ b'g' ∷ b'm' ∷ b'o' ∷ b'i' ∷ b'd' ∷ []
str_name sin = b's' ∷ b'i' ∷ b'n' ∷ []
str_name cos = b'c' ∷ b'o' ∷ b's' ∷ []
str_name identity = b'i' ∷ b'd' ∷ b'e' ∷ b'n' ∷ b't' ∷ b'i' ∷ b't' ∷ b'y' ∷ []

-- `RANDOM_functions` after `inicialization`.
abbrev pub random_functions : List Function
random_functions = gaussian ∷ sigmoid ∷ sin ∷ cos ∷ identity ∷ []

-- `RANDOM_functions[rand() % size]`, for what `rand()` returned.
unfoldable pub get_random_function : ℕ → Option Function
get_random_function r = get_elem? random_functions (r % length random_functions)

-- `name.compare(other) == 0`.
abbrev pub same_text : List ℕ → List ℕ → Bool
same_text [] [] = true
same_text (a ∷ s) (b ∷ t) = a == b && same_text s t
same_text _ _ = false

abbrev find_name : List ℕ → List Function → Option Function
find_name name [] = none
find_name name (f ∷ rest) =
    let later = find_name name rest in if same_text name (str_name f) then some f else later

-- exit(1) where no function has the name.
unfoldable pub obtain_function_from_name : List ℕ → Option Function
obtain_function_from_name name = find_name name random_functions

-- A function that is saved by its name is found again by it.
pub obtain_function-str_name : (f : Function) → obtain_function_from_name (str_name f) ≡ some f
unfolding obtain_function_from_name
obtain_function-str_name gaussian = refl
obtain_function-str_name sigmoid = refl
obtain_function-str_name sin = refl
obtain_function-str_name cos = refl
obtain_function-str_name identity = refl

-- The draw returns a function whatever `rand()` returns.
pub get_random_function-some : (r : ℕ) → (f : Function) × (get_random_function r ≡ some f)
unfolding get_random_function
get_random_function-some r = get_elem?-inside random_functions (r % 5) (omega arith)
