-- ===== src/Neat/Tokens.antt =====
-- `strtok` as proyecto/NEAT/src/genetic_encoding.cpp and NEAT.cpp use it on the text of a file. The
-- byte behind the text, which the code does not set, is taken for a zero.
use tareas_elo.Common.{
  ℕ, Option, none, some, List, [], ◌∷◌, ◌++◌, Bool, true, false, ◌||◌, ◌==◌, if◌then◌else◌, length,
}
use tareas_elo.Common.Int.{ℤ, pos, eqb_ℤ}
use tareas_elo.Common.Text.{atoi}
pub mod Words

-- ` \n":\t{},[`.
abbrev pub is_delimiter : ℕ → Bool
is_delimiter c =
    c == b' '
    || c == 10
    || c == 34
    || c == b':'
    || c == 9
    || c == b'{'
    || c == b'}'
    || c == b','
    || c == b'['

-- Behind the bytes of the token so far.
unfoldable pub split_tokens : List ℕ → List ℕ → List (List ℕ)
split_tokens [] [] = []
split_tokens (t ∷ token) [] = (t ∷ token) ∷ []
split_tokens [] (c ∷ text) = elim (is_delimiter c) [
  | true ↦ split_tokens [] text
  | false ↦ split_tokens (c ∷ []) text
]
split_tokens (t ∷ token) (c ∷ text) = elim (is_delimiter c) [
  | true ↦ (t ∷ token) ∷ split_tokens [] text
  | false ↦ split_tokens (t ∷ (token ++ (c ∷ []))) text
]

abbrev pub tokens : List ℕ → List (List ℕ)
tokens text = split_tokens [] text

-- `pch[0] == ']'`.
abbrev pub is_close : List ℕ → Bool
is_close [] = false
is_close (c ∷ token) = c == b']'

-- An int as a bool.
abbrev pub is_set : List ℕ → Bool
is_set token = if eqb_ℤ (atoi token) (pos 0) then false else true

-- Numbers up to `]`; a missing token is read through a null pointer.
unfoldable pub read_numbers : List (List ℕ) → Option (List ℤ × List (List ℕ))
read_numbers [] = none
read_numbers (t ∷ ts) = elim (is_close t) [
  | true ↦ some ([], ts)
  | false ↦ elim (read_numbers ts) [ none ↦ none | some (zs, rest) ↦ some (atoi t ∷ zs, rest) ]
]

-- An entry is its label, whether it exists, and for one that exists the other labels and values.
abbrev pub is_complete : ℕ → List (List ℕ) → Bool
is_complete size (label ∷ exist ∷ rest) = if is_set exist then length rest == size else true
is_complete size _ = false

-- The entries up to `]`, with the tokens of the one that has begun.
unfoldable pub read_entries :
    ℕ → List (List ℕ) → List (List ℕ) → Option (List (List (List ℕ)) × List (List ℕ))
read_entries size entry [] = none
read_entries size [] (t ∷ ts) = elim (is_close t) [
  | true ↦ some ([], ts)
  | false ↦ read_entries size (t ∷ []) ts
]
read_entries size (e ∷ entry) (t ∷ ts) = elim (is_complete size (e ∷ (entry ++ (t ∷ [])))) [
  | true ↦ elim (read_entries size [] ts) [
    | none ↦ none
    | some (entries, rest) ↦ some ((e ∷ (entry ++ (t ∷ []))) ∷ entries, rest)
  ]
  | false ↦ read_entries size (e ∷ (entry ++ (t ∷ []))) ts
]
