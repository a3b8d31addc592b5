-- ===== src/Neat/Tokens/Words.antt =====
-- Where `strtok` ends a token: the words of a text that a delimiter follows.
use tareas_elo.Common.{
  ℕ, ◌+◌, ◌≡◌, refl, List, [], ◌∷◌, ◌++◌, true, false, ◌≢◌, ◌==◌, append-nil, append_assoc, arith,
}
use tareas_elo.Common.Int.{ℤ, pos, negsuc}
use tareas_elo.Common.Text.{is_digit, show_int}
use tareas_elo.Common.Text.Decimal.{AllDigits, show_digits-value, show_digits-starts}
use tareas_elo.Neat.Tokens.{is_delimiter, is_close, split_tokens}

abbrev pub Plain : List ℕ → Type 0
Plain [] = Unit
Plain (c ∷ s) = (is_delimiter c ≡ false) × Plain s

-- A word is not empty and has no delimiter.
abbrev pub IsWord : List ℕ → Type 0
IsWord w = (w ≢ []) × Plain w

split_tokens-Plain :
    (t : ℕ) (token w : List ℕ) (c : ℕ) (rest : List ℕ)
    → Plain w
    → is_delimiter c ≡ true
    → split_tokens (t ∷ token) (w ++ (c ∷ rest)) ≡ (t ∷ (token ++ w)) ∷ split_tokens [] rest
unfolding split_tokens
split_tokens-Plain t token [] c rest plain ends = rw (split_tokens, ends, append-nil token) refl
split_tokens-Plain t token (x ∷ w) c rest plain ends =
    rw
      (
        split_tokens,
        plain.0,
        split_tokens-Plain t (token ++ (x ∷ [])) w c rest plain.1 ends,
        append_assoc token (x ∷ []) w,
      )
      refl

-- A word in front of a delimiter is a token.
pub split_tokens-word :
    (w : List ℕ) (c : ℕ) (rest : List ℕ)
    → IsWord w
    → is_delimiter c ≡ true
    → split_tokens [] (w ++ (c ∷ rest)) ≡ w ∷ split_tokens [] rest
unfolding split_tokens
split_tokens-word [] c rest word ends = absurd (word.0 refl)
split_tokens-word (x ∷ w) c rest word ends =
    rw (split_tokens, word.1.0) (split_tokens-Plain x [] w c rest word.1.1 ends)

digit-Plain : (c : ℕ) → is_digit c ≡ true → is_delimiter c ≡ false
digit-Plain c h = ground arith

digits-Plain : (s : List ℕ) → AllDigits s → Plain s
digits-Plain [] h = tt
digits-Plain (c ∷ s) h = (digit-Plain c h.0, digits-Plain s h.1)

-- What a stream writes for an int is a word, and does not start with a closing bracket.
pub show_int-IsWord : (z : ℤ) → IsWord (show_int z) × (is_close (show_int z) ≡ false)
unfolding show_int
show_int-IsWord (pos n) =
    let (c, s, e, starts) = show_digits-starts (n + 1) n (omega arith) in
    let plain = digits-Plain _ (show_digits-value (n + 1) n (omega arith)).0 in
    (((λ none_there. cc), plain), rw (e) (not_close c starts))
  where
    not_close : (c : ℕ) → is_digit c ≡ true → (c == b']') ≡ false
    not_close c h = ground arith
show_int-IsWord (negsuc n) = (
  ((λ none_there. cc), (refl, digits-Plain _ (show_digits-value (n + 2) (n + 1) (omega arith)).0)),
  refl,
)
