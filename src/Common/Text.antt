-- ===== src/Common/Text.antt =====
-- C strings as lists of bytes, without the closing zero, and `strtol` (base 10) and `atoi`.
pub mod Decimal
use Prim.Native.Nat.{ℕ, zero, suc, ◌+◌, ◌-◌, ◌*◌, ◌^◌, ◌/◌, ◌%◌}
use Prim.Native.String.{String}
use Prim.Native.Char.{code}
use mathlib.Core.Bool.{Bool, ◌&&◌, ◌||◌}
use mathlib.Core.List.{List, [], ◌∷◌, ◌++◌}
use tareas_elo.Common.Tests.{ltb, leb, ◌==◌, if◌then◌else◌}
use tareas_elo.Common.Int.{ℤ, pos, negsuc, sub_ℕ, i32}

abbrev pub is_digit : ℕ → Bool
is_digit c = leb b'0' c && leb c b'9'

abbrev pub is_space : ℕ → Bool
is_space c = c == 32 || leb 9 c && leb c 13

-- The digits up to the first other byte, behind the value read so far.
unfoldable pub digits_value : ℕ → List ℕ → ℕ
digits_value acc [] = acc
digits_value acc (c ∷ s) =
    let rest = digits_value (acc * 10 + (c - b'0')) s in if is_digit c then rest else acc

unfoldable pub skip_space : List ℕ → List ℕ
skip_space [] = []
skip_space (c ∷ s) = if is_space c then skip_space s else c ∷ s

-- `LONG_MAX` and `LONG_MIN` where the number is out of range.
abbrev pub clamp_long : Bool → ℕ → ℤ
clamp_long negative n =
    if negative
    then (if ltb (2 ^ 63) n then negsuc (2 ^ 63 - 1) else sub_ℕ 0 n)
    else (if ltb n (2 ^ 63) then pos n else pos (2 ^ 63 - 1))

abbrev signed_value : List ℕ → ℤ
signed_value [] = pos 0
signed_value (c ∷ s) =
    if c == b'-'
    then clamp_long Bool.true (digits_value 0 s)
    else clamp_long Bool.false (digits_value 0 (if c == b'+' then s else c ∷ s))

unfoldable pub strtol : List ℕ → ℤ
unfolding digits_value skip_space
strtol s = signed_value (skip_space s)

unfoldable pub atoi : List ℕ → ℤ
unfolding strtol i32
atoi s = i32 (strtol s)

-- The bytes of a text.
abbrev pub codes : String → List ℕ
codes String.[] = []
codes (String.◌∷◌ c s) = code c ∷ codes s

-- The decimal digits of a number, in `rounds` of which it needs one for each digit.
unfoldable pub show_digits : ℕ → ℕ → List ℕ
show_digits zero n = []
show_digits (suc rounds) n =
    let higher = show_digits rounds (n / 10) in
    if ltb n 10 then (b'0' + n) ∷ [] else higher ++ ((b'0' + n % 10) ∷ [])

-- What a stream writes for an int.
unfoldable pub show_int : ℤ → List ℕ
unfolding show_digits
show_int (pos n) = show_digits (n + 1) n
show_int (negsuc n) = b'-' ∷ show_digits (n + 2) (n + 1)
