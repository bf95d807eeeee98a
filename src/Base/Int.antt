-- ===== src/Base/Int.antt =====
-- Python's integers, as far as the scripts use them: `int(text)`, `str(n)`, sums and `max`.
-- `int` reads ASCII digits; other scripts' digits and the interpreter's limit of 4300 digits are
-- not modelled.
use Prim.Native.Nat.{ℕ, zero, suc, ◌+◌, ◌-◌, ◌*◌, ◌/◌, ◌%◌, min, max}
use Prim.Native.Char.{Char, code}
use Prim.Native.String.{String}
use mathlib.Core.Bool.{Bool, true, false, ◌&&◌}
use mathlib.Core.Option.{Option, none, some}
use dm_simulator.Base.Booleans.{ltb, leb, ◌==◌, if◌then◌else◌}

-- `negsuc n` is -(n + 1).
pub data ℤ : Type 0 where
  pos : ℕ → ℤ
  negsuc : ℕ → ℤ

abbrev negate : ℕ → ℤ
negate zero = pos zero
negate (suc n) = negsuc n

abbrev is_digit : Char → Bool
is_digit c = leb b'0' (code c) && leb (code c) b'9'

-- The digits after the first; the flag says that an underscore stands before.
read_digits : String → Bool → ℕ → Option ℕ
read_digits String.[] true n = none
read_digits String.[] false n = some n
read_digits (String.◌∷◌ c s) after n = elim (is_digit c) [
  | true ↦ read_digits s false (n * 10 + (code c - b'0'))
  | false ↦ elim (code c == b'_') [
    | true ↦ elim after [ true ↦ none | false ↦ read_digits s true n ]
    | false ↦ none
  ]
]

-- At least one digit, and underscores between digits only.
read_ℕ : String → Option ℕ
unfolding read_digits
read_ℕ s = read_digits s true 0

read_negative : Option ℕ → Option ℤ
read_negative none = none
read_negative (some n) = some (negate n)

read_positive : Option ℕ → Option ℤ
read_positive none = none
read_positive (some n) = some (pos n)

-- `int(text)` on a stripped text; `none` is a `ValueError`.
unfoldable pub int : String → Option ℤ
unfolding read_ℕ read_negative read_positive
int String.[] = none
int (String.◌∷◌ c s) = elim (code c == b'-') [
  | true ↦ read_negative (read_ℕ s)
  | false ↦ elim (code c == b'+') [
    | true ↦ read_positive (read_ℕ s)
    | false ↦ read_positive (read_ℕ (String.◌∷◌ c s))
  ]
]

digit : ℕ → String
digit zero = "0"
digit (suc zero) = "1"
digit (suc (suc zero)) = "2"
digit (suc (suc (suc zero))) = "3"
digit (suc (suc (suc (suc zero)))) = "4"
digit (suc (suc (suc (suc (suc zero))))) = "5"
digit (suc (suc (suc (suc (suc (suc zero)))))) = "6"
digit (suc (suc (suc (suc (suc (suc (suc zero))))))) = "7"
digit (suc (suc (suc (suc (suc (suc (suc (suc zero)))))))) = "8"
digit _ = "9"

-- The decimal digits; the number itself is fuel enough, since it falls in each round.
show_digits : ℕ → ℕ → String
unfolding digit
show_digits zero n = digit n
show_digits (suc f) n = elim (ltb n 10) [
  | true ↦ digit n
  | false ↦ Prim.Native.String.◌++◌ (show_digits f (n / 10)) (digit (n % 10))
]

-- `str(n)`, `f"{n}"`
unfoldable pub show_ℕ : ℕ → String
unfolding show_digits
show_ℕ n = show_digits n n

unfoldable pub show_ℤ : ℤ → String
unfolding show_ℕ
show_ℤ (pos n) = show_ℕ n
show_ℤ (negsuc n) = Prim.Native.String.◌++◌ "-" (show_ℕ (suc n))

-- `m - n` of natural numbers.
abbrev difference : ℕ → ℕ → ℤ
difference m n = if leb n m then pos (m - n) else negsuc (n - m - 1)

infixl 6 ◌+ℤ◌
unfoldable pub ◌+ℤ◌ : ℤ → ℤ → ℤ
pos m +ℤ pos n = pos (m + n)
pos m +ℤ negsuc n = difference m (n + 1)
negsuc m +ℤ pos n = difference n (m + 1)
negsuc m +ℤ negsuc n = negsuc (m + n + 1)

-- `max(a, b)`
unfoldable pub max_ℤ : ℤ → ℤ → ℤ
max_ℤ (pos m) (pos n) = pos (max m n)
max_ℤ (pos m) (negsuc n) = pos m
max_ℤ (negsuc m) (pos n) = pos n
max_ℤ (negsuc m) (negsuc n) = negsuc (min m n)
