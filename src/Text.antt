-- ===== src/Text.antt =====
-- Python's `str` methods as the scripts use them: `split`, `strip`, `join`, `replace`,
-- `startswith`, `in` and slices. A text is a list of code points.
pub mod Laws
use Prim.Native.Char.{Char, code}
use Prim.Native.String.{String, ◌++◌}
use dm_simulator.Base.{
  ℕ, zero, suc, Bool, true, false, not, ◌&&◌, ◌||◌, List, [], ◌∷◌, leb, ◌==◌, if◌then◌else◌,
  starts_with,
}

-- `c.isspace()` of one character, for every code point.
unfoldable pub is_space : Char → Bool
is_space c =
    (leb 9 (code c) && leb (code c) 13)
    || (leb 28 (code c) && leb (code c) 32)
    || code c == 133
    || code c == 160
    || code c == 5760
    || (leb 8192 (code c) && leb (code c) 8202)
    || code c == 8232
    || code c == 8233
    || code c == 8239
    || code c == 8287
    || code c == 12288

unfoldable pub lstrip : String → String
unfolding is_space
lstrip String.[] = String.[]
lstrip (String.◌∷◌ c s) = if is_space c then lstrip s else String.◌∷◌ c s

-- A character in front of a text that is already stripped on the right.
abbrev cons_strip : Char → String → String
cons_strip c String.[] = if is_space c then String.[] else String.◌∷◌ c String.[]
cons_strip c (String.◌∷◌ d s) = String.◌∷◌ c (String.◌∷◌ d s)

unfoldable pub rstrip : String → String
unfolding is_space
rstrip String.[] = String.[]
rstrip (String.◌∷◌ c s) = cons_strip c (rstrip s)

-- `s.strip()`
unfoldable pub strip : String → String
unfolding lstrip rstrip
strip s = lstrip (rstrip s)

abbrev is_comma : Char → Bool
is_comma c = code c == b','

abbrev pub cons_first : Char → List String → List String
cons_first c [] = (String.◌∷◌ c String.[]) ∷ []
cons_first c (item ∷ items) = (String.◌∷◌ c item) ∷ items

-- `s.split(",")`
unfoldable pub split_comma : String → List String
split_comma String.[] = String.[] ∷ []
split_comma (String.◌∷◌ c s) =
    let rest = split_comma s in if is_comma c then String.[] ∷ rest else cons_first c rest

-- `sep.join(items)`
unfoldable pub join : String → List String → String
join sep [] = String.[]
join sep (item ∷ []) = item
join sep (item ∷ next ∷ items) = item ++ sep ++ join sep (next ∷ items)

-- `needle in text`
unfoldable pub has : String → String → Bool
has String.[] needle = starts_with String.[] needle
has (String.◌∷◌ c s) needle = starts_with (String.◌∷◌ c s) needle || has s needle

-- `s[:n]`
unfoldable pub prefix : ℕ → String → String
prefix zero s = String.[]
prefix (suc n) String.[] = String.[]
prefix (suc n) (String.◌∷◌ c s) = String.◌∷◌ c (prefix n s)

abbrev pub nonempty : String → Bool
nonempty String.[] = false
nonempty (String.◌∷◌ c s) = true

-- `s.replace(old, new)` for an `old` of one character.
unfoldable pub replace : ℕ → String → String → String
replace old new String.[] = String.[]
replace old new (String.◌∷◌ c s) =
    let rest = replace old new s in if code c == old then new ++ rest else String.◌∷◌ c rest
