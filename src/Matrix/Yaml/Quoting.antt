-- ===== src/Matrix/Yaml/Quoting.antt =====
-- `yaml_string` (scripts/run_matrix.py), and single-quoted scalars on one line as YAML has them.
use Prim.Native.Char.{Char, code}
use Prim.Native.String.{String, ◌++◌}
use dm_simulator.Base.{
  ◌≡◌, refl, sym, ap, Bool, true, false, not, ◌&&◌, ◌||◌, Option, none, some, ◌==◌, ◌∙◌, Bool-cases,
  both, inl, inr, leb, arith, if◌then◌else◌,
}
use text.Mathlib.TextEquality.{Char-path}
use text.Mathlib.TextLemmas.{cons-append, nil-append, append_assoc}
use dm_simulator.Text.{replace}
use dm_simulator.Matrix.Yaml.{yaml_string}

-- The characters that YAML prints as they are inside a line: tabs and printable characters, no line
-- break, no other control character and no byte order mark.
unfoldable pub is_inline : Char → Bool
is_inline c =
    code c == 9
    || (leb 32 (code c) && leb (code c) 126)
    || (leb 160 (code c) && leb (code c) 8231)
    || (leb 8234 (code c) && leb (code c) 55295)
    || (leb 57344 (code c) && leb (code c) 65278)
    || (leb 65280 (code c) && leb (code c) 65533)
    || leb 65536 (code c)

unfoldable pub all_inline : String → Bool
all_inline String.[] = true
all_inline (String.◌∷◌ c s) = is_inline c && all_inline s

-- A character before the text that a reader returns.
abbrev put : Char → Option (String × String) → Option (String × String)
put c none = none
put c (some (s, rest)) = some (String.◌∷◌ c s, rest)

-- The body of a single-quoted scalar and what follows its closing quote. Two quotes stand for one.
-- The flag says that a quote has been read whose meaning is open. A scalar that goes on in the
-- next line, where YAML folds the line break, is not read.
unfoldable pub read_body : Bool → String → Option (String × String)
read_body true String.[] = some (String.[], String.[])
read_body false String.[] = none
read_body pending (String.◌∷◌ c s) =
    let quote = read_body true s in
    let next = read_body false s in
    if pending
    then (if code c == 39 then put c next else some (String.[], String.◌∷◌ c s))
    else (if code c == 39 then quote else (if is_inline c then put c next else none))

-- A single-quoted scalar, and the text after it.
unfoldable pub read_scalar : String → Option (String × String)
unfolding read_body
read_scalar String.[] = none
read_scalar (String.◌∷◌ c s) = if code c == 39 then read_body false s else none

-- A quote before this text is the last of its scalar.
unfoldable pub ends_scalar : String → Bool
ends_scalar String.[] = true
ends_scalar (String.◌∷◌ c s) = not (code c == 39)

abbrev apostrophe : Char
apostrophe = "'"

quote-append : (s : String) → "'" ++ s ≡ String.◌∷◌ apostrophe s
quote-append s = cons-append apostrophe String.[] s ∙ ap (String.◌∷◌ apostrophe) (nil-append s)

quotes-append :
    (s t : String) → ("''" ++ s) ++ t ≡ String.◌∷◌ apostrophe (String.◌∷◌ apostrophe (s ++ t))
quotes-append s t =
    ap (λ u. u ++ t) (cons-append apostrophe "'" s ∙ ap (String.◌∷◌ apostrophe) (quote-append s))
    ∙ cons-append apostrophe _ t
    ∙ ap (String.◌∷◌ apostrophe) (cons-append apostrophe s t)

read_body-close :
    (rest : String) → ends_scalar rest ≡ true → read_body true rest ≡ some (String.[], rest)
unfolding read_body ends_scalar
read_body-close String.[] h = refl
read_body-close (String.◌∷◌ c s) h = elim (Bool-cases (code c == 39)) [
  | inl e ↦ cc (rw e at h)
  | inr e ↦ rw e refl
]

read_body-replace :
    (value rest : String)
    → all_inline value ≡ true
    → ends_scalar rest ≡ true
    → read_body false (replace 39 "''" value ++ String.◌∷◌ apostrophe rest) ≡ some (value, rest)
unfolding read_body replace all_inline
read_body-replace String.[] rest h close =
    rw (nil-append (String.◌∷◌ apostrophe rest)) (read_body-close rest close)
read_body-replace (String.◌∷◌ c s) rest h close =
    let (inline, later) = both (is_inline c) (all_inline s) h in
    let tail = String.◌∷◌ apostrophe rest in
    let read = read_body-replace s rest later close in
    elim (Bool-cases (code c == 39)) [
      | inl e ↦
          let same : apostrophe ≡ c = sym (Char-path c apostrophe (ground arith)) in
          rw (e, quotes-append (replace 39 "''" s) tail, read)
            (ap (λ d. some (String.◌∷◌ d s, rest)) same)
      | inr e ↦ rw (e, cons-append c (replace 39 "''" s) tail, read, e, inline) refl
    ]

-- A YAML reader of single-quoted scalars on one line gets from `yaml_string` the text that was
-- quoted, whatever quotes it holds, and stops at its end, if the text has only tabs and printable
-- characters and what follows does not begin with a quote.
pub read_scalar-yaml_string :
    (value rest : String)
    → all_inline value ≡ true
    → ends_scalar rest ≡ true
    → read_scalar (yaml_string value ++ rest) ≡ some (value, rest)
unfolding read_scalar yaml_string
read_scalar-yaml_string value rest h close =
    let quoted = replace 39 "''" value in
    rw
      (
        append_assoc "'" (quoted ++ "'") rest,
        quote-append ((quoted ++ "'") ++ rest),
        append_assoc quoted "'" rest,
        quote-append rest,
      )
      (read_body-replace value rest h close)
