-- ===== src/Text/Laws.antt =====
-- Laws of `split`, `strip`, `join`, `in` and slices.
use Prim.Native.Char.{Char}
use Prim.Native.String.{String, ◌++◌, count}
use Prim.Native.String.count
use text.Mathlib.TextLemmas.{
  append_assoc, append-nil, nil-append, cons-append, nil≢cons, cons-eq-cons,
}
use text.Mathlib.TextPositions.{starts_with-append}
use mathlib.Core.List.Memᴰ
use mathlib.Core.List.{Memᴰ}
use dm_simulator.Base.{
  ℕ, zero, suc, ◌≤◌, ◌≡◌, refl, sym, Bool, true, false, ◌||◌, List, [], ◌∷◌, arith, All,
  starts_with, inl, inr, Bool-cases,
}
use dm_simulator.Text.{
  is_space, lstrip, rstrip, strip, is_comma, split_comma, join, has, prefix, cons_first, cons_strip,
}

-- `needle` stands in `text`, with what is written before and after it.
abbrev pub Within : String → String → Type 0
Within needle text = (before : String) × (after : String) × (text ≡ before ++ (needle ++ after))

or_true : (b : Bool) → (b || true) ≡ true
or_true true = refl
or_true false = refl

has-nil : (s : String) → has s String.[] ≡ true
unfolding has
has-nil String.[] = refl
has-nil (String.◌∷◌ c s) =
    let e : starts_with (String.◌∷◌ c s) String.[] ≡ true =
      rw nil-append at (starts_with-append String.[] (String.◌∷◌ c s)) in
    rw e

has_first :
    (c : Char) (needle after : String)
    → has (String.◌∷◌ c (needle ++ after)) (String.◌∷◌ c needle) ≡ true
unfolding has
has_first c needle after =
    let e : starts_with (String.◌∷◌ c (needle ++ after)) (String.◌∷◌ c needle) ≡ true =
      rw cons-append at (starts_with-append (String.◌∷◌ c needle) after) in
    rw e

has_at : (before needle after : String) → has (before ++ (needle ++ after)) needle ≡ true
unfolding has
has_at String.[] String.[] String.[] = refl
has_at String.[] String.[] (String.◌∷◌ c s) = rw (nil-append, nil-append) (has-nil (String.◌∷◌ c s))
has_at String.[] (String.◌∷◌ c needle) after =
    rw (nil-append, cons-append) (has_first c needle after)
has_at (String.◌∷◌ c before) needle after =
    rw (cons-append, has, has_at before needle after) (or_true (starts_with _ needle))

-- What stands in a text is found in it.
pub has_of_Within : (needle text : String) → Within needle text → has text needle ≡ true
has_of_Within needle text (before, after, e) = rw e (has_at before needle after)

pub Within-append_left :
    (needle text more : String) → Within needle text → Within needle (more ++ text)
Within-append_left needle text more (before, after, e) =
    (more ++ before, after, rw e (sym (append_assoc more before _)))

pub Within-append_right :
    (needle text more : String) → Within needle text → Within needle (text ++ more)
Within-append_right needle text more (before, after, e) =
    (before, after ++ more, rw e (simp append_assoc))

-- A label with the value behind it, in a line that indents the label.
pub Within-value :
    (indent label value : String) → Within (label ++ value) ((indent ++ label) ++ value)
Within-value indent label value = (indent, String.[], simp (append_assoc, append-nil))

-- A text inside a line's fixed part.
pub Within-label :
    (before needle after value : String) → Within needle (((before ++ needle) ++ after) ++ value)
Within-label before needle after value = (before, after ++ value, simp append_assoc)

pub Within-self : (text : String) → Within text text
Within-self text = (String.[], String.[], simp (nil-append, append-nil))

-- What stands in one of the lines stands in the joined text.
pub Within-join :
    (sep needle : String) {line : String} (lines : List String)
    → Memᴰ line lines
    → Within needle line
    → Within needle (join sep lines)
unfolding join
Within-join sep needle [] m w = absurd (Memᴰ.not-nil m)
Within-join sep needle (item ∷ []) (Memᴰ.head e) w = rw (← e) w
Within-join sep needle (item ∷ []) (Memᴰ.tail m) w = absurd (Memᴰ.not-nil m)
Within-join sep needle (item ∷ next ∷ items) (Memᴰ.head e) w =
    Within-append_right needle item _ (rw (← e) w)
Within-join sep needle (item ∷ next ∷ items) (Memᴰ.tail m) w =
    Within-append_left needle _ item
      (Within-append_left needle _ sep (Within-join sep needle (next ∷ items) m w))

abbrev pub NoComma : String → Type 0
NoComma String.[] = Unit
NoComma (String.◌∷◌ c s) = (is_comma c ≡ false) × NoComma s

cons_first-NoComma :
    (c : Char) (items : List String)
    → is_comma c ≡ false
    → All NoComma items
    → All NoComma (cons_first c items)
cons_first-NoComma c [] e h = ((e, tt), tt)
cons_first-NoComma c (item ∷ items) e (h, hs) = ((e, h), hs)

pub split_comma-NoComma : (s : String) → All NoComma (split_comma s)
unfolding split_comma
split_comma-NoComma String.[] = (tt, tt)
split_comma-NoComma (String.◌∷◌ c s) = elim (Bool-cases (is_comma c)) [
  | inl e ↦ rw e (tt, split_comma-NoComma s)
  | inr e ↦ rw e (cons_first-NoComma c (split_comma s) e (split_comma-NoComma s))
]

pub split_comma-ne-nil : (item : String) → NoComma item → split_comma item ≡ item ∷ []
unfolding split_comma
split_comma-ne-nil String.[] h = refl
split_comma-ne-nil (String.◌∷◌ c s) (h, hs) = rw (h, split_comma-ne-nil s hs)

pub split_comma-append :
    (item rest : String)
    → NoComma item
    → split_comma (item ++ "," ++ rest) ≡ item ∷ split_comma rest
unfolding split_comma
split_comma-append String.[] rest h = rw (nil-append, cons-append, nil-append)
split_comma-append (String.◌∷◌ c s) rest (h, hs) =
    rw (cons-append, split_comma, h, split_comma-append s rest hs)

-- A right-stripped text stays one when it loses characters on the left.
rstrip_peel :
    (c d : Char) (s t : String)
    → cons_strip c t ≡ String.◌∷◌ c (String.◌∷◌ d s)
    → t ≡ String.◌∷◌ d s
rstrip_peel c d s String.[] h = elim (Bool-cases (is_space c)) [
  | inl e ↦ absurd (nil≢cons (rw e at h))
  | inr e ↦ absurd (nil≢cons (cons-eq-cons.0 (rw e at h)).1)
]
rstrip_peel c d s (String.◌∷◌ b t) h = (cons-eq-cons.0 h).1

rstrip-cons_strip :
    (c : Char) (t : String) → rstrip t ≡ t → rstrip (cons_strip c t) ≡ cons_strip c t
unfolding rstrip
rstrip-cons_strip c String.[] h = elim (Bool-cases (is_space c)) [
  | inl e ↦ rw e
  | inr e ↦ rw e (rw (rstrip, e))
]
rstrip-cons_strip c (String.◌∷◌ d t) h = rw (rstrip, h)

rstrip-tail : (c : Char) (s : String) → rstrip (String.◌∷◌ c s) ≡ String.◌∷◌ c s → rstrip s ≡ s
unfolding rstrip
rstrip-tail c String.[] h = refl
rstrip-tail c (String.◌∷◌ d s) h = rstrip_peel c d s (cons_strip d (rstrip s)) h

rstrip_idem : (s : String) → rstrip (rstrip s) ≡ rstrip s
unfolding rstrip
rstrip_idem String.[] = refl
rstrip_idem (String.◌∷◌ c s) = rstrip-cons_strip c (rstrip s) (rstrip_idem s)

rstrip-lstrip : (s : String) → rstrip s ≡ s → rstrip (lstrip s) ≡ lstrip s
unfolding lstrip
rstrip-lstrip String.[] h = h
rstrip-lstrip (String.◌∷◌ c s) h = elim (Bool-cases (is_space c)) [
  | inl e ↦ rw e (rstrip-lstrip s (rstrip-tail c s h))
  | inr e ↦ rw e h
]

lstrip_idem : (s : String) → lstrip (lstrip s) ≡ lstrip s
unfolding lstrip
lstrip_idem String.[] = refl
lstrip_idem (String.◌∷◌ c s) = elim (Bool-cases (is_space c)) [
  | inl e ↦ rw e (lstrip_idem s)
  | inr e ↦ rw e (rw e)
]

-- Stripping a stripped text changes nothing.
pub strip_idem : (s : String) → strip (strip s) ≡ strip s
unfolding strip
strip_idem s = rw (rstrip-lstrip (rstrip s) (rstrip_idem s)) (lstrip_idem (rstrip s))

lstrip-NoComma : (s : String) → NoComma s → NoComma (lstrip s)
unfolding lstrip
lstrip-NoComma String.[] h = h
lstrip-NoComma (String.◌∷◌ c s) (h, hs) = elim (Bool-cases (is_space c)) [
  | inl e ↦ rw e (lstrip-NoComma s hs)
  | inr e ↦ rw e (h, hs)
]

cons_strip-NoComma :
    (c : Char) (t : String) → is_comma c ≡ false → NoComma t → NoComma (cons_strip c t)
cons_strip-NoComma c String.[] h ht = elim (Bool-cases (is_space c)) [
  | inl e ↦ rw e tt
  | inr e ↦ rw e (h, tt)
]
cons_strip-NoComma c (String.◌∷◌ d t) h ht = (h, ht)

rstrip-NoComma : (s : String) → NoComma s → NoComma (rstrip s)
unfolding rstrip
rstrip-NoComma String.[] h = h
rstrip-NoComma (String.◌∷◌ c s) (h, hs) = cons_strip-NoComma c (rstrip s) h (rstrip-NoComma s hs)

pub strip-NoComma : (s : String) → NoComma s → NoComma (strip s)
unfolding strip
strip-NoComma s h = lstrip-NoComma (rstrip s) (rstrip-NoComma s h)

pub count-prefix-le : (n : ℕ) (s : String) → count (prefix n s) ≤ n
unfolding prefix
count-prefix-le zero s = omega arith
count-prefix-le (suc n) String.[] = omega arith
count-prefix-le (suc n) (String.◌∷◌ c s) =
    omega (arith, count-prefix-le n s, count.cons c (prefix n s))
