-- ===== src/Base/Sets.antt =====
-- Python's sets of texts, as lists without repetition, and `sorted`.
use Prim.Native.Char.{code}
use Prim.Native.Nat.{suc, ◌≤◌}
use Prim.Native.String.{String}
use mathlib.Core.Path.{◌≡◌, refl, ap, subst}
use mathlib.Core.Logic.{◌↔◌, inl, inr}
use mathlib.Core.Bool.{Bool, true, false, ◌&&◌}
use mathlib.Core.List.{List, [], ◌∷◌}
use native.Mathlib.Omega.{arith}
use text.Mathlib.Text.{◌==◌ as str_eq}
use text.Mathlib.TextEquality.{eq_iff}
use dm_simulator.Base.Booleans.{ltb, ◌==◌, if◌then◌else◌, Bool-cases}
use dm_simulator.Base.Lists.{length, All, contains}
use dm_simulator.Base.Dict.{NodupKeys}

-- `set(xs)`, each member once.
unfoldable pub dedup : List String → List String
dedup [] = []
dedup (x ∷ xs) = let rest = dedup xs in if contains rest x then rest else x ∷ rest

pub contains-dedup : (xs : List String) (k : String) → contains (dedup xs) k ≡ contains xs k
unfolding dedup
contains-dedup [] k = refl
contains-dedup (x ∷ xs) k = elim (Bool-cases (contains (dedup xs) x)) [
  | inr e ↦ rw (e, contains-dedup xs k) refl
  | inl e ↦ elim (Bool-cases (str_eq x k)) [
    | inl same ↦ rw (e, same) (subst (λ y. contains (dedup xs) y ≡ true) ((eq_iff x k).0 same) e)
    | inr other ↦ rw (e, other) (contains-dedup xs k)
  ]
]

pub dedup-NodupKeys : (xs : List String) → NodupKeys (dedup xs)
unfolding dedup
dedup-NodupKeys [] = tt
dedup-NodupKeys (x ∷ xs) = elim (Bool-cases (contains (dedup xs) x)) [
  | inl e ↦ rw e (dedup-NodupKeys xs)
  | inr e ↦ rw e (e, dedup-NodupKeys xs)
]

length-dedup-le : (xs : List String) → length (dedup xs) ≤ length xs
unfolding dedup
length-dedup-le [] = omega arith
length-dedup-le (x ∷ xs) = ground (arith, length-dedup-le xs)

length-dedup : (xs : List String) → NodupKeys xs → length (dedup xs) ≡ length xs
unfolding dedup
length-dedup [] h = refl
length-dedup (x ∷ xs) (fresh, h) = rw (contains-dedup xs x, fresh) (ap suc (length-dedup xs h))

NodupKeys-of_length : (xs : List String) → length (dedup xs) ≡ length xs → NodupKeys xs
unfolding dedup
NodupKeys-of_length [] h = tt
NodupKeys-of_length (x ∷ xs) h = elim (Bool-cases (contains (dedup xs) x)) [
  | inl e ↦ absurd (omega (arith, rw e at h, length-dedup-le xs))
  | inr e ↦ (
    subst (λ b. b ≡ false) (contains-dedup xs x) e,
    NodupKeys-of_length xs (omega (arith, rw e at h)),
  )
]

-- No text is repeated just when the set is as long as the list.
pub NodupKeys_iff : (xs : List String) → NodupKeys xs ↔ (length (dedup xs) ≡ length xs)
NodupKeys_iff xs = (length-dedup xs, NodupKeys-of_length xs)

-- `xs <= ys` of sets, and `xs == ys`.
abbrev pub subset : List String → List String → Bool
subset [] ys = true
subset (x ∷ xs) ys = contains ys x && subset xs ys

abbrev pub same_set : List String → List String → Bool
same_set xs ys = subset xs ys && subset ys xs

pub subset_iff : (xs ys : List String) → (subset xs ys ≡ true) ↔ All (λ x. contains ys x ≡ true) xs
subset_iff [] ys = (λ h. tt, λ h. refl)
subset_iff (x ∷ xs) ys = elim (Bool-cases (contains ys x)) [
  | inl e ↦ (λ h. (e, (subset_iff xs ys).0 (rw e at h)), λ (p, h). rw e ((subset_iff xs ys).1 h))
  | inr e ↦ (λ h. cc (rw e at h), λ (p, h). cc)
]

-- `s <= t` of texts: by code points.
unfoldable pub text_le : String → String → Bool
text_le String.[] t = true
text_le (String.◌∷◌ c s) String.[] = false
text_le (String.◌∷◌ c s) (String.◌∷◌ d t) =
    let rest = text_le s t in
    if ltb (code c) (code d) then true else (if code c == code d then rest else false)

pub text_le-total : (s t : String) → text_le s t ≡ false → text_le t s ≡ true
unfolding text_le
text_le-total String.[] t h = cc
text_le-total (String.◌∷◌ c s) String.[] h = refl
text_le-total (String.◌∷◌ c s) (String.◌∷◌ d t) h = elim (Bool-cases (ltb (code c) (code d))) [
  | inl e ↦ cc (rw e at h)
  | inr e ↦ elim (Bool-cases (code c == code d)) [
    | inl same ↦ let rest = text_le-total s t (rw (e, same) at h) in ground (arith, rest)
    | inr differs ↦ ground arith
  ]
]

pub text_le_trans : (s t u : String) → text_le s t ≡ true → text_le t u ≡ true → text_le s u ≡ true
unfolding text_le
text_le_trans String.[] t u h k = refl
text_le_trans (String.◌∷◌ c s) String.[] u h k = cc
text_le_trans (String.◌∷◌ c s) (String.◌∷◌ d t) String.[] h k = cc
text_le_trans (String.◌∷◌ c s) (String.◌∷◌ d t) (String.◌∷◌ e u) h k =
    let rest = text_le_trans s t u in ground (arith, rest)
