-- ===== src/Plots/Comparison/Keys.antt =====
-- Dicts by the values of a row (scripts/plot_results.py).
use mathlib.Core.List.Memᴰ
use dm_simulator.Base.{
  ◌≡◌, ◌≢◌, ◌∙◌, ◌⊎◌, refl, sym, ap, subst, true, false, none, some, List, [], ◌∷◌, ◌++◌, All, Memᴰ,
  Bool-cases, inl, inr, if◌then◌else◌,
}
use dm_simulator.Base.Float.{Floats}
use dm_simulator.Plots.Comparison.{Key, same_key, find_key, insert_key}
use dm_simulator.Plots.Comparison.Baseline.{
  Plain, same_key_sound, same_key_refl, find_key-insert_key,
}

module _ {F : Type 0} ⦃fl : Floats F⦄ {A : Type 0} where
  -- No key stands twice.
  abbrev pub Distinct : List (Key F × A) → Type 0
  Distinct [] = Unit
  Distinct ((k, a) ∷ d) = (find_key k d ≡ none) × Distinct d

  pub insert_key-Distinct :
      (d : List (Key F × A)) (j : Key F) (a : A)
      → Plain j
      → All (λ (i, _). Plain i) d
      → Distinct d
      → Distinct (insert_key d j a)
  unfolding insert_key find_key
  insert_key-Distinct [] j a p ps h = (refl, tt)
  insert_key-Distinct ((i, b) ∷ d) j a p (q, qs) (fresh, h) = elim (Bool-cases (same_key i j)) [
    | inl e ↦ rw e (fresh, h)
    | inr e ↦ rw e (
      find_key-insert_key d j i a p qs ∙ absent e (Bool-cases (same_key j i)),
      insert_key-Distinct d j a p qs h,
    )
  ]
    where
      absent :
          same_key i j ≡ false
          → (same_key j i ≡ true) ⊎ (same_key j i ≡ false)
          → (if same_key j i then some a else find_key i d) ≡ none
      absent e (inr f) = rw f fresh
      absent e (inl f) =
          let same : j ≡ i = same_key_sound j i p f in
          cc (sym (subst (λ x. same_key i x ≡ true) (sym same) (same_key_refl i q)) ∙ e)

  -- An entry of such a dict is what its key finds.
  pub find_key-entry :
      (d : List (Key F × A)) (k : Key F) (a : A)
      → All (λ (i, _). Plain i) d
      → Distinct d
      → Memᴰ (k, a) d
      → find_key k d ≡ some a
  unfolding find_key
  find_key-entry [] k a ps h m = absurd (Memᴰ.not-nil m)
  find_key-entry ((i, b) ∷ d) k a (q, qs) (fresh, h) m = elim (Memᴰ.cases_cons m) [
    | inl e ↦
        let key : k ≡ i = ap (λ (j, _). j) e in
        let value : a ≡ b = ap (λ (_, c). c) e in rw (key, same_key_refl i q) (ap some (sym value))
    | inr n ↦ elim (Bool-cases (same_key i k)) [
      | inr f ↦ rw f (find_key-entry d k a qs h n)
      | inl f ↦
          let same : i ≡ k = same_key_sound i k q f in
          cc (sym (subst (λ x. find_key x d ≡ none) same fresh) ∙ find_key-entry d k a qs h n)
    ]
  ]

  -- What a key finds is an entry.
  pub entry-of_find_key :
      (d : List (Key F × A)) (k : Key F) (a : A)
      → All (λ (i, _). Plain i) d
      → find_key k d ≡ some a
      → Memᴰ (k, a) d
  unfolding find_key
  entry-of_find_key [] k a ps h = cc
  entry-of_find_key ((i, b) ∷ d) k a (q, qs) h = elim (Bool-cases (same_key i k)) [
    | inr f ↦ Memᴰ.tail (entry-of_find_key d k a qs (rw f at h))
    | inl f ↦
        let same : i ≡ k = same_key_sound i k q f in
        let value : some b ≡ some a = rw f at h in Memᴰ.head (cc)
  ]

append-filled : {B : Type 0} (xs : List B) (x : B) → xs ++ (x ∷ []) ≢ []
append-filled [] x h = cc h
append-filled (y ∷ ys) x h = cc h

module _ {F : Type 0} ⦃fl : Floats F⦄ {B : Type 0} where
  -- The lists that a dict holds have items.
  abbrev pub Filled : List (Key F × List B) → Type 0
  Filled = All λ (_, xs). xs ≢ []

  pub insert_key-Filled :
      (d : List (Key F × List B)) (j : Key F) (xs : List B) (x : B)
      → Filled d
      → Filled (insert_key d j (xs ++ (x ∷ [])))
  unfolding insert_key
  insert_key-Filled [] j xs x h = (append-filled xs x, tt)
  insert_key-Filled ((i, b) ∷ d) j xs x (p, h) = elim (Bool-cases (same_key i j)) [
    | inl e ↦ rw e (append-filled xs x, h)
    | inr e ↦ rw e (p, insert_key-Filled d j xs x h)
  ]
