-- ===== src/Base/Rounds.antt =====
-- Loops that may raise, and what their rounds contribute.
use mathlib.Core.Path.{◌≡◌, refl, sym, ap, ◌∙◌, subst}
use mathlib.Core.Logic.{inl, inr}
use mathlib.Core.List.{List, [], ◌∷◌, Memᴰ}
use mathlib.Core.List.Memᴰ
use dm_simulator.Base.Lists.{concat}
use dm_simulator.Base.Raises.{Result, ok, each, cons-eq-ok}

module _ {ℓ} {A : Type ℓ} where
  pub concat-mem :
      (xss : List (List A)) {a : A} {xs : List A} → Memᴰ xs xss → Memᴰ a xs → Memᴰ a (concat xss)
  concat-mem [] m n = absurd (Memᴰ.not-nil m)
  concat-mem (ys ∷ yss) {a} (Memᴰ.head e) n = Memᴰ.append_left _ (subst (Memᴰ a) e n)
  concat-mem (ys ∷ yss) (Memᴰ.tail m) n = Memᴰ.append_right ys (concat-mem yss m n)

  pub mem-concat :
      (xss : List (List A)) {a : A} → Memᴰ a (concat xss) → (xs : List A) × Memᴰ xs xss × Memᴰ a xs
  mem-concat [] m = absurd (Memᴰ.not-nil m)
  mem-concat (ys ∷ yss) m = elim (Memᴰ.append_cases ys m) [
    | inl n ↦ (ys, Memᴰ.head refl, n)
    | inr n ↦ let (xs, k, l) = mem-concat yss n in (xs, Memᴰ.tail k, l)
  ]

module _ {ℓ κ} {A : Type ℓ} {B : Type κ} (f : A → Result B) where
  -- The round of an item, in a loop that succeeded.
  pub each-round :
      (xs : List A) (ys : List B) {x : A}
      → each f xs ≡ ok ys
      → Memᴰ x xs
      → (y : B) × (f x ≡ ok y) × Memᴰ y ys
  each-round [] ys h m = absurd (Memᴰ.not-nil m)
  each-round (z ∷ xs) ys h (Memᴰ.head e) =
      let (y, zs, first, rest, eq) = cons-eq-ok (f z) (each f xs) ys h in
      (y, ap f e ∙ first, rw eq (Memᴰ.head refl))
  each-round (z ∷ xs) ys h (Memᴰ.tail m) =
      let (w, zs, first, rest, eq) = cons-eq-ok (f z) (each f xs) ys h in
      let (y, e, n) = each-round xs zs rest m in (y, e, rw eq (Memᴰ.tail n))

  -- The item of a round's result.
  pub round-each :
      (xs : List A) (ys : List B) {y : B}
      → each f xs ≡ ok ys
      → Memᴰ y ys
      → (x : A) × Memᴰ x xs × (f x ≡ ok y)
  round-each [] [] h m = absurd (Memᴰ.not-nil m)
  round-each [] (y ∷ ys) h m = cc
  round-each (z ∷ xs) ys {y = v} h m =
      let (w, zs, first, rest, eq) = cons-eq-ok (f z) (each f xs) ys h in
      elim (Memᴰ.cases_cons (subst (Memᴰ v) eq m)) [
        | inl e ↦ (z, Memᴰ.head refl, first ∙ ap ok (sym e))
        | inr n ↦ let (x, k, e) = round-each xs zs rest n in (x, Memᴰ.tail k, e)
      ]

  -- A loop whose rounds all succeed succeeds.
  pub each_total :
      (xs : List A)
      → ((x : A) → Memᴰ x xs → (y : B) × (f x ≡ ok y))
      → (ys : List B) × (each f xs ≡ ok ys)
  each_total [] h = ([], refl)
  each_total (x ∷ xs) h =
      let (y, e) = h x (Memᴰ.head refl) in
      let (ys, es) = each_total xs (λ z m. h z (Memᴰ.tail m)) in (y ∷ ys, rw (e, es))
