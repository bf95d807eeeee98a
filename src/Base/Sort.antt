-- ===== src/Base/Sort.antt =====
-- `sorted`: a stable sort by an order that is given as a test.
use mathlib.Core.Path.{◌≡◌, sym, subst}
use mathlib.Core.Logic.{◌⊎◌, inl, inr}
use mathlib.Core.Bool.{Bool, true, false}
use mathlib.Core.List.{List, [], ◌∷◌, Memᴰ}
use mathlib.Core.List.Memᴰ
use dm_simulator.Base.Booleans.{if◌then◌else◌, Bool-cases}
use dm_simulator.Base.Lists.{All, All-at, All-of_Memᴰ}

module _ {A : Type 0} (le : A → A → Bool) where
  -- An item goes before the items that it is not greater than.
  unfoldable pub insert_by : A → List A → List A
  insert_by x [] = x ∷ []
  insert_by x (y ∷ ys) = let rest = insert_by x ys in if le x y then x ∷ y ∷ ys else y ∷ rest

  unfoldable pub sort_by : List A → List A
  sort_by [] = []
  sort_by (x ∷ xs) = insert_by x (sort_by xs)

  -- Every item is at most the items after it.
  abbrev pub Sorted : List A → Type 0
  Sorted [] = Unit
  Sorted (x ∷ xs) = All (λ y. le x y ≡ true) xs × Sorted xs

  pub mem-insert_by : (x : A) (ys : List A) {z : A} → Memᴰ z (insert_by x ys) → (z ≡ x) ⊎ Memᴰ z ys
  unfolding insert_by
  mem-insert_by x [] {z} m = inl (Memᴰ.eq_of_singleton m)
  mem-insert_by x (y ∷ ys) {z} m = elim (Bool-cases (le x y)) [
    | inl e ↦ Memᴰ.cases_cons (rw e at m)
    | inr e ↦ elim (Memᴰ.cases_cons (rw e at m)) [
      | inl same ↦ inr (Memᴰ.head same)
      | inr n ↦ elim (mem-insert_by x ys n) [ inl same ↦ inl same | inr k ↦ inr (Memᴰ.tail k) ]
    ]
  ]

  insert_by-mem : (x : A) (ys : List A) {z : A} → Memᴰ z (x ∷ ys) → Memᴰ z (insert_by x ys)
  unfolding insert_by
  insert_by-mem x [] {z} m = m
  insert_by-mem x (y ∷ ys) {z} m = elim (Bool-cases (le x y)) [
    | inl e ↦ rw e m
    | inr e ↦ rw e (elim (Memᴰ.cases_cons m) [
      | inl same ↦ Memᴰ.tail (insert_by-mem x ys (Memᴰ.head same))
      | inr n ↦ elim (Memᴰ.cases_cons n) [
        | inl same ↦ Memᴰ.head same
        | inr k ↦ Memᴰ.tail (insert_by-mem x ys (Memᴰ.tail k))
      ]
    ])
  ]

  pub mem-sort_by : (xs : List A) {z : A} → Memᴰ z (sort_by xs) → Memᴰ z xs
  unfolding sort_by
  mem-sort_by [] {z} m = m
  mem-sort_by (x ∷ xs) {z} m = elim (mem-insert_by x (sort_by xs) m) [
    | inl same ↦ Memᴰ.head same
    | inr n ↦ Memᴰ.tail (mem-sort_by xs n)
  ]

  pub sort_by-mem : (xs : List A) {z : A} → Memᴰ z xs → Memᴰ z (sort_by xs)
  unfolding sort_by
  sort_by-mem [] {z} m = m
  sort_by-mem (x ∷ xs) {z} m = elim (Memᴰ.cases_cons m) [
    | inl same ↦ insert_by-mem x (sort_by xs) (Memᴰ.head same)
    | inr n ↦ insert_by-mem x (sort_by xs) (Memᴰ.tail (sort_by-mem xs n))
  ]

  module _ (total : (x y : A) → le x y ≡ false → le y x ≡ true)
      (trans : (x y z : A) → le x y ≡ true → le y z ≡ true → le x z ≡ true) where
    below :
        (x y : A) (ys : List A)
        → le x y ≡ true
        → All (λ z. le y z ≡ true) ys
        → All (λ z. le x z ≡ true) ys
    below x y [] h a = tt
    below x y (z ∷ zs) h (p, a) = (trans x y z h p, below x y zs h a)

    insert_by-Sorted : (x : A) (ys : List A) → Sorted ys → Sorted (insert_by x ys)
    unfolding insert_by
    insert_by-Sorted x [] s = (tt, tt)
    insert_by-Sorted x (y ∷ ys) (a, s) = elim (Bool-cases (le x y)) [
      | inl e ↦ rw e ((e, below x y ys e a), (a, s))
      | inr e ↦ rw e (
        All-of_Memᴰ _ (insert_by x ys) (λ z m. elim (mem-insert_by x ys m) [
          | inl same ↦ subst (λ w. le y w ≡ true) (sym same) (total x y e)
          | inr k ↦ All-at _ ys a k
        ]),
        insert_by-Sorted x ys s,
      )
    ]

    -- The result is in order.
    pub sort_by-Sorted : (xs : List A) → Sorted (sort_by xs)
    unfolding sort_by
    sort_by-Sorted [] = tt
    sort_by-Sorted (x ∷ xs) = insert_by-Sorted x (sort_by xs) (sort_by-Sorted xs)
