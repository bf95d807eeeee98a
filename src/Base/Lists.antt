-- ===== src/Base/Lists.antt =====
-- Lists measured by native numbers, predicates on all or some items, and Python's `in`.
use Prim.Native.Nat.{ℕ, zero, suc, ◌+◌, ◌*◌, ◌≤◌}
use Prim.Native.String.{String}
use mathlib.Core.Path.{◌≡◌, ◌∙◌, refl, ap, sym, subst}
use mathlib.Core.Logic.{inl, inr}
use mathlib.Core.Option.{Option, none, some}
use mathlib.Core.Bool.{Bool, true, false, ◌||◌}
use mathlib.Core.List.{List, [], ◌∷◌, ◌++◌, Memᴰ, map, flat_map}
use mathlib.Core.List.Memᴰ
use dm_simulator.Base.Booleans.{if◌then◌else◌, Bool-cases}
use text.Mathlib.TextEquality.{eq_iff}
use native.Mathlib.Omega.{arith}
use text.Mathlib.Text.{◌==◌ as str_eq}

module _ {ℓ} {A : Type ℓ} where
  abbrev pub length : List A → ℕ
  length [] = 0
  length (x ∷ xs) = suc (length xs)

  abbrev pub take : ℕ → List A → List A
  take zero xs = []
  take (suc n) [] = []
  take (suc n) (x ∷ xs) = x ∷ take n xs

  pub length-append : (xs ys : List A) → length (xs ++ ys) ≡ length xs + length ys
  length-append [] ys = omega arith
  length-append (x ∷ xs) ys = omega (arith, length-append xs ys)

  pub length-take : (n : ℕ) (xs : List A) → n ≤ length xs → length (take n xs) ≡ n
  length-take zero xs h = refl
  length-take (suc n) [] h = elim h [ ]
  length-take (suc n) (x ∷ xs) h = ap suc (length-take n xs (omega arith))

  abbrev pub get_elem? : List A → ℕ → Option A
  get_elem? [] i = none
  get_elem? (x ∷ xs) zero = some x
  get_elem? (x ∷ xs) (suc i) = get_elem? xs i

  pub mem_at : (xs : List A) (i : ℕ) {x : A} → get_elem? xs i ≡ some x → Memᴰ x xs
  mem_at [] i h = cc
  mem_at (y ∷ ys) zero h = Memᴰ.head (cc)
  mem_at (y ∷ ys) (suc i) h = Memᴰ.tail (mem_at ys i h)

  -- `[x for x in xs if test(x)]`
  abbrev pub keep : (A → Bool) → List A → List A
  keep test [] = []
  keep test (x ∷ xs) = let rest = keep test xs in if test x then x ∷ rest else rest

module _ {ℓ κ} {A : Type ℓ} where
  abbrev pub All : (A → Type κ) → List A → Type κ
  All P [] = Unit
  All P (x ∷ xs) = P x × All P xs

module _ {ℓ κ} {A : Type ℓ} (P : A → Type κ) where
  pub All-append : (xs ys : List A) → All P xs → All P ys → All P (xs ++ ys)
  All-append [] ys h k = k
  All-append (x ∷ xs) ys (p, h) k = (p, All-append xs ys h k)

  pub All-at : (xs : List A) {x : A} → All P xs → Memᴰ x xs → P x
  All-at [] h m = absurd (Memᴰ.not-nil m)
  All-at (y ∷ ys) (p, h) (Memᴰ.head e) = subst P (sym e) p
  All-at (y ∷ ys) (p, h) (Memᴰ.tail m) = All-at ys h m

  pub All-of_Memᴰ : (xs : List A) → ((x : A) → Memᴰ x xs → P x) → All P xs
  All-of_Memᴰ [] h = tt
  All-of_Memᴰ (x ∷ xs) h = (h x (Memᴰ.head refl), All-of_Memᴰ xs (λ y m. h y (Memᴰ.tail m)))

-- `fs ⊛ xs` applies each function to each item, the items varying fastest: the step by which
-- `itertools.product` adds a pool to the products before it.
module _ {ℓ} {A : Type ℓ} where
  -- The items of all the lists, in order.
  abbrev pub concat : List (List A) → List A
  concat [] = []
  concat (xs ∷ xss) = xs ++ concat xss

module _ {ℓ κ} {A : Type ℓ} {B : Type κ} where
  infixl 60 ◌⊛◌
  unfoldable pub ◌⊛◌ : List (A → B) → List A → List B
  [] ⊛ xs = []
  (f ∷ fs) ⊛ xs = map f xs ++ (fs ⊛ xs)

  pub length-map : (f : A → B) (xs : List A) → length (map f xs) ≡ length xs
  length-map f [] = refl
  length-map f (x ∷ xs) = ap suc (length-map f xs)

  pub length-⊛ : (fs : List (A → B)) (xs : List A) → length (fs ⊛ xs) ≡ length fs * length xs
  unfolding ◌⊛◌
  length-⊛ [] xs = omega arith
  length-⊛ (f ∷ fs) xs =
      omega (arith, length-append (map f xs) (fs ⊛ xs), length-map f xs, length-⊛ fs xs)

  pub ⊛-mem :
      {f : A → B} {x : A} {fs : List (A → B)} {xs : List A}
      → Memᴰ f fs
      → Memᴰ x xs
      → Memᴰ (f x) (fs ⊛ xs)
  unfolding ◌⊛◌
  ⊛-mem {x = x} (Memᴰ.head e) n = Memᴰ.append_left _ (Memᴰ.cast (ap (λ g. g x) e) (Memᴰ.map _ n))
  ⊛-mem (Memᴰ.tail m) n = Memᴰ.append_right _ (⊛-mem m n)

  -- What holds of every function at every item holds of every member.
  pub ⊛-all :
      (Q : B → Type (ℓ ⊔ κ)) (fs : List (A → B)) (xs : List A)
      → ((f : A → B) → Memᴰ f fs → (x : A) → Memᴰ x xs → Q (f x))
      → (y : B) → Memᴰ y (fs ⊛ xs)
      → Q y
  unfolding ◌⊛◌
  ⊛-all Q [] xs h y m = absurd (Memᴰ.not-nil m)
  ⊛-all Q (f ∷ fs) xs h y m = elim (Memᴰ.append_cases (map f xs) m) [
    | inl n ↦ let (x, k, e) = Memᴰ.of_map f xs n in subst Q e (h f (Memᴰ.head refl) x k)
    | inr n ↦ ⊛-all Q fs xs (λ g k. h g (Memᴰ.tail k)) y n
  ]

-- Python's `in` on texts.
abbrev pub contains : List String → String → Bool
contains [] a = false
contains (x ∷ xs) a = str_eq x a || contains xs a

-- What holds of all names holds of a text that is one of them.
pub contains-all {ℓ} :
    (P : String → Type ℓ) (names : List String) (k : String)
    → All P names
    → contains names k ≡ true
    → P k
contains-all P [] k h c = cc
contains-all P (name ∷ names) k (p, ps) c = elim (Bool-cases (str_eq name k)) [
  | inl e ↦ subst P ((eq_iff name k).0 e) p
  | inr e ↦ contains-all P names k ps (rw e at c)
]

pub All-imp {ℓ κ μ} :
    {A : Type ℓ} {P : A → Type κ} {Q : A → Type μ} (h : (x : A) → P x → Q x) (xs : List A)
    → All P xs
    → All Q xs
All-imp h [] a = tt
All-imp h (x ∷ xs) (p, a) = (h x p, All-imp h xs a)

pub contains_of_mem : (xs : List String) {x : String} → Memᴰ x xs → contains xs x ≡ true
contains_of_mem [] m = absurd (Memᴰ.not-nil m)
contains_of_mem (y ∷ ys) {x} (Memᴰ.head e) = rw ((eq_iff y x).1 (sym e))
contains_of_mem (y ∷ ys) {x} (Memᴰ.tail m) = ground (arith, contains_of_mem ys m)

-- A proof of `All` for a list that is written out: one proof an item, with `tt` at the end.
infixr 4 ◌&◌
abbrev pub ◌&◌ {ℓ κ} : {A : Type ℓ} {B : Type κ} → A → B → A × B
a & b = (a, b)

pub append_assoc : {A : Type 0} (xs ys zs : List A) → (xs ++ ys) ++ zs ≡ xs ++ (ys ++ zs)
append_assoc [] ys zs = refl
append_assoc (x ∷ xs) ys zs = ap (λ l. x ∷ l) (append_assoc xs ys zs)

pub append_nil : {A : Type 0} (xs : List A) → xs ++ [] ≡ xs
append_nil [] = refl
append_nil (x ∷ xs) = ap (λ l. x ∷ l) (append_nil xs)

pub mem-keep :
    {A : Type 0} (f : A → Bool) (xs : List A) {x : A}
    → Memᴰ x (keep f xs)
    → Memᴰ x xs × (f x ≡ true)
mem-keep f [] m = absurd (Memᴰ.not-nil m)
mem-keep f (y ∷ xs) {x} m = elim (Bool-cases (f y)) [
  | inr e ↦ let (n, t) = mem-keep f xs (rw e at m) in (Memᴰ.tail n, t)
  | inl e ↦ elim (Memᴰ.cases_cons (rw e at m)) [
    | inl same ↦ (Memᴰ.head same, ap f same ∙ e)
    | inr n ↦ let (k, t) = mem-keep f xs n in (Memᴰ.tail k, t)
  ]
]

pub keep-mem :
    {A : Type 0} (f : A → Bool) (xs : List A) {x : A} → Memᴰ x xs → f x ≡ true → Memᴰ x (keep f xs)
keep-mem f [] m t = absurd (Memᴰ.not-nil m)
keep-mem f (y ∷ xs) {x} m t = elim (Bool-cases (f y)) [
  | inl e ↦ rw e (elim (Memᴰ.cases_cons m) [
    | inl same ↦ Memᴰ.head same
    | inr n ↦ Memᴰ.tail (keep-mem f xs n t)
  ])
  | inr e ↦ elim (Memᴰ.cases_cons m) [
    | inl same ↦ cc (sym t ∙ ap f same ∙ e)
    | inr n ↦ rw e (keep-mem f xs n t)
  ]
]

pub mem-flat_map :
    {A B : Type 0} (f : A → List B) (xs : List A) {y : B}
    → Memᴰ y (flat_map f xs)
    → (x : A) × Memᴰ y (f x)
unfolding flat_map
mem-flat_map f [] m = absurd (Memᴰ.not-nil m)
mem-flat_map f (x ∷ xs) m = elim (Memᴰ.append_cases (f x) m) [
  | inl here ↦ (x, here)
  | inr there ↦ mem-flat_map f xs there
]
