-- ===== src/Base/Raises.antt =====
-- Python's exceptions as values. A raise keeps its class and its message.
use mathlib.Core.Path.{◌≡◌, refl, subst}
use mathlib.Core.Bool.{Bool, true, false}
use mathlib.Core.List.{List, [], ◌∷◌, map}
use mathlib.Core.Logic.{◌↔◌}
use Prim.Native.String.{String}

pub data Exception : Type 0 where
  system_exit : String → Exception
  runtime_error : String → Exception
  key_error : String → Exception
  zero_division_error overflow_error type_error value_error attribute_error stop_iteration :
      Exception
  file_not_found_error : Exception
  called_process_error os_error : String → Exception

pub data Result {ℓ} (A : Type ℓ) : Type ℓ where
  ok : A → Result A
  err : Exception → Result A

-- `if test: raise e`
abbrev pub raise_if : (test : Bool) (e : Exception) → Result (Unit {0})
raise_if false _ = ok tt
raise_if true e = err e

-- The rest of a block runs on the value of its first statement, unless that raises.
infixl 5 ◌>>=◌
abbrev pub ◌>>=◌ {ℓ κ} :
    {B : Type κ} {A : Type ℓ} (first : Result A) (rest : A → Result B) → Result B
(err raised) >>= rest = err raised
(ok value) >>= rest = rest value

pub >>=-eq-ok {ℓ κ} :
    {B : Type κ} {A : Type ℓ} (first : Result A) (rest : A → Result B) {b : B}
    (h : (first >>= rest) ≡ ok b)
    → (a : A) × (first ≡ ok a) × (rest a ≡ ok b)
>>=-eq-ok (err raised) rest h = cc
>>=-eq-ok (ok value) rest h = (value, refl, h)

infixl 5 ◌>>◌
abbrev pub ◌>>◌ {ℓ} : {B : Type ℓ} (check : Result (Unit {0})) (rest : Result B) → Result B
(err raised) >> rest = err raised
(ok _) >> rest = rest

pub >>-eq-ok {ℓ} :
    {B : Type ℓ} (check : Result (Unit {0})) (rest : Result B) {b : B} (h : (check >> rest) ≡ ok b)
    → (check ≡ ok tt) × (rest ≡ ok b)
>>-eq-ok (err raised) rest h = cc
>>-eq-ok (ok u) rest h = (refl, h)

-- What holds of every result of a block, from what its statements return.
pub >>=-Ensures {ℓ κ μ} :
    {A : Type ℓ} {B : Type κ} (P : B → Type μ) (m : Result A) (f : A → Result B)
    → ((a : A) → m ≡ ok a → (b : B) → f a ≡ ok b → P b)
    → (b : B) → (m >>= f) ≡ ok b
    → P b
>>=-Ensures P (ok a) f h b e = h a refl b e
>>=-Ensures P (err x) f h b e = cc

pub >>-Ensures {ℓ μ} :
    {B : Type ℓ} (P : B → Type μ) (m : Result (Unit {0})) (rest : Result B)
    → (m ≡ ok tt → (b : B) → rest ≡ ok b → P b)
    → (b : B) → (m >> rest) ≡ ok b
    → P b
>>-Ensures P (ok u) rest h b e = h refl b e
>>-Ensures P (err x) rest h b e = cc

pub ok-Ensures {ℓ μ} : {B : Type ℓ} (P : B → Type μ) {a : B} → P a → (b : B) → ok a ≡ ok b → P b
ok-Ensures P p b e = subst P (cc) p

-- The computation succeeds.
abbrev pub Succeeds {ℓ} : {A : Type ℓ} → Result A → Type ℓ
Succeeds {A = A} m = (a : A) × (m ≡ ok a)

-- A step that succeeds goes on with its result.
pub >>=-Succeeds {ℓ κ} :
    {A : Type ℓ} {B : Type κ} (m : Result A) (f : A → Result B)
    → Succeeds m
    → ((a : A) → m ≡ ok a → Succeeds (f a))
    → Succeeds (m >>= f)
>>=-Succeeds m f (a, e) h = let (b, r) = h a e in (b, rw e r)

module _ {ℓ κ} {A : Type ℓ} {B : Type κ} where
  -- `for x in xs: out.append(f(x))`, where `f` may raise.
  abbrev pub each : (A → Result B) → List A → Result (List B)
  each f [] = ok []
  each f (x ∷ xs) = do y ← f x; ys ← each f xs; ok (y ∷ ys)

module _ {ℓ} {B : Type ℓ} where
  -- The parts of a successful round and of the rounds after it.
  pub cons-eq-ok :
      (r : Result B) (rest : Result (List B)) (ys : List B)
      → (r >>= λ y. rest >>= λ zs. ok (y ∷ zs)) ≡ ok ys
      → (y : B) × (zs : List B) × (r ≡ ok y) × (rest ≡ ok zs) × (ys ≡ y ∷ zs)
  cons-eq-ok (ok y) (ok zs) ys h = (y, zs, refl, refl, cc)
  cons-eq-ok (ok y) (err e) ys h = cc
  cons-eq-ok (err e) rest ys h = cc

module _ {ℓ κ} {A : Type ℓ} {B : Type κ} where
  pub map-of_each :
      (f : A → Result B) (xs : List A) (ys : List B) → each f xs ≡ ok ys → map f xs ≡ map ok ys
  map-of_each f [] [] h = refl
  map-of_each f [] (y ∷ ys) h = cc
  map-of_each f (x ∷ xs) ys h =
      let (y, zs, head, rest, e) = cons-eq-ok (f x) (each f xs) ys h in
      rw (e, head, map-of_each f xs zs rest)

  pub each-cons :
      (f : A → Result B) (x : A) (xs : List A) {y : B} {ys : List B}
      → f x ≡ ok y
      → each f xs ≡ ok ys
      → each f (x ∷ xs) ≡ ok (y ∷ ys)
  each-cons f x xs e es = rw (e, es)

  pub each-of_map :
      (f : A → Result B) (xs : List A) (ys : List B) → map f xs ≡ map ok ys → each f xs ≡ ok ys
  each-of_map f [] [] h = refl
  each-of_map f [] (y ∷ ys) h = cc
  each-of_map f (x ∷ xs) [] h = cc
  each-of_map f (x ∷ xs) (y ∷ ys) h =
      let head : f x ≡ ok y = cc in
      let rest : map f xs ≡ map ok ys = cc in rw (head, each-of_map f xs ys rest)

  -- A loop succeeds just when each round does, and then with the rounds' results in order.
  pub each-eq-ok_iff :
      (f : A → Result B) (xs : List A) (ys : List B) → (each f xs ≡ ok ys) ↔ (map f xs ≡ map ok ys)
  each-eq-ok_iff f xs ys = (map-of_each f xs ys, each-of_map f xs ys)
