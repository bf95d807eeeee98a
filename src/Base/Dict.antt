-- ===== src/Base/Dict.antt =====
-- Python's dicts with text keys, in insertion order.
use Prim.Native.String.{String}
use mathlib.Core.Path.{◌≡◌, ◌∙◌, refl, ap, sym, subst}
use mathlib.Core.Option.{Option, none, some}
use mathlib.Core.List.{List, [], ◌∷◌, map}
use native.Mathlib.Omega.{arith}
use text.Mathlib.Text.{◌==◌ as str_eq}
use text.Mathlib.TextEquality.{eq_iff}
use mathlib.Core.Bool.{Bool, true, false, ◌||◌}
use mathlib.Core.List.{Memᴰ}
use mathlib.Core.List.Memᴰ
use mathlib.Core.Logic.{inl, inr}
use dm_simulator.Base.Booleans.{if◌then◌else◌, Bool-cases}
use dm_simulator.Base.Lists.{contains}

abbrev pub Dict {ℓ} : Type ℓ → Type ℓ
Dict V = List (String × V)

-- No key stands twice.
abbrev pub NodupKeys : List String → Type 0
NodupKeys [] = Unit
NodupKeys (k ∷ ks) = (contains ks k ≡ false) × NodupKeys ks

or_true : (b : Bool) → (b || true) ≡ true
or_true true = refl
or_true false = refl

module _ {ℓ} {V : Type ℓ} where
  -- `d.get(k)`
  unfoldable pub get : Dict V → String → Option V
  get [] k = none
  get ((j, v) ∷ d) k = if str_eq j k then some v else get d k

  -- `d[k] = v`
  unfoldable pub insert : Dict V → String → V → Dict V
  insert [] k v = (k, v) ∷ []
  insert ((j, w) ∷ d) k v = if str_eq j k then (j, v) ∷ d else (j, w) ∷ insert d k v

  -- `d.update(e)`
  unfoldable pub update : Dict V → Dict V → Dict V
  unfolding insert
  update d [] = d
  update d ((k, v) ∷ e) = update (insert d k v) e

  abbrev pub keys : Dict V → List String
  keys = map λ (k, _). k

  pub get-insert :
      (d : Dict V) (k j : String) (v : V)
      → get (insert d k v) j ≡ (if str_eq k j then some v else get d j)
  unfolding get insert
  get-insert [] k j v = refl
  get-insert ((i, w) ∷ d) k j v =
      ground (arith, eq_iff i k, eq_iff i j, eq_iff k j, get-insert d k j v)

  -- Writing to a key that is there leaves the keys and their order.
  pub keys-insert :
      (d : Dict V) (k : String) (v : V) → contains (keys d) k ≡ true → keys (insert d k v) ≡ keys d
  unfolding insert
  keys-insert [] k v h = cc
  keys-insert ((i, w) ∷ d) k v h = elim (Bool-cases (str_eq i k)) [
    | inl e ↦ rw e
    | inr e ↦ rw e (ap (λ ks. i ∷ ks) (keys-insert d k v (rw e at h)))
  ]

  -- A key that is found is one of the keys.
  pub get-contains :
      (d : Dict V) (k : String) {v : V} → get d k ≡ some v → contains (keys d) k ≡ true
  unfolding get
  get-contains [] k h = cc
  get-contains ((i, w) ∷ d) k h = elim (Bool-cases (str_eq i k)) [
    | inl e ↦ rw e
    | inr e ↦ rw e (get-contains d k (rw e at h))
  ]

  pub contains-get :
      (d : Dict V) (k : String) → contains (keys d) k ≡ true → (v : V) × (get d k ≡ some v)
  unfolding get
  contains-get [] k h = cc
  contains-get ((i, w) ∷ d) k h = elim (Bool-cases (str_eq i k)) [
    | inl e ↦ (w, rw e)
    | inr e ↦ let (v, found) = contains-get d k (rw e at h) in (v, rw e found)
  ]

  pub mem-contains : (d : Dict V) {k : String} {v : V} → Memᴰ (k, v) d → contains (keys d) k ≡ true
  mem-contains [] m = absurd (Memᴰ.not-nil m)
  mem-contains ((i, w) ∷ d) {k} (Memᴰ.head e) = rw ((eq_iff i k).1 (sym (ap (λ p. p.0) e)))
  mem-contains ((i, w) ∷ d) {k} (Memᴰ.tail m) = rw (mem-contains d m) (or_true (str_eq i k))

  -- An entry of a dict is what its key finds.
  pub get_of_mem :
      (d : Dict V) {k : String} {v : V} → NodupKeys (keys d) → Memᴰ (k, v) d → get d k ≡ some v
  unfolding get
  get_of_mem [] u m = absurd (Memᴰ.not-nil m)
  get_of_mem ((i, w) ∷ d) {k} {v} u (Memᴰ.head e) =
      rw ((eq_iff i k).1 (sym (ap (λ p. p.0) e))) (ap some (sym (ap (λ p. p.1) e)))
  get_of_mem ((i, w) ∷ d) {k} {v} (fresh, u) (Memᴰ.tail m) = elim (Bool-cases (str_eq i k)) [
    | inl e ↦
        cc (mem-contains d m, subst (λ j. contains (keys d) j ≡ false) ((eq_iff i k).0 e) fresh)
    | inr e ↦ rw e (get_of_mem d u m)
  ]

-- The keys after `d[k] = v`, and after `d.update(e)`.
abbrev pub add_key : List String → String → List String
add_key [] k = k ∷ []
add_key (j ∷ ks) k = let rest = add_key ks k in if str_eq j k then j ∷ ks else j ∷ rest

abbrev pub add_keys : List String → List String → List String
add_keys ks [] = ks
add_keys ks (j ∷ js) = add_keys (add_key ks j) js

module _ {ℓ} {V : Type ℓ} where
  keys-insert_add : (d : Dict V) (k : String) (v : V) → keys (insert d k v) ≡ add_key (keys d) k
  unfolding insert
  keys-insert_add [] k v = refl
  keys-insert_add ((j, w) ∷ d) k v = elim (Bool-cases (str_eq j k)) [
    | inl e ↦ rw e
    | inr e ↦ rw e (ap (λ ks. j ∷ ks) (keys-insert_add d k v))
  ]

  pub keys-update : (d e : Dict V) → keys (update d e) ≡ add_keys (keys d) (keys e)
  unfolding update
  keys-update d [] = refl
  keys-update d ((k, v) ∷ e) =
      keys-update (insert d k v) e ∙ ap (λ ks. add_keys ks (keys e)) (keys-insert_add d k v)
