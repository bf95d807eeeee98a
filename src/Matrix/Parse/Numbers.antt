-- ===== src/Matrix/Parse/Numbers.antt =====
-- The parsers of numbers (scripts/run_matrix.py).
use dm_simulator.Base.{
  ℕ, zero, suc, ◌<◌, String, true, false, ◌≡◌, ◌≢◌, ◌↔◌, refl, Option, none, some, List, [], ◌∷◌,
  map, Result, ok, ◌>>=◌, each, each-eq-ok_iff, arith, All,
}
use dm_simulator.Base.Int.{ℤ, pos, negsuc, int}
use dm_simulator.Base.Float.{Floats, nought, one}
use dm_simulator.Matrix.Parse.{
  parse_csv_list, parse_seeds, parse_positive_ints, parse_nonnegative_ints, at_least_one, seed_of,
  positive_of, nonnegative_of, probability_of, positive_float_of, parse_probabilities,
  parse_positive_floats,
}
use dm_simulator.Matrix.Parse.Items.{at_least_one_iff}

seed_of_iff : (item : String) (o : Option ℤ) (n : ℤ) → (seed_of item o ≡ ok n) ↔ (o ≡ some n)
seed_of_iff item none n = (λ h. cc, λ h. cc)
seed_of_iff item (some m) n = (λ h. cc, λ h. cc)

-- What `int` reads as a number, and the check that each parser makes on it.
positive_of_iff :
    (item : String) (o : Option ℤ) (n : ℕ)
    → (positive_of item o ≡ ok n) ↔ ((o ≡ some (pos n)) × (0 < n))
positive_of_iff item none n = (λ h. cc, λ (h, _). cc)
positive_of_iff item (some (pos zero)) n = (λ h. cc, λ (h, p). ground arith)
positive_of_iff item (some (pos (suc m))) n = (λ h. ground arith, λ (h, p). ground arith)
positive_of_iff item (some (negsuc m)) n = (λ h. cc, λ (h, _). cc)

nonnegative_of_iff :
    (item : String) (o : Option ℤ) (n : ℕ) → (nonnegative_of item o ≡ ok n) ↔ (o ≡ some (pos n))
nonnegative_of_iff item none n = (λ h. cc, λ h. cc)
nonnegative_of_iff item (some (pos m)) n = (λ h. cc, λ h. cc)
nonnegative_of_iff item (some (negsuc m)) n = (λ h. cc, λ h. cc)

-- A loop whose round reads an item and checks what was read.
module _ {B C : Type 0} (f : String → Result B) (read : String → C) (w : B → C)
    (P : B → Type 0) where
  module _ (step : (item : String) (b : B) → (f item ≡ ok b) ↔ ((read item ≡ w b) × P b)) where
    rounds_to :
        (items : List String) (bs : List B)
        → map f items ≡ map ok bs
        → (map read items ≡ map w bs) × All P bs
    rounds_to [] [] h = (refl, tt)
    rounds_to [] (b ∷ bs) h = cc
    rounds_to (item ∷ items) [] h = cc
    rounds_to (item ∷ items) (b ∷ bs) h =
        let (r, p) = (step item b).0 (cc) in
        let (rs, ps) = rounds_to items bs (cc) in (rw (r, rs), (p, ps))

    rounds_from :
        (items : List String) (bs : List B)
        → map read items ≡ map w bs
        → All P bs
        → map f items ≡ map ok bs
    rounds_from [] [] h a = refl
    rounds_from [] (b ∷ bs) h a = cc
    rounds_from (item ∷ items) [] h a = cc
    rounds_from (item ∷ items) (b ∷ bs) h (p, ps) =
        rw ((step item b).1 (cc, p), rounds_from items bs (cc) ps)

    loop_iff :
        (items : List String) (message : String) (bs : List B)
        → ((each f items >>= λ values. at_least_one values message) ≡ ok bs)
          ↔ ((map read items ≡ map w bs) × All P bs × (bs ≢ []))
    loop_iff items message bs = (
      λ h.
          let (e, n) = (at_least_one_iff (each f items) message bs).0 h in
          let (r, p) = rounds_to items bs ((each-eq-ok_iff f items bs).0 e) in (r, p, n),
      λ (r, p, n).
          (at_least_one_iff (each f items) message bs).1
            ((each-eq-ok_iff f items bs).1 (rounds_from items bs r p), n),
    )

units : {A : Type 0} (xs : List A) → All (λ _. Unit {0}) xs
units [] = tt
units (x ∷ xs) = (tt, units xs)

-- `parse_seeds` succeeds just when every item is an integer and there is one; it returns the
-- integers in the order of the items.
pub parse_seeds_iff :
    (value : String) (ns : List ℤ)
    → (parse_seeds value ≡ ok ns) ↔ ((map int (parse_csv_list value) ≡ map some ns) × (ns ≢ []))
unfolding parse_seeds
parse_seeds_iff value ns =
    let loop =
      loop_iff (λ item. seed_of item (int item)) int some (λ _. Unit {0})
        (λ item n. (
          λ h. ((seed_of_iff item (int item) n).0 h, tt),
          λ (h, _). (seed_of_iff item (int item) n).1 h,
        ))
        (parse_csv_list value) "At least one seed is required" ns in
    (λ h. let (r, _, n) = loop.0 h in (r, n), λ (r, n). loop.1 (r, units ns, n))

-- `parse_positive_ints` succeeds just when every item is an integer above 0 and there is one; it
-- returns the integers in the order of the items.
parse_positive_ints_iff :
    (value : String) (ns : List ℕ)
    → (parse_positive_ints value ≡ ok ns) ↔ (
        (map int (parse_csv_list value) ≡ map (λ n. some (pos n)) ns)
        × All (λ n. 0 < n) ns
        × (ns ≢ []))
unfolding parse_positive_ints
parse_positive_ints_iff value ns =
    loop_iff (λ item. positive_of item (int item)) int (λ n. some (pos n)) (λ n. 0 < n)
      (λ item n. positive_of_iff item (int item) n) (parse_csv_list value) _ ns

-- `parse_nonnegative_ints` succeeds just when every item is an integer that is not negative and
-- there is one; it returns the integers in the order of the items.
parse_nonnegative_ints_iff :
    (value : String) (ns : List ℕ)
    → (parse_nonnegative_ints value ≡ ok ns)
      ↔ ((map int (parse_csv_list value) ≡ map (λ n. some (pos n)) ns) × (ns ≢ []))
unfolding parse_nonnegative_ints
parse_nonnegative_ints_iff value ns =
    let loop =
      loop_iff (λ item. nonnegative_of item (int item)) int (λ n. some (pos n)) (λ _. Unit {0})
        (λ item n. (
          λ h. ((nonnegative_of_iff item (int item) n).0 h, tt),
          λ (h, _). (nonnegative_of_iff item (int item) n).1 h,
        ))
        (parse_csv_list value) "At least one integer value is required" ns in
    (λ h. let (r, _, n) = loop.0 h in (r, n), λ (r, n). loop.1 (r, units ns, n))

-- Both parsers of counts succeed just when every item is an integer in their range, above 0 or
-- from 0 on, and there is one; they return the integers in the order of the items.
pub parse_ints_iff :
    (value : String) (ns : List ℕ)
    → ((parse_positive_ints value ≡ ok ns) ↔ (
        (map int (parse_csv_list value) ≡ map (λ n. some (pos n)) ns)
        × All (λ n. 0 < n) ns
        × (ns ≢ [])))
      × ((parse_nonnegative_ints value ≡ ok ns)
          ↔ ((map int (parse_csv_list value) ≡ map (λ n. some (pos n)) ns) × (ns ≢ [])))
parse_ints_iff value ns = (parse_positive_ints_iff value ns, parse_nonnegative_ints_iff value ns)

module _ {F : Type 0} ⦃fl : Floats F⦄ where
  -- What `parse_probabilities` lets pass.
  pub record IsProbability (x : F) : Type 0 where
    pub finite : fl.is_finite x ≡ true
    pub above : fl.lt x nought ≡ false
    pub below : fl.lt one x ≡ false

  probability_of_iff :
      (label item : String) (o : Option F) (x : F)
      → (probability_of label item o ≡ ok x) ↔ ((o ≡ some x) × IsProbability x)
  probability_of_iff label item none x = (λ h. cc, λ (h, _). cc)
  probability_of_iff label item (some y) x = (λ h. ground arith, λ (h, p). ground arith)

  -- `parse_probabilities` succeeds just when every item is a finite float in [0, 1] and there is
  -- one; it returns the floats in the order of the items.
  parse_probabilities_iff :
      (value label : String) (xs : List F)
      → (parse_probabilities value label ≡ ok xs)
        ↔ ((map fl.of_text (parse_csv_list value) ≡ map some xs) × All IsProbability xs × (xs ≢ []))
  unfolding parse_probabilities
  parse_probabilities_iff value label xs =
      loop_iff (λ item. probability_of label item (fl.of_text item)) fl.of_text some IsProbability
        (λ item x. probability_of_iff label item (fl.of_text item) x) (parse_csv_list value) _ xs

  -- What `parse_positive_floats` lets pass.
  pub record IsPositive (x : F) : Type 0 where
    pub finite : fl.is_finite x ≡ true
    pub above : fl.le x nought ≡ false

  positive_float_of_iff :
      (label item : String) (o : Option F) (x : F)
      → (positive_float_of label item o ≡ ok x) ↔ ((o ≡ some x) × IsPositive x)
  positive_float_of_iff label item none x = (λ h. cc, λ (h, _). cc)
  positive_float_of_iff label item (some y) x = (λ h. ground arith, λ (h, p). ground arith)

  -- `parse_positive_floats` succeeds just when every item is a finite float above 0 and there is
  -- one; it returns the floats in the order of the items.
  parse_positive_floats_iff :
      (value label : String) (xs : List F)
      → (parse_positive_floats value label ≡ ok xs)
        ↔ ((map fl.of_text (parse_csv_list value) ≡ map some xs) × All IsPositive xs × (xs ≢ []))
  unfolding parse_positive_floats
  parse_positive_floats_iff value label xs =
      loop_iff (λ item. positive_float_of label item (fl.of_text item)) fl.of_text some IsPositive
        (λ item x. positive_float_of_iff label item (fl.of_text item) x) (parse_csv_list value) _ xs

  -- Both parsers of floats succeed just when every item is a finite float in their range, from 0 to
  -- 1 or above 0, and there is one; they return the floats in the order of the items.
  pub parse_floats_iff :
      (value label : String) (xs : List F)
      → ((parse_probabilities value label ≡ ok xs) ↔ (
          (map fl.of_text (parse_csv_list value) ≡ map some xs) × All IsProbability xs × (xs ≢ [])))
        × ((parse_positive_floats value label ≡ ok xs) ↔ (
            (map fl.of_text (parse_csv_list value) ≡ map some xs) × All IsPositive xs × (xs ≢ [])))
  parse_floats_iff value label xs =
      (parse_probabilities_iff value label xs, parse_positive_floats_iff value label xs)
