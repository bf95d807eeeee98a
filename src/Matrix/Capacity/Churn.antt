-- ===== src/Matrix/Capacity/Churn.antt =====
-- The required candidates of `validate_hot_object_capacity` (scripts/run_matrix.py).
use Prim.Native.Nat.{◌^◌}
use dm_simulator.Base.{
  ℕ, zero, suc, ◌+◌, ◌-◌, ◌*◌, ◌≤◌, ◌<◌, String, true, ◌≡◌, refl, inl, inr, some, ok, Bool-cases,
  arith,
}
use dm_simulator.Base.Float.{Floats, CeilWithin, nought, one}
use dm_simulator.Base.Dict.{get}
use dm_simulator.Matrix.Capacity.{
  shared_counts, replaced, churn_count, effective_churn, required_count,
}

module _ {F : Type 0} ⦃fl : Floats F⦄ (ceil_within : CeilWithin fl) (churn : F) where
  replaced-le :
      (n : ℕ)
      → n < 2 ^ 53
      → fl.lt nought churn ≡ true
      → fl.lt churn one ≡ true
      → (c : ℕ) × (replaced n churn ≡ ok c) × (c ≤ n)
  replaced-le zero s h k = (0, refl, omega arith)
  replaced-le (suc n) s h k = ceil_within (suc n) churn s h k

  churn_count-le :
      (shared private nodes : ℕ)
      → shared < 2 ^ 53
      → private < 2 ^ 53
      → (a : ℕ) × (churn_count shared private nodes churn ≡ ok a) × (a ≤ shared + private * nodes)
  unfolding churn_count
  churn_count-le shared private nodes s p = elim (Bool-cases (fl.lt nought churn)) [
    | inr e ↦ (0, rw e, omega arith)
    | inl e ↦ elim (Bool-cases (fl.lt churn one)) [
      | inr f ↦ (0, rw (e, f), omega arith)
      | inl f ↦
          let (x, ex, lx) = replaced-le shared s e f in
          let (y, ey, ly) = replaced-le private p e f in
          (x + y * nodes, rw (e, f, ex, ey), grind arith)
    ]
  ]

module _ {F : Type 0} ⦃fl : Floats F⦄ where
  -- For an overlap whose shared part is known, the candidates needed can be computed: at least the
  -- hot objects of all nodes, and at most twice as many, whatever the churn.
  pub required_count_bounds :
      CeilWithin fl
      → (nodes hot_set shared : ℕ) (overlap mode : String) (churn : F)
      → get (shared_counts hot_set) overlap ≡ some shared
      → shared ≤ hot_set
      → hot_set < 2 ^ 53
      → let hot_objects : ℕ = shared + (hot_set - shared) * nodes in
        (r : ℕ) × (required_count nodes hot_set overlap mode churn ≡ ok r)
        × (hot_objects ≤ r)
        × (r ≤ 2 * hot_objects)
  unfolding required_count
  required_count_bounds law nodes hot_set shared overlap mode churn e s h =
      let (a, ea, la) =
        churn_count-le law (effective_churn mode churn) shared (hot_set - shared) nodes
          (omega arith) (omega arith) in
      (shared + (hot_set - shared) * nodes + a, rw (e, ea), omega arith, omega arith)
