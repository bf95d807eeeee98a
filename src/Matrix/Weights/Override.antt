-- ===== src/Matrix/Weights/Override.antt =====
-- The contention weights of a profile: `CONTENTION_WEIGHT_PROFILES` (scripts/run_matrix.py).
use dm_simulator.Base.{
  String, ◌≡◌, refl, true, some, List, [], ◌∷◌, map, flat_map, contains, All-append, ok, length,
  All, str_eq, if◌then◌else◌,
}
use dm_simulator.Base.Float.{Floats}
use dm_simulator.Base.Dict.{Dict, get, insert, keys, get-insert, keys-insert}
use dm_simulator.Text.{nonempty}
use dm_simulator.Matrix.Preset.{ContentionWeightProfile}
use dm_simulator.Matrix.Weights.{
  default_contention_weights, contention_weight_profiles, contention_weights_for_profile,
  profile_of, contention_weight_sweeps,
}

module _ {F : Type 0} ⦃fl : Floats F⦄ where
  -- The weights of a profile: the defaults, but for the one that it names.
  pub record OverridesOne (p : ContentionWeightProfile F) : Type 0 where
    pub weights : Dict F
    pub value : F
    pub given : p.weight_value ≡ some value
    pub computed : contention_weights_for_profile p ≡ ok weights
    pub same_keys : keys weights ≡ keys (default_contention_weights {F = F})
    pub one_changed :
        (k : String)
        → get weights k
          ≡ (if str_eq p.weight_name k then some value else get default_contention_weights k)

  profile_of-OverridesOne :
      (name : String) (v : F)
      → nonempty name ≡ true
      → contains (keys (default_contention_weights {F = F})) name ≡ true
      → OverridesOne (profile_of name v)
  unfolding contention_weights_for_profile
  profile_of-OverridesOne name v n h = record {
    weights = insert default_contention_weights name v;
    value = v;
    given = refl;
    computed = rw n;
    same_keys = keys-insert default_contention_weights name v h;
    one_changed = λ k. get-insert default_contention_weights name k v;
  }

  map-OverridesOne :
      (name : String) (values : List F)
      → nonempty name ≡ true
      → contains (keys (default_contention_weights {F = F})) name ≡ true
      → All OverridesOne (map (profile_of name) values)
  map-OverridesOne name [] n h = tt
  map-OverridesOne name (v ∷ values) n h =
      (profile_of-OverridesOne name v n h, map-OverridesOne name values n h)

  sweeps-OverridesOne :
      (sweeps : List (String × List F))
      → All
          (λ (name, _).
            (nonempty name ≡ true)
            × (contains (keys (default_contention_weights {F = F})) name ≡ true))
          sweeps
      → All OverridesOne (flat_map (λ (name, values). map (profile_of name) values) sweeps)
  unfolding flat_map
  sweeps-OverridesOne [] h = tt
  sweeps-OverridesOne ((name, values) ∷ sweeps) ((n, c), h) =
      All-append OverridesOne (map (profile_of name) values) _ (map-OverridesOne name values n c)
        (sweeps-OverridesOne sweeps h)

module _ (F : Type 0) ⦃fl : Floats F⦄ where
  -- There are 24 profiles. Every one names one of the default weights; its weights have the
  -- defaults' keys in their order, its value at that weight, and the default at every other.
  pub contention_weight_profiles-OverridesOne :
      (length (contention_weight_profiles {F = F}) ≡ 24)
      × All OverridesOne (contention_weight_profiles {F = F})
  unfolding contention_weight_profiles flat_map
  contention_weight_profiles-OverridesOne = (
    refl,
    sweeps-OverridesOne contention_weight_sweeps (
      (refl, refl),
      ((refl, refl), ((refl, refl), ((refl, refl), ((refl, refl), ((refl, refl), tt))))),
    ),
  )
