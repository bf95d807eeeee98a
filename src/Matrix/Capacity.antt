-- ===== src/Matrix/Capacity.antt =====
-- `validate_hot_object_capacity` (scripts/run_matrix.py).
pub mod Channels
pub mod Laws
pub mod Churn
use dm_simulator.Base.{
  ℕ, zero, suc, ◌+◌, ◌-◌, ◌*◌, ◌/◌, ◌%◌, min, String, ◌<>◌, Bool, ◌&&◌, Option, Result, ok, err,
  system_exit, zero_division_error, ◌>>=◌, ◌>>◌, raise_if, ltb, ◌==◌, str_eq, if◌then◌else◌, [],
  ◌∷◌,
}
use dm_simulator.Base.Int.{show_ℕ}
use dm_simulator.Base.Float.{Floats, nought, one}
use dm_simulator.Base.Dict.{Dict, get}
use dm_simulator.Matrix.Run.{at_key}

unfoldable pub channel_limit : ℕ → ℕ → ℕ
channel_limit memory_channel_count hot_object_channel_count =
    if hot_object_channel_count == 0 then memory_channel_count else hot_object_channel_count

-- The objects of the eligible channels, of a memory with at least one channel.
unfoldable pub eligible_count : ℕ → ℕ → ℕ → ℕ
eligible_count object_count memory_channel_count limit =
    let complete_channel_groups = object_count / memory_channel_count in
    let remainder = object_count % memory_channel_count in
    complete_channel_groups * limit + min remainder limit

-- `divmod` raises on 0.
abbrev divide : ℕ → ℕ → Result ℕ → Result ℕ
divide n zero r = err zero_division_error
divide n (suc m) r = r

abbrev pub shared_counts : ℕ → Dict ℕ
shared_counts hot_set_size = ("low", 0) ∷ ("medium", hot_set_size / 2) ∷ ("high", hot_set_size) ∷ []

module _ {F : Type 0} ⦃fl : Floats F⦄ where
  -- `math.ceil(n * churn)` under `if n > 0`
  abbrev pub replaced : ℕ → F → Result ℕ
  replaced zero churn = ok 0
  replaced (suc n) churn = fl.scale (suc n) churn >>= fl.ceil

  -- What partial churn adds to the candidates that are needed.
  unfoldable pub churn_count : ℕ → ℕ → ℕ → F → Result ℕ
  churn_count shared_count private_count node_count churn =
      if fl.lt nought churn && fl.lt churn one
      then (do
        shared ← replaced shared_count churn
        private ← replaced private_count churn
        ok (shared + private * node_count))
      else ok 0

  unfoldable pub effective_churn : String → F → F
  effective_churn hot_set_mode churn_fraction =
      if str_eq hot_set_mode "static" then nought else churn_fraction

  unfoldable pub required_count : ℕ → ℕ → String → String → F → Result ℕ
  unfolding get
  required_count node_count hot_set_size overlap hot_set_mode churn_fraction = do
    shared_count ← at_key overlap (get (shared_counts hot_set_size) overlap)
    let private_count = hot_set_size - shared_count
    added ←
        churn_count shared_count private_count node_count
          (effective_churn hot_set_mode churn_fraction)
    ok (shared_count + private_count * node_count + added)

  unfoldable pub validate_hot_object_capacity :
      ℕ → ℕ → ℕ → String → String → F → ℕ → ℕ → Result (Unit {0})
  validate_hot_object_capacity object_count node_count hot_set_size overlap hot_set_mode
        churn_fraction memory_channel_count hot_object_channel_count =
      do
        let limit = channel_limit memory_channel_count hot_object_channel_count
        eligible ←
            divide object_count memory_channel_count
              (ok (eligible_count object_count memory_channel_count limit))
        required ← required_count node_count hot_set_size overlap hot_set_mode churn_fraction
        raise_if (ltb eligible required) (
            system_exit (
              "Invalid matrix workload: requested hot-set overlap and churn need "
              <> show_ℕ required
              <> " hot-object candidates, but object_count="
              <> show_ℕ object_count
              <> ", memory_channel_count="
              <> show_ℕ memory_channel_count
              <> ", and hot_object_channel_count="
              <> show_ℕ hot_object_channel_count
              <> " provide only "
              <> show_ℕ eligible))
