-- ===== src/Tests/Capacity.antt =====
-- The capacity check and the weight profiles at concrete inputs.
use dm_simulator.Base.{ℕ, ◌+◌, ◌*◌, ◌≤◌, ◌<◌, ◌≡◌, ◌↔◌, refl, ok, err, system_exit, arith}
use dm_simulator.Base.Dict.{get}
use dm_simulator.Base.Int.{show_ℕ}
use dm_simulator.Matrix.Capacity.{
  channel_limit, eligible_count, churn_count, effective_churn, required_count,
  validate_hot_object_capacity,
}
use dm_simulator.Matrix.Capacity.Channels.{objects_below, eligible_count-eq-objects_below}
use dm_simulator.Matrix.Capacity.Laws.{NeedsAtMost, validate_hot_object_capacity_iff}
use dm_simulator.Matrix.Capacity.Churn.{required_count_bounds}
use dm_simulator.Tests.Decimal.{Decimal, decimal_floats, decimal-CeilWithin}

abbrev third : Decimal
third = record { millionths = 300000 }

-- 16 nodes with private hot sets of 16 objects, 5 of them replaced at a boundary: 16 * 21.
private_hot_sets : required_count 16 16 "low" "epoch_shift" third ≡ ok 336
unfolding required_count churn_count effective_churn
private_hot_sets = refl

-- Two of four channels hold half of the objects.
enough_objects : validate_hot_object_capacity 1024 16 16 "low" "epoch_shift" third 4 2 ≡ ok tt
unfolding validate_hot_object_capacity required_count channel_limit eligible_count churn_count
    effective_churn
enough_objects = refl

too_few_objects :
    validate_hot_object_capacity 256 16 16 "low" "static" third 4 2
    ≡ err (
        system_exit
          "Invalid matrix workload: requested hot-set overlap and churn need 256 hot-object candidates, but object_count=256, memory_channel_count=4, and hot_object_channel_count=2 provide only 128")
unfolding validate_hot_object_capacity required_count channel_limit eligible_count churn_count
    effective_churn show_ℕ
too_few_objects = refl

eligible_count-eq-objects_below_example : eligible_count 11 4 2 ≡ objects_below 11 4 2
eligible_count-eq-objects_below_example =
    eligible_count-eq-objects_below 11 4 2 (omega arith) (omega arith)

validate_hot_object_capacity_iff_example :
    (validate_hot_object_capacity 11 2 2 "low" "epoch_shift" third 4 2 ≡ ok tt)
    ↔ ((0 < 4) × NeedsAtMost 2 2 "low" "epoch_shift" third (objects_below 11 4 (channel_limit 4 2)))
unfolding channel_limit
validate_hot_object_capacity_iff_example =
    validate_hot_object_capacity_iff 2 2 "low" "epoch_shift" third 11 4 2 (omega arith)

required_count_bounds_example :
    (r : ℕ) × (required_count 16 16 "medium" "epoch_shift" third ≡ ok r)
    × (8 + 8 * 16 ≤ r)
    × (r ≤ 2 * (8 + 8 * 16))
unfolding get
required_count_bounds_example =
    required_count_bounds decimal-CeilWithin 16 16 8 "medium" "epoch_shift" third refl (omega arith)
      (omega arith)
