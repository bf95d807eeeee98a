-- ===== src/Matrix/Capacity/Channels.antt =====
-- The eligible objects of `validate_hot_object_capacity` (scripts/run_matrix.py).
use native.Mathlib.Nat.{div-add-mod', mod-lt}
use dm_simulator.Base.{
  ℕ, zero, suc, ◌+◌, ◌*◌, ◌/◌, ◌%◌, ◌≤◌, ◌<◌, min, ◌≡◌, sym, ap, arith, ltb, if◌then◌else◌,
}
use dm_simulator.Matrix.Capacity.{eligible_count}

-- Of the objects below `n`, those whose channel `o % channels` lies below the limit.
abbrev pub objects_below : ℕ → ℕ → ℕ → ℕ
objects_below zero channels limit = 0
objects_below (suc n) channels limit =
    (if ltb (n % channels) limit then 1 else 0) + objects_below n channels limit

mod_in_group : (q r channels : ℕ) → r < channels → (q * channels + r) % channels ≡ r
mod_in_group q r channels h = grind arith

-- Inside one group of objects, a channel each.
in_group :
    (q r channels limit : ℕ)
    → r ≤ channels
    → limit ≤ channels
    → objects_below (q * channels + r) channels limit
      ≡ objects_below (q * channels) channels limit + min r limit
in_group q zero channels limit h k =
    let e : q * channels + zero ≡ q * channels = omega arith in rw e (omega arith)
in_group q (suc r) channels limit h k =
    let e : q * channels + suc r ≡ suc (q * channels + r) = omega arith in
    rw (e, mod_in_group q r channels h)
      (ground (arith, in_group q r channels limit (omega arith) k))

groups :
    (q channels limit : ℕ)
    → limit ≤ channels
    → objects_below (q * channels) channels limit ≡ q * limit
groups zero channels limit k = let e : zero * channels ≡ zero = omega arith in rw e (omega arith)
groups (suc q) channels limit k =
    let e : suc q * channels ≡ q * channels + channels = omega arith in
    rw e
      (omega (arith, in_group q channels channels limit (omega arith) k, groups q channels limit k))

-- With a limit of at most all channels, the closed form counts exactly the objects whose channel
-- lies below the limit.
pub eligible_count-eq-objects_below :
    (object_count channels limit : ℕ)
    → 0 < channels
    → limit ≤ channels
    → eligible_count object_count channels limit ≡ objects_below object_count channels limit
unfolding eligible_count
eligible_count-eq-objects_below n channels limit h k =
    let split : n ≡ n / channels * channels + n % channels = sym (div-add-mod' n channels) in
    let low : n % channels < channels = mod-lt n h in
    omega (
      arith,
      ap (λ m. objects_below m channels limit) split,
      in_group (n / channels) (n % channels) channels limit (omega arith) k,
      groups (n / channels) channels limit k,
    )
