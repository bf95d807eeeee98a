-- ===== src/Matrix/Capacity/Laws.antt =====
-- The check of `validate_hot_object_capacity` (scripts/run_matrix.py).
use dm_simulator.Base.{
  ℕ, zero, suc, ◌≤◌, ◌<◌, String, Bool, true, false, ◌≡◌, ◌↔◌, refl, ok, >>=-eq-ok, raise_if,
  ltb→le, arith, Exception, subst, sym,
}
use dm_simulator.Base.Float.{Floats}
use dm_simulator.Matrix.Capacity.{
  channel_limit, eligible_count, required_count, validate_hot_object_capacity,
}
use dm_simulator.Matrix.Capacity.Channels.{objects_below, eligible_count-eq-objects_below}

pub raise_if-ok : (b : Bool) (e : Exception) → raise_if b e ≡ ok tt → b ≡ false
raise_if-ok true e h = cc
raise_if-ok false e h = refl

module _ {F : Type 0} ⦃fl : Floats F⦄ (nodes hot_set : ℕ) (overlap mode : String) (churn : F) where
  -- The candidates that the request needs can be computed and are at most `n`.
  abbrev pub NeedsAtMost : ℕ → Type 0
  NeedsAtMost n = (r : ℕ) × (required_count nodes hot_set overlap mode churn ≡ ok r) × (r ≤ n)

  module _ (objects channels hot : ℕ) where
    validate-NeedsAtMost :
        validate_hot_object_capacity objects nodes hot_set overlap mode churn channels hot ≡ ok tt
        → (0 < channels)
          × NeedsAtMost (eligible_count objects channels (channel_limit channels hot))
    unfolding validate_hot_object_capacity
    validate-NeedsAtMost h = go channels h
      where
        go :
            (c : ℕ)
            → validate_hot_object_capacity objects nodes hot_set overlap mode churn c hot ≡ ok tt
            → (0 < c) × NeedsAtMost (eligible_count objects c (channel_limit c hot))
        go zero h = cc
        go (suc c) h =
            let (r, e, h') = >>=-eq-ok (required_count nodes hot_set overlap mode churn) _ h in
            (omega arith, (r, e, ltb→le _ _ (raise_if-ok _ _ h')))

    NeedsAtMost-validate :
        0 < channels
        → NeedsAtMost (eligible_count objects channels (channel_limit channels hot))
        → validate_hot_object_capacity objects nodes hot_set overlap mode churn channels hot ≡ ok tt
    unfolding validate_hot_object_capacity
    NeedsAtMost-validate h (r, e, k) = go channels h k
      where
        go :
            (c : ℕ)
            → 0 < c
            → r ≤ eligible_count objects c (channel_limit c hot)
            → validate_hot_object_capacity objects nodes hot_set overlap mode churn c hot ≡ ok tt
        go zero h k = elim h [ ]
        go (suc c) h k = rw e (ground arith)

    -- With channels enough for the hot ones, the check passes just when there is a channel and the
    -- objects whose channel is eligible, counted one by one, are as many as the request needs.
    pub validate_hot_object_capacity_iff :
        channel_limit channels hot ≤ channels
        → (validate_hot_object_capacity objects nodes hot_set overlap mode churn channels hot
            ≡ ok tt)
          ↔ ((0 < channels)
              × NeedsAtMost (objects_below objects channels (channel_limit channels hot)))
    validate_hot_object_capacity_iff k = (
      λ h.
          let (p, needs) = validate-NeedsAtMost h in
          (p, subst NeedsAtMost (eligible_count-eq-objects_below objects channels _ p k) needs),
      λ (p, needs).
          NeedsAtMost-validate p (
            subst NeedsAtMost (sym (eligible_count-eq-objects_below objects channels _ p k)) needs),
    )
