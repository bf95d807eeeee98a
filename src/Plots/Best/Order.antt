-- ===== src/Plots/Best/Order.antt =====
-- The order of the keys of `best_run_sort_key` (scripts/plot_results.py).
use dm_simulator.Base.{
  String, ◌≡◌, ◌∙◌, refl, sym, Bool, true, false, not, Bool-cases, inl, inr, if◌then◌else◌,
}
use dm_simulator.Base.Float.{Floats, Arithmetic, IsStrictOrder}
use dm_simulator.Base.Sets.{text_le, text_le-total, text_le_trans}
use dm_simulator.Plots.Best.{BestKey, key_lt}

module _ {F : Type 0} ⦃fl : Floats F⦄ ⦃ar : Arithmetic F⦄ where
  module _ (order : IsStrictOrder fl) where
    abbrev step : F → F → Bool → Bool
    step x y rest = if not (fl.eq x y) then fl.lt x y else rest

    step_irrefl : (x : F) (rest : Bool) → rest ≡ false → step x x rest ≡ false
    step_irrefl x rest h = elim (Bool-cases (fl.eq x x)) [
      | inl e ↦ rw e h
      | inr e ↦ rw e (order.lt_irrefl x)
    ]

    step-eq : (x y : F) (rest : Bool) → fl.eq x y ≡ true → step x y rest ≡ true → rest ≡ true
    step-eq x y rest e h = rw e at h

    step-ne : (x y : F) (rest : Bool) → fl.eq x y ≡ false → step x y rest ≡ true → fl.lt x y ≡ true
    step-ne x y rest e h = rw e at h

    step-lt :
        (x z : F) (rest : Bool)
        → (fl.eq x z ≡ true → fl.lt x x ≡ true)
        → fl.lt x z ≡ true
        → step x z rest ≡ true
    step-lt x z rest apart h = elim (Bool-cases (fl.eq x z)) [
      | inr e ↦ rw e h
      | inl e ↦ cc (sym (apart e) ∙ order.lt_irrefl x)
    ]

    step_trans :
        (x y z : F) (r1 r2 r3 : Bool)
        → (r1 ≡ true → r2 ≡ true → r3 ≡ true)
        → step x y r1 ≡ true
        → step y z r2 ≡ true
        → step x z r3 ≡ true
    step_trans x y z r1 r2 r3 f h k = elim (Bool-cases (fl.eq x y)) [
      | inl e ↦ elim (Bool-cases (fl.eq y z)) [
        | inl g ↦ rw (order.eq_trans x y z e g) (f (step-eq x y r1 e h) (step-eq y z r2 g k))
        | inr g ↦
            let less = order.lt_of_eq_lt x y z e (step-ne y z r2 g k) in
            step-lt x z r3 (λ same. order.lt_of_lt_eq x z x less (order.eq_sym x z same)) less
      ]
      | inr e ↦
          let first = step-ne x y r1 e h in
          elim (Bool-cases (fl.eq y z)) [
            | inl g ↦
                let less = order.lt_of_lt_eq x y z first g in
                step-lt x z r3 (λ same. order.lt_of_lt_eq x z x less (order.eq_sym x z same)) less
            | inr g ↦
                let less = order.lt_trans x y z first (step-ne y z r2 g k) in
                step-lt x z r3 (λ same. order.lt_of_lt_eq x z x less (order.eq_sym x z same)) less
          ]
    ]

    text_le_refl : (s : String) → text_le s s ≡ true
    text_le_refl s = elim (Bool-cases (text_le s s)) [ inl e ↦ e | inr e ↦ text_le-total s s e ]

    text_lt_trans :
        (s t u : String)
        → not (text_le t s) ≡ true
        → not (text_le u t) ≡ true
        → not (text_le u s) ≡ true
    text_lt_trans s t u h k = elim (Bool-cases (text_le u s)) [
      | inr e ↦ rw e refl
      | inl e ↦ elim (Bool-cases (text_le t s)) [
        | inl f ↦ cc (rw f at h)
        | inr f ↦ cc (rw (text_le_trans u s t e (text_le-total t s f)) at k)
      ]
    ]

    pub key_lt_irrefl : (k : BestKey F) → key_lt k k ≡ false
    unfolding key_lt
    key_lt_irrefl k = step_irrefl k.mean_delta _ (
        step_irrefl k.p99_delta _
          (step_irrefl k.hit_rate _ (rw (text_le_refl k.experiment_name) refl)))

    pub key_lt_trans :
        (k l m : BestKey F) → key_lt k l ≡ true → key_lt l m ≡ true → key_lt k m ≡ true
    unfolding key_lt
    key_lt_trans k l m = step_trans k.mean_delta l.mean_delta m.mean_delta _ _ _ (
        step_trans k.p99_delta l.p99_delta m.p99_delta _ _ _ (
          step_trans k.hit_rate l.hit_rate m.hit_rate _ _ _
            (text_lt_trans k.experiment_name l.experiment_name m.experiment_name)))
