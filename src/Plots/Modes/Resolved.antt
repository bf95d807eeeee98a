-- ===== src/Plots/Modes/Resolved.antt =====
-- What `distinct_values` and `detect_report_mode` return (scripts/plot_results.py).
use dm_simulator.Base.{
  String, ◌≡◌, ◌∙◌, refl, sym, Bool, true, false, ◌&&◌, ◌||◌, List, [], ◌∷◌, contains, str_eq,
  starts_with, Bool-cases, inl, inr, if◌then◌else◌,
}
use dm_simulator.Base.Dict.{NodupKeys}
use dm_simulator.Base.Float.{Floats, Arithmetic}
use dm_simulator.Base.Sets.{dedup, contains-dedup, dedup-NodupKeys}
use dm_simulator.Plots.Columns.{final_report_presets}
use dm_simulator.Plots.Dimensions.{report_modes}
use dm_simulator.Plots.Policies.Order.{contains-sort_by, NodupKeys-sort_by}
use dm_simulator.Plots.Values.{Row}
use dm_simulator.Plots.Modes.Alike.{presets_mode-Alike}
use dm_simulator.Plots.Modes.{
  any_of, all_of, preset_mode, single_mode, presets_mode, column_texts, distinct_values,
  detect_report_mode,
}

-- The order in which a set is iterated over has the members of the set, each once.
pub record IsSetOrder (set_order : List String → List String) : Type 0 where
  pub same_members : (xs : List String) (x : String) → contains (set_order xs) x ≡ contains xs x
  pub no_repetition : (xs : List String) → NodupKeys xs → NodupKeys (set_order xs)

-- A mode that a report is made in.
pub record IsMode (mode : String) : Type 0 where
  pub known : contains report_modes mode ≡ true
  pub resolved : str_eq mode "auto" ≡ false

if-IsMode : (b : Bool) (s t : String) → IsMode s → IsMode t → IsMode (if b then s else t)
if-IsMode true s t p q = p
if-IsMode false s t p q = q

abbrev mode : {s : String} → contains report_modes s ≡ true → str_eq s "auto" ≡ false → IsMode s
mode k r = record { known = k; resolved = r }

chosen-IsMode :
    (a b c d e : Bool)
    → IsMode (
        if a
        then "contention_calibration"
        else (if b
            then "policy_viability"
            else (if c
                then "interaction"
                else (if d
                    then "parameter_demo"
                    else (if e then "weight_sensitivity" else "generic")))))
chosen-IsMode true b c d e = mode refl refl
chosen-IsMode false true c d e = mode refl refl
chosen-IsMode false false true d e = mode refl refl
chosen-IsMode false false false true e = mode refl refl
chosen-IsMode false false false false true = mode refl refl
chosen-IsMode false false false false false = mode refl refl

preset_mode-IsMode : (preset : String) → IsMode (preset_mode preset)
unfolding preset_mode
preset_mode-IsMode preset =
    chosen-IsMode
      (str_eq preset "eval_contention_calibration"
        || (str_eq preset "eval_bursty_calibration" || starts_with preset "eval_channel_"))
      (contains ("eval_policy_viability" ∷ "eval_policy_iteration" ∷ []) preset)
      (starts_with preset "eval_interactions_") (starts_with preset "eval_knob_")
      (str_eq preset "eval_contention_weight_sensitivity")

single_mode-IsMode : (presets : List String) → IsMode (single_mode presets)
single_mode-IsMode [] = mode refl refl
single_mode-IsMode (p ∷ []) = preset_mode-IsMode p
single_mode-IsMode (p ∷ q ∷ ps) = mode refl refl

presets_mode-IsMode : (presets : List String) → IsMode (presets_mode presets)
unfolding presets_mode
presets_mode-IsMode presets =
    if-IsMode
      (any_of (contains final_report_presets) presets
        && all_of (contains ("eval_bursty_calibration" ∷ final_report_presets)) presets)
      "final_report" (single_mode presets) (mode refl refl) (single_mode-IsMode presets)

module _ {F : Type 0} ⦃fl : Floats F⦄ ⦃ar : Arithmetic F⦄ where
  -- The distinct values are the stripped texts of the column that are not blank, each once,
  -- whatever the order in which the set is iterated over.
  pub distinct_values-present :
      (set_order : List String → List String) (rows : List (Row F)) (column : String)
      → IsSetOrder set_order
      → NodupKeys (distinct_values set_order rows column)
        × ((value : String)
            → contains (distinct_values set_order rows column) value
              ≡ contains (column_texts rows column) value)
  unfolding distinct_values
  distinct_values-present set_order rows column is =
      let texts = column_texts rows column in
      (
        NodupKeys-sort_by _ (set_order (dedup texts))
            (is.no_repetition (dedup texts) (dedup-NodupKeys texts)),
        λ value.
            contains-sort_by _ (set_order (dedup texts)) value
            ∙ is.same_members (dedup texts) value
            ∙ contains-dedup texts value,
      )

  -- The mode of a report is one of the modes and is never "auto", and it does not hang on the
  -- order in which sets are iterated over.
  pub detect_report_mode-resolved :
      (set_order other_order : List String → List String) (rows : List (Row F)) (requested : String)
      → IsSetOrder set_order
      → IsSetOrder other_order
      → contains report_modes requested ≡ true
      → IsMode (detect_report_mode set_order rows requested)
        × (detect_report_mode set_order rows requested
            ≡ detect_report_mode other_order rows requested)
  unfolding detect_report_mode
  detect_report_mode-resolved set_order other_order rows requested is is' known =
      elim (Bool-cases (str_eq requested "auto")) [
        | inr e ↦ rw e (record { known = known; resolved = e }, refl)
        | inl e ↦ rw e (presets_mode-IsMode (distinct_values set_order rows "preset"), same)
      ]
    where
      same :
          presets_mode (distinct_values set_order rows "preset")
          ≡ presets_mode (distinct_values other_order rows "preset")
      same =
          let (n, h) = distinct_values-present set_order rows "preset" is in
          let (n', h') = distinct_values-present other_order rows "preset" is' in
          presets_mode-Alike _ _ n n' (λ x. h x ∙ sym (h' x))
