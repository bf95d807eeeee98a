-- ===== src/Matrix/DryRun/Config.antt =====
-- The checks of one config (`verify_dry_run`) against `write_yaml_config` (scripts/run_matrix.py).
use dm_simulator.Base.{
  String, ◌<>◌, ◌≡◌, refl, sym, ap, subst, ◌∙◌, true, Option, none, some, List, [], ◌∷◌, All,
  All-imp, ok, mem_at, str_eq, eq_iff, Bool-cases, inl, inr,
}
use dm_simulator.Base.Float.{Floats}
use dm_simulator.Base.Dict.{Dict}
use dm_simulator.Text.Laws.{Within, has_of_Within}
use dm_simulator.Matrix.Preset.{MatrixRun}
use dm_simulator.Matrix.Yaml.{
  yaml_policy_name, contention_variant_for_policy, hotness_history_mode, config_text, hotness_lines,
  run_weights, contention_lines, variant_lines, margin_of, score_lines,
}
use dm_simulator.Matrix.Yaml.Lines.{
  OnLine, value_at, label_at, OnLine-left, OnLine-right, Parts, config_text-Parts,
  variant-yaml_policy_name,
}
use dm_simulator.Matrix.Yaml.Blocks.{
  IsKnown, indented, policy_lines-contention, policy_lines-hotness, weights-OnLine,
  run_weights-keys, hotness-yaml_policy_name, windowed-history_mode, is_bounded_hotness,
}
use dm_simulator.Matrix.DryRun.Fields.{
  check_fields-Within, in_policy, required-Within, policy-Within,
}
use dm_simulator.Matrix.DryRun.{
  weight_fields, composite_fields, hotness_fields, check_variant, check_config,
}

module _ {F : Type 0} ⦃fl : Floats F⦄ (run : MatrixRun F) (text : String)
    (parts : Parts run text) where
  open parts use {policy}

  module _ (variant : String) (lines : List String)
      (shape : policy ≡ contention_lines run (some variant) lines) where
    abbrev block : List String
    block = contention_lines run (some variant) lines

    in_block : {needle : String} → OnLine needle block → Within needle text
    in_block {needle} o = in_policy run text parts (subst (OnLine needle) (sym shape) o)

    -- What stands on the lines of the weights, or on those of the variant behind them.
    in_weights : {needle : String} → OnLine needle lines → Within needle text
    in_weights o = in_block (
        OnLine-right ("  contention:" ∷ ("    variant: " <> variant) ∷ [])
          (OnLine-right _ (OnLine-right _ (OnLine-left _ o))))

    in_variant :
        {needle : String}
        → OnLine needle (variant_lines run.policy (some variant))
        → Within needle text
    in_variant o = in_block (
        OnLine-right ("  contention:" ∷ ("    variant: " <> variant) ∷ [])
          (OnLine-right _ (OnLine-right _ (OnLine-right lines (OnLine-right score_lines o)))))

    composite-Within :
        variant ≡ "smoothed_reuse_gated"
        → All (λ field. Within field text) (composite_fields run.policy)
    composite-Within e =
        let on =
          λ (needle : String)
              (o : OnLine needle (variant_lines run.policy (some "smoothed_reuse_gated"))).
            in_variant (subst (λ v. OnLine needle (variant_lines run.policy (some v))) (sym e) o) in
        let ls = variant_lines run.policy (some "smoothed_reuse_gated") in
        (
          on "telemetry_history_epochs: 4"
              (label_at ls 2 "    " "telemetry_history_epochs: 4" "" "" refl),
          (
            on "telemetry_decay: 0.5" (label_at ls 3 "    " "telemetry_decay: 0.5" "" "" refl),
            (
              on "local_reuse_gate_threshold: 2"
                  (label_at ls 4 "    " "local_reuse_gate_threshold: 2" "" "" refl),
              (
                on "local_confirmation_window_epochs: 2"
                    (label_at ls 5 "    " "local_confirmation_window_epochs: 2" "" "" refl),
                (
                  on "local_confirmation_bypass_score_margin: 1.0" (
                      label_at ls 8 "    " "local_confirmation_bypass_score_margin: 1.0" "" ""
                        refl),
                  (on (margin_of run.policy) (indented ls "    " (mem_at ls 9 refl)), tt),
                ),
              ),
            ),
          ),
        )

    header-Within :
        yaml_policy_name run.policy ≡ "contention_aware"
        → All
            (λ field. Within field text)
            ("policy: contention_aware" ∷ ("variant: " <> variant) ∷ [])
    header-Within name = (
      subst (λ n. Within ("policy: " <> n) text) name (policy-Within run text parts),
      (in_block (value_at block 1 "    " "variant: " variant refl), tt),
    )

    check_variant-block :
        (weights : Dict F)
        → yaml_policy_name run.policy ≡ "contention_aware"
        → run_weights run ≡ ok weights
        → All (λ field. OnLine field lines) (weight_fields weights)
        → check_variant run text (some variant) ≡ ok tt
    unfolding check_variant
    check_variant-block weights name w on =
        rw
          (
            check_fields-Within run.config_path text _ (header-Within name),
            w,
            check_fields-Within run.config_path text _ (All-imp (λ field. in_weights) _ on),
          )
          (elim (Bool-cases (str_eq variant "smoothed_reuse_gated")) [
            | inl e ↦ rw e (
                check_fields-Within run.config_path text (composite_fields run.policy)
                  (composite-Within ((eq_iff variant "smoothed_reuse_gated").0 e)))
            | inr e ↦ rw e
          ])

  check_variant_ok :
      (variant : Option String)
      → IsKnown run.contention_weight_profile
      → contention_variant_for_policy run.policy ≡ variant
      → check_variant run text variant ≡ ok tt
  check_variant_ok none known e = unfold check_variant in refl
  check_variant_ok (some variant) known e =
      let name = variant-yaml_policy_name run.policy e in
      let (weights, lines, w, each_line, whole) =
        policy_lines-contention run policy name parts.policy_eq in
      check_variant-block variant lines (whole ∙ ap (λ v. contention_lines run v lines) e) weights
        name w (weights-OnLine weights lines (run_weights-keys run weights known w) each_line)

  hotness-Within :
      is_bounded_hotness run.policy ≡ true
      → All (λ field. Within field text) (hotness_fields run.policy)
  hotness-Within h =
      let name = hotness-yaml_policy_name run.policy h in
      let shape = policy_lines-hotness run policy name parts.policy_eq in
      let ls = hotness_lines run.policy in
      let mode = hotness_history_mode run.policy in
      let on = λ (needle : String) (o : OnLine needle (hotness_lines run.policy)).
        in_policy run text parts (subst (OnLine needle) (sym shape) o) in
      (
        subst (λ n. Within ("policy: " <> n) text) name (policy-Within run text parts),
        (
          on ("history_mode: " <> mode) (value_at ls 4 "    " "history_mode: " mode refl),
          (elim (Bool-cases (str_eq run.policy "hotness_only_windowed")) [
            | inl e ↦ rw e (
              on "history_window_epochs: 4" (record {
                line = "    history_window_epochs: 4";
                listed = rw (windowed-history_mode run.policy e) (mem_at _ 5 refl);
                within = ("    ", "", refl);
              }),
              tt,
            )
            | inr e ↦ rw e tt
          ]),
        ),
      )

  check_config-Parts : IsKnown run.contention_weight_profile → check_config run text ≡ ok tt
  unfolding check_config
  check_config-Parts known =
      rw
        (
          parts.ids_eq,
          parts.base_eq,
          parts.bandwidth_eq,
          parts.link_eq,
          parts.capacity_eq,
          check_fields-Within run.config_path text _ (required-Within run text parts),
          has_of_Within _ text (policy-Within run text parts),
          check_variant_ok _ known refl,
        )
        (elim (Bool-cases (is_bounded_hotness run.policy)) [
          | inl e ↦ rw e (check_fields-Within run.config_path text _ (hotness-Within e))
          | inr e ↦ rw e
        ])

-- A config that the script writes passes all of the dry run's checks on it, if the run's weight
-- profile names no weight or one of the defaults.
pub check_config-config_text :
    {F : Type 0} ⦃fl : Floats F⦄ (run : MatrixRun F) (text : String)
    → IsKnown run.contention_weight_profile
    → config_text run ≡ ok text
    → check_config run text ≡ ok tt
check_config-config_text run text known h =
    check_config-Parts run text (config_text-Parts run text h) known
