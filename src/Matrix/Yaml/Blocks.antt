-- ===== src/Matrix/Yaml/Blocks.antt =====
-- The policy block of a config in `write_yaml_config` (scripts/run_matrix.py).
use mathlib.Core.List.Memᴰ
use dm_simulator.Base.{
  String, ◌<>◌, ◌≡◌, refl, sym, subst, ◌∙◌, Bool, true, ◌||◌, Option, none, some, List, [], ◌∷◌,
  map, Memᴰ, All, ok, >>=-eq-ok, each, each-round, contains, str_eq, eq_iff, Bool-cases, inl, inr,
}
use dm_simulator.Base.Float.{Floats}
use dm_simulator.Base.Dict.{Dict, insert, keys, keys-insert, NodupKeys, get_of_mem}
use dm_simulator.Text.{nonempty}
use dm_simulator.Text.Laws.{Within-append_left, Within-self}
use dm_simulator.Matrix.Preset.{MatrixRun, ContentionWeightProfile}
use dm_simulator.Matrix.Weights.{
  default_contention_weights, contention_weights_for_profile, override,
}
use dm_simulator.Matrix.Yaml.{
  yaml_policy_name, contention_variant_for_policy, hotness_history_mode, policy_lines,
  hotness_lines, run_weights, weight_line, weight_names, contention_lines,
}
use dm_simulator.Matrix.Yaml.Lines.{OnLine}

-- A line that is its text behind an indentation.
pub indented :
    {text : String} (lines : List String) (indent : String)
    → Memᴰ (indent <> text) lines
    → OnLine text lines
indented {text} lines indent m = record {
  line = indent <> text;
  listed = m;
  within = Within-append_left text text indent (Within-self text);
}

weight_names-NodupKeys : NodupKeys weight_names
weight_names-NodupKeys = (refl, (refl, (refl, (refl, (refl, (refl, (refl, tt)))))))

pub All-map {ℓ} :
    {A B : Type 0} (P : B → Type ℓ) (g : A → B) (xs : List A)
    → ((x : A) → Memᴰ x xs → P (g x))
    → All P (map g xs)
All-map P g [] h = tt
All-map P g (x ∷ xs) h = (h x (Memᴰ.head refl), All-map P g xs (λ y m. h y (Memᴰ.tail m)))

module _ {F : Type 0} ⦃fl : Floats F⦄ where
  -- A profile that names a weight names one of the defaults.
  abbrev pub IsKnown : ContentionWeightProfile F → Type 0
  IsKnown profile =
      nonempty profile.weight_name ≡ true → contains weight_names profile.weight_name ≡ true

  override-keys :
      (name : String) (value : Option F) (weights : Dict F)
      → contains weight_names name ≡ true
      → override default_contention_weights name value ≡ ok weights
      → keys weights ≡ weight_names
  override-keys name none weights c h = cc
  override-keys name (some v) weights c h =
      let same : insert default_contention_weights name v ≡ weights = cc in
      subst (λ d. keys d ≡ weight_names) same (keys-insert default_contention_weights name v c)

  profile-keys :
      (profile : ContentionWeightProfile F) (weights : Dict F)
      → IsKnown profile
      → contention_weights_for_profile profile ≡ ok weights
      → keys weights ≡ weight_names
  unfolding contention_weights_for_profile
  profile-keys profile weights known h = elim (Bool-cases (nonempty profile.weight_name)) [
    | inl e ↦ override-keys profile.weight_name profile.weight_value weights (known e) (rw e at h)
    | inr e ↦
        let same : default_contention_weights ≡ weights = cc (rw e at h) in
        subst (λ d. keys d ≡ weight_names) same refl
  ]

  pub run_weights-keys :
      (run : MatrixRun F) (weights : Dict F)
      → IsKnown run.contention_weight_profile
      → run_weights run ≡ ok weights
      → keys weights ≡ weight_names
  unfolding run_weights
  run_weights-keys run weights known h =
      let (ws, e, h') =
        >>=-eq-ok (contention_weights_for_profile run.contention_weight_profile) _ h in
      let same = profile-keys run.contention_weight_profile ws known e in
      elim (Bool-cases (str_eq run.policy "contention_aware_size_value")) [
        | inl t ↦
            let final : insert ws "cost_density_weight" (fl.lit 1 0) ≡ weights = cc (rw t at h') in
            subst (λ d. keys d ≡ weight_names) final
              (keys-insert ws "cost_density_weight" (fl.lit 1 0)
                  (subst (λ ks. contains ks "cost_density_weight" ≡ true) (sym same) refl)
                ∙ same)
        | inr t ↦
            let final : ws ≡ weights = cc (rw t at h') in
            subst (λ d. keys d ≡ weight_names) final same
      ]

  -- Every weight that a config is made with stands on a line of its own.
  pub weights-OnLine :
      (weights : Dict F) (lines : List String)
      → keys weights ≡ weight_names
      → each (weight_line weights) weight_names ≡ ok lines
      → All
          (λ field. OnLine field lines)
          (map (λ (name, weight). name <> (": " <> fl.show_g weight)) weights)
  weights-OnLine weights lines same e =
      All-map (λ field. OnLine field lines) _ weights
        λ (name, weight) m.
          let found = get_of_mem weights (subst NodupKeys (sym same) weight_names-NodupKeys) m in
          let (line, made, listed) =
            each-round (weight_line weights) weight_names lines e
              (subst (Memᴰ name) same (Memᴰ.map (λ p. p.0) m)) in
          let shape : "    " <> (name <> (": " <> fl.show_g weight)) ≡ line =
            cc (rw found at made) in
          indented lines "    " (subst (λ l. Memᴰ l lines) (sym shape) listed)

  pub policy_lines-contention :
      (run : MatrixRun F) (policy : List String)
      → yaml_policy_name run.policy ≡ "contention_aware"
      → policy_lines run ≡ ok policy
      → (weights : Dict F) × (lines : List String) × (run_weights run ≡ ok weights)
        × (each (weight_line weights) weight_names ≡ ok lines)
        × (policy ≡ contention_lines run (contention_variant_for_policy run.policy) lines)
  unfolding policy_lines
  policy_lines-contention run policy name h =
      let (weights, e, h1) = >>=-eq-ok (run_weights run) _ (rw name at h) in
      let (lines, e', h2) = >>=-eq-ok (each (weight_line weights) weight_names) _ h1 in
      (weights, lines, e, e', cc)

  pub policy_lines-hotness :
      (run : MatrixRun F) (policy : List String)
      → yaml_policy_name run.policy ≡ "hotness_only"
      → policy_lines run ≡ ok policy
      → policy ≡ hotness_lines run.policy
  unfolding policy_lines
  policy_lines-hotness run policy name h = cc (rw name at h)

abbrev pub is_bounded_hotness : String → Bool
is_bounded_hotness policy =
    str_eq policy "hotness_only_cumulative" || str_eq policy "hotness_only_windowed"

pub hotness-yaml_policy_name :
    (policy : String) → is_bounded_hotness policy ≡ true → yaml_policy_name policy ≡ "hotness_only"
unfolding yaml_policy_name
hotness-yaml_policy_name policy h = rw h

pub windowed-history_mode :
    (policy : String)
    → str_eq policy "hotness_only_windowed" ≡ true
    → hotness_history_mode policy ≡ "windowed"
unfolding hotness_history_mode
windowed-history_mode policy h =
    subst (λ p. hotness_history_mode p ≡ "windowed")
      (sym ((eq_iff policy "hotness_only_windowed").0 h)) refl
