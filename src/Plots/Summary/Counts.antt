-- ===== src/Plots/Summary/Counts.antt =====
-- The counts of `build_policy_summary` (scripts/plot_results.py).
use dm_simulator.Base.{
  ℕ, suc, ◌+◌, ◌≤◌, String, ◌≡◌, ◌∙◌, ◌⊎◌, refl, sym, ap, subst, Bool, true, false, some, List, [],
  ◌∷◌, map, length, keep, All, ok, contains, str_eq, eq_iff, arith, Bool-cases, inl, inr,
  if◌then◌else◌,
}
use dm_simulator.Base.Dict.{get}
use dm_simulator.Base.Float.{Floats, Arithmetic}
use dm_simulator.Plots.Values.{text, count, Row, cell, is_text}
use dm_simulator.Plots.Comparison.{build_policy_comparison}
use dm_simulator.Plots.Comparison.Classes.{
  IsClassified, unmatched, matched, build_policy_comparison-IsClassified,
}
use dm_simulator.Plots.Policies.{ordered_policies}
use dm_simulator.Plots.Summary.{count_class, comparable, policy_summary, build_policy_summary}
use dm_simulator.Plots.Summary.Groups.{rows_of, build_policy_summary-groups}

All-keep : {A : Type 0} (P : A → Type 0) (f : A → Bool) (xs : List A) → All P xs → All P (keep f xs)
All-keep P f [] h = tt
All-keep P f (x ∷ xs) (p, h) = elim (Bool-cases (f x)) [
  | inl e ↦ rw e (p, All-keep P f xs h)
  | inr e ↦ rw e (All-keep P f xs h)
]

one_of :
    (class : String)
    → contains ("win" ∷ "tie" ∷ "loss" ∷ []) class ≡ true
    → (class ≡ "win") ⊎ ((class ≡ "tie") ⊎ (class ≡ "loss"))
one_of class h = elim (Bool-cases (str_eq "win" class)) [
  | inl e ↦ inl (sym ((eq_iff "win" class).0 e))
  | inr e ↦ elim (Bool-cases (str_eq "tie" class)) [
    | inl f ↦ inr (inl (sym ((eq_iff "tie" class).0 f)))
    | inr f ↦ elim (Bool-cases (str_eq "loss" class)) [
      | inl g ↦ inr (inr (sym ((eq_iff "loss" class).0 g)))
      | inr g ↦ cc (rw (e, f, g) at h)
    ]
  ]
]

length-keep-le : {A : Type 0} (f : A → Bool) (xs : List A) → length (keep f xs) ≤ length xs
length-keep-le f [] = omega arith
length-keep-le f (x ∷ xs) = elim (Bool-cases (f x)) [
  | inl e ↦ rw e (let h = length-keep-le f xs in omega arith)
  | inr e ↦ rw e (let h = length-keep-le f xs in omega arith)
]

module _ {F : Type 0} ⦃fl : Floats F⦄ ⦃ar : Arithmetic F⦄ where
  abbrev classes : List (Row F) → ℕ
  classes rows = count_class rows "win" + count_class rows "tie" + count_class rows "loss"

  count_class-cons :
      (row : Row F) (rows : List (Row F)) (class name : String)
      → cell row "classification" ≡ text class
      → count_class (row ∷ rows) name
        ≡ (if str_eq class name then suc (count_class rows name) else count_class rows name)
  unfolding count_class
  count_class-cons row rows class name e =
      let same : is_text (cell row "classification") name ≡ str_eq class name =
        ap (λ v. is_text v name) e in
      elim (Bool-cases (str_eq class name)) [
        | inl t ↦ rw (same ∙ t, t) refl
        | inr t ↦ rw (same ∙ t, t) refl
      ]

  classes-cons :
      (row : Row F) (rows : List (Row F)) (class : String)
      → contains ("win" ∷ "tie" ∷ "loss" ∷ []) class ≡ true
      → cell row "classification" ≡ text class
      → classes (row ∷ rows) ≡ suc (classes rows)
  classes-cons row rows class member e =
      let kind = count_class-cons row rows in
      elim (one_of class member) [
        | inl c ↦
            let own = e ∙ ap text c in
            add_three (kind "win" "win" own) (kind "win" "tie" own) (kind "win" "loss" own)
        | inr (inl c) ↦
            let own = e ∙ ap text c in
            add_middle (kind "tie" "win" own) (kind "tie" "tie" own) (kind "tie" "loss" own)
        | inr (inr c) ↦
            let own = e ∙ ap text c in
            add_last (kind "loss" "win" own) (kind "loss" "tie" own) (kind "loss" "loss" own)
      ]
    where
      add_three :
          {a b c a' b' c' : ℕ} → a' ≡ suc a → b' ≡ b → c' ≡ c → a' + b' + c' ≡ suc (a + b + c)
      add_three h k l = omega (arith, h, k, l)

      add_middle :
          {a b c a' b' c' : ℕ} → a' ≡ a → b' ≡ suc b → c' ≡ c → a' + b' + c' ≡ suc (a + b + c)
      add_middle h k l = omega (arith, h, k, l)

      add_last :
          {a b c a' b' c' : ℕ} → a' ≡ a → b' ≡ b → c' ≡ suc c → a' + b' + c' ≡ suc (a + b + c)
      add_last h k l = omega (arith, h, k, l)

  comparable-cons :
      (row : Row F) (rows : List (Row F)) (class : String)
      → contains ("win" ∷ "tie" ∷ "loss" ∷ []) class ≡ true
      → cell row "classification" ≡ text class
      → comparable (row ∷ rows) ≡ row ∷ comparable rows
  unfolding comparable
  comparable-cons row rows class member e =
      let kept : is_text (cell row "classification") "no_baseline" ≡ false =
        ap (λ v. is_text v "no_baseline") e ∙ elim (one_of class member) [
          | inl c ↦ ap (λ s. str_eq s "no_baseline") c
          | inr (inl c) ↦ ap (λ s. str_eq s "no_baseline") c
          | inr (inr c) ↦ ap (λ s. str_eq s "no_baseline") c
        ] in
      rw kept refl

  comparable-unmatched :
      (row : Row F) (rows : List (Row F))
      → cell row "classification" ≡ text "no_baseline"
      → comparable (row ∷ rows) ≡ comparable rows
  unfolding comparable
  comparable-unmatched row rows e =
      let dropped : is_text (cell row "classification") "no_baseline" ≡ true =
        ap (λ v. is_text v "no_baseline") e in
      rw dropped refl

  -- A row without a baseline is in no class, and one with a baseline is in one.
  count_class-comparable :
      (rows : List (Row F))
      → All IsClassified rows
      → classes (comparable rows) ≡ length (comparable rows)
  unfolding count_class comparable
  count_class-comparable [] h = refl
  count_class-comparable (row ∷ rows) (unmatched class delta, h) =
      let e = comparable-unmatched row rows class in
      ap classes e ∙ count_class-comparable rows h ∙ ap length (sym e)
  count_class-comparable (row ∷ rows) (matched name delta member class value, h) =
      let e = comparable-cons row rows name member class in
      ap classes e
      ∙ classes-cons row (comparable rows) name member class
      ∙ ap suc (count_class-comparable rows h)
      ∙ ap length (sym e)

  -- The counts of a summary row: the runs with a baseline are the wins, the ties and the losses.
  pub record IsCounted (summary : Row F) : Type 0 where
    pub wins : ℕ
    pub ties : ℕ
    pub losses : ℕ
    pub runs : ℕ
    pub win_count : get summary "win_count" ≡ some (count wins)
    pub tie_count : get summary "tie_count" ≡ some (count ties)
    pub loss_count : get summary "loss_count" ≡ some (count losses)
    pub run_count : get summary "run_count" ≡ some (count runs)
    pub comparable_run_count :
        get summary "comparable_run_count" ≡ some (count (wins + ties + losses))
    pub within : wins + ties + losses ≤ runs

  policy_summary-IsCounted :
      (policy : String) (rows : List (Row F))
      → All IsClassified rows
      → IsCounted (policy_summary policy rows)
  unfolding policy_summary get
  policy_summary-IsCounted policy rows h =
      let whole = count_class-comparable rows h in
      record {
        wins = count_class (comparable rows) "win";
        ties = count_class (comparable rows) "tie";
        losses = count_class (comparable rows) "loss";
        runs = length rows;
        win_count = refl;
        tie_count = refl;
        loss_count = refl;
        run_count = refl;
        comparable_run_count = ap (λ n. some (count n)) (sym whole);
        within = subst (λ n. n ≤ length rows) (sym whole) (fewer rows);
      }
    where
      fewer : (rows : List (Row F)) → length (comparable rows) ≤ length rows
      fewer rows = unfold comparable in length-keep-le _ rows

  -- In the summary of a comparison, the runs of each policy that have a baseline are its wins,
  -- its ties and its losses, and they are no more than its runs.
  pub build_policy_summary-IsCounted :
      (rows : List (Row F)) (baseline_policy : String) (tie_threshold : F)
      (summaries : List (Row F))
      → build_policy_summary (build_policy_comparison rows baseline_policy tie_threshold)
        ≡ ok summaries
      → All IsCounted summaries
  build_policy_summary-IsCounted rows baseline_policy tie_threshold summaries h =
      let compared = build_policy_comparison rows baseline_policy tie_threshold in
      subst (All IsCounted) (sym (build_policy_summary-groups compared summaries h))
        (over (ordered_policies compared))
    where
      over :
          (policies : List String)
          → All IsCounted (
              map
                (λ policy.
                  policy_summary policy
                    (rows_of policy (build_policy_comparison rows baseline_policy tie_threshold)))
                policies)
      over [] = tt
      over (policy ∷ policies) = (
        policy_summary-IsCounted policy
            (rows_of policy (build_policy_comparison rows baseline_policy tie_threshold))
            (All-keep IsClassified (λ row. is_text (cell row "policy") policy)
              (build_policy_comparison rows baseline_policy tie_threshold)
              (build_policy_comparison-IsClassified rows baseline_policy tie_threshold)),
        over policies,
      )
