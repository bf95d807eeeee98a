-- ===== src/Plots/Best/Least.antt =====
-- The best rows of the policies (scripts/plot_results.py).
use mathlib.Core.List.Memᴰ
use dm_simulator.Base.{
  mem-flat_map, keep-mem, mem-keep, both, append_nil, append_assoc, String, ◌≡◌, ◌∙◌, ◌⊎◌, refl,
  sym, ap, subst, Bool, true, false, ◌&&◌, some, List, [], ◌∷◌, ◌++◌, keep, contains, not, All,
  All-of_Memᴰ, Memᴰ, str_eq, eq_iff, Bool-cases, inl, inr, if◌then◌else◌,
}
use dm_simulator.Base.Float.{Floats, Arithmetic, IsStrictOrder}
use dm_simulator.Base.Dict.{Dict, get, insert, get-insert}
use dm_simulator.Plots.Columns.{best_run_baseline_policies}
use dm_simulator.Plots.Values.{Row}
use dm_simulator.Plots.Best.{
  is_best_run_policy, policy_of, best_run_sort_key, key_lt, best_row, rows_at, best_by_policy,
  best_of, best_rows, is_some, value_for_plot,
}
use dm_simulator.Plots.Best.Order.{key_lt_irrefl, key_lt_trans}

-- Whether a row counts for a policy.
abbrev counts : {F : Type 0} ⦃fl : Floats F⦄ ⦃ar : Arithmetic F⦄ → String → Row F → Bool
counts policy row = is_best_run_policy row && str_eq (policy_of row) policy

-- Whether a row has a policy and a mean latency delta.
abbrev pub candidate : {F : Type 0} ⦃fl : Floats F⦄ ⦃ar : Arithmetic F⦄ → String → Row F → Bool
candidate policy row =
    is_some (value_for_plot row "mean_latency_delta_pct") && str_eq (policy_of row) policy

not-eq-true : (b : Bool) → not b ≡ true → b ≡ false
not-eq-true true h = cc
not-eq-true false h = refl

module _ {F : Type 0} ⦃fl : Floats F⦄ ⦃ar : Arithmetic F⦄ where
  best_by_policy-group :
      (d : Dict (List (Row F))) (rows : List (Row F)) (policy : String)
      → rows_at (get (best_by_policy d rows) policy)
        ≡ rows_at (get d policy) ++ keep (counts policy) rows
  unfolding best_by_policy
  best_by_policy-group d [] policy = sym (append_nil _)
  best_by_policy-group d (row ∷ rows) policy = elim (Bool-cases (is_best_run_policy row)) [
    | inr e ↦ rw e (best_by_policy-group d rows policy)
    | inl e ↦
        let own = rows_at (get d (policy_of row)) ++ (row ∷ []) in
        let later = best_by_policy-group (insert d (policy_of row) own) rows policy in
        let there = ap rows_at (get-insert d (policy_of row) policy own) in
        elim (Bool-cases (str_eq (policy_of row) policy)) [
          | inr f ↦
              rw (e, f)
                (later
                  ∙ ap (λ xs. xs ++ keep (counts policy) rows)
                      (there ∙ ap (λ b. rows_at (if b then some own else get d policy)) f))
          | inl f ↦
              rw (e, f)
                (later
                  ∙ ap (λ xs. xs ++ keep (counts policy) rows)
                      (there
                        ∙ ap (λ b. rows_at (if b then some own else get d policy)) f
                        ∙ ap (λ k. rows_at (get d k) ++ (row ∷ []))
                            ((eq_iff (policy_of row) policy).0 f))
                  ∙ append_assoc (rows_at (get d policy)) (row ∷ []) (keep (counts policy) rows))
        ]
  ]

  module _ (order : IsStrictOrder fl) where
    abbrev less : Row F → Row F → Bool
    less row other = key_lt (best_run_sort_key row) (best_run_sort_key other)

    less_trans : (a b c : Row F) → less a b ≡ true → less b c ≡ true → less a c ≡ true
    less_trans a b c =
        key_lt_trans order (best_run_sort_key a) (best_run_sort_key b) (best_run_sort_key c)

    not_less : (a b : Row F) → (less a b ≡ true → less b b ≡ true) → less a b ≡ false
    not_less a b h = elim (Bool-cases (less a b)) [
      | inr e ↦ e
      | inl e ↦ cc (sym (h e) ∙ key_lt_irrefl order (best_run_sort_key b))
    ]

    -- What `min` returns: one of the rows, and no row is less.
    record IsLeast (best : Row F) (rows : List (Row F)) (r : Row F) : Type 0 where
      pub listed : Memᴰ r (best ∷ rows)
      pub chain : (r ≡ best) ⊎ (less r best ≡ true)
      pub lower : (row : Row F) → Memᴰ row (best ∷ rows) → less row r ≡ false

    best_row-IsLeast : (best : Row F) (rows : List (Row F)) → IsLeast best rows (best_row best rows)
    unfolding best_row
    best_row-IsLeast best [] = record {
      listed = Memᴰ.head refl;
      chain = inl refl;
      lower = λ row m.
          subst (λ x. less x best ≡ false) (sym (Memᴰ.eq_of_singleton m))
            (key_lt_irrefl order (best_run_sort_key best));
    }
    best_row-IsLeast best (row ∷ rows) = elim (Bool-cases (less row best)) [
      | inl e ↦ rw e (replaced (best_row row rows) e (best_row-IsLeast row rows))
      | inr e ↦ rw e (kept (best_row best rows) e (best_row-IsLeast best rows))
    ]
      where
        under :
            (r c : Row F)
            → (r ≡ c) ⊎ (less r c ≡ true)
            → (a : Row F) → less a r ≡ true
            → less a c ≡ true
        under r c (inl same) a h = subst (λ x. less a x ≡ true) same h
        under r c (inr l) a h = less_trans a r c h l

        replaced :
            (r : Row F) → less row best ≡ true → IsLeast row rows r → IsLeast best (row ∷ rows) r
        replaced r e i = record {
          listed = Memᴰ.tail i.listed;
          chain = inr (by_chain i.chain);
          lower = λ a m. elim (Memᴰ.cases_cons m) [
            | inr n ↦ i.lower a n
            | inl same ↦
                subst (λ x. less x r ≡ false) (sym same)
                  (not_less best r (λ h. less_trans r best r (by_chain i.chain) h))
          ];
        }
          where
            by_chain : (r ≡ row) ⊎ (less r row ≡ true) → less r best ≡ true
            by_chain (inl same) = subst (λ x. less x best ≡ true) (sym same) e
            by_chain (inr l) = less_trans r row best l e

        kept :
            (r : Row F) → less row best ≡ false → IsLeast best rows r → IsLeast best (row ∷ rows) r
        kept r e i = record {
          listed = elim (Memᴰ.cases_cons i.listed) [
            | inl same ↦ Memᴰ.head same
            | inr n ↦ Memᴰ.tail (Memᴰ.tail n)
          ];
          chain = i.chain;
          lower = λ a m. elim (Memᴰ.cases_cons m) [
            | inl same ↦ i.lower a (Memᴰ.head same)
            | inr n ↦ elim (Memᴰ.cases_cons n) [
              | inr k ↦ i.lower a (Memᴰ.tail k)
              | inl same ↦
                  subst (λ x. less x r ≡ false) (sym same)
                    (not_less row r (λ h. cc (sym (under r best i.chain row h) ∙ e)))
            ]
          ];
        }

    candidate-counts :
        (policy : String)
        → contains best_run_baseline_policies policy ≡ false
        → (row : Row F) → candidate policy row ≡ true
        → counts policy row ≡ true
    unfolding is_best_run_policy
    candidate-counts policy no_baseline row h =
        let (measured, named) = both (is_some (value_for_plot row "mean_latency_delta_pct")) _ h in
        rw ((eq_iff (policy_of row) policy).0 named, no_baseline, measured)
          ((eq_iff policy policy).1 refl)

    is_best_run_policy-parts :
        (row : Row F)
        → is_best_run_policy row ≡ true
        → (contains best_run_baseline_policies (policy_of row) ≡ false)
          × (is_some (value_for_plot row "mean_latency_delta_pct") ≡ true)
    unfolding is_best_run_policy
    is_best_run_policy-parts row h =
        let (outside, measured) =
          both (not (contains best_run_baseline_policies (policy_of row))) _ h in
        (not-eq-true (contains best_run_baseline_policies (policy_of row)) outside, measured)

    -- A best row is a row of the comparison that has a mean latency delta and whose policy is none
    -- of the baseline policies, and no row of its policy with a mean latency delta is less by the
    -- sort key, if the floats' comparisons behave as documented.
    pub best_rows-least :
        (rows : List (Row F)) (best : Row F)
        → Memᴰ best (best_rows rows)
        → Memᴰ best rows
          × (contains best_run_baseline_policies (policy_of best) ≡ false)
          × (is_some (value_for_plot best "mean_latency_delta_pct") ≡ true)
          × All
              (λ row. key_lt (best_run_sort_key row) (best_run_sort_key best) ≡ false)
              (keep (candidate (policy_of best)) rows)
    unfolding best_rows get
    best_rows-least rows best m =
        let (policy, mp) =
          mem-flat_map (λ policy. best_of (rows_at (get (best_by_policy [] rows) policy))) _ m in
        in_group policy (rows_at (get (best_by_policy [] rows) policy))
          (best_by_policy-group [] rows policy) mp
      where
        in_group :
            (policy : String) (group : List (Row F))
            → group ≡ rows_at (get {V = List (Row F)} [] policy) ++ keep (counts policy) rows
            → Memᴰ best (best_of group)
            → Memᴰ best rows
              × (contains best_run_baseline_policies (policy_of best) ≡ false)
              × (is_some (value_for_plot best "mean_latency_delta_pct") ≡ true)
              × All (λ row. less row best ≡ false) (keep (candidate (policy_of best)) rows)
        in_group policy [] e mb = absurd (Memᴰ.not-nil mb)
        in_group policy (first ∷ group) e mb =
            let least =
              subst (IsLeast first group) (sym (Memᴰ.eq_of_singleton mb))
                (best_row-IsLeast first group) in
            let (own, counted) = mem-keep (counts policy) rows (subst (Memᴰ best) e least.listed) in
            let (is_best, named) = both (is_best_run_policy best) _ counted in
            let (no_baseline, measured) = is_best_run_policy-parts best is_best in
            let same : policy_of best ≡ policy = (eq_iff (policy_of best) policy).0 named in
            (
              own,
              no_baseline,
              measured,
              All-of_Memᴰ (λ row. less row best ≡ false) (keep (candidate (policy_of best)) rows)
                  λ row mr.
                    let (listed, fits) = mem-keep (candidate (policy_of best)) rows mr in
                    let counted_row = candidate-counts (policy_of best) no_baseline row fits in
                    least.lower row (
                      subst (Memᴰ row) (sym e) (
                        keep-mem (counts policy) rows listed
                          (subst (λ p. counts p row ≡ true) same counted_row))),
            )
