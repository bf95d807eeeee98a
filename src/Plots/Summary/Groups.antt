-- ===== src/Plots/Summary/Groups.antt =====
-- The groups of `build_policy_summary` (scripts/plot_results.py).
use dm_simulator.Base.{
  append_nil, append_assoc, String, ◌≡◌, ◌∙◌, refl, sym, ap, Bool, true, false, Option, none, some,
  List, [], ◌∷◌, ◌++◌, keep, map, ok, >>=-eq-ok, str_eq, eq_iff, Bool-cases, inl, inr,
  if◌then◌else◌,
}
use dm_simulator.Base.Dict.{Dict, get, get-insert}
use dm_simulator.Base.Float.{Floats, Arithmetic}
use dm_simulator.Plots.Values.{
  Value, missing, text, real, count, flag, Row, cell, is_text, or_missing,
}
use dm_simulator.Plots.Policies.{ordered_policies}
use dm_simulator.Plots.Summary.{
  or_none, add_row, policy_or_raise, policy_cell, by_policy, policy_summary, build_policy_summary,
}

-- The rows of a policy.
abbrev pub rows_of : {F : Type 0} → String → List (Row F) → List (Row F)
rows_of policy = keep λ row. is_text (cell row "policy") policy

module _ {F : Type 0} where
  policy_cell-lem : (row : Row F) (v : Value F) → policy_cell row ≡ ok v → cell row "policy" ≡ v
  policy_cell-lem row v h = by_found (get row "policy") h
    where
      by_found : (o : Option (Value F)) → policy_or_raise o ≡ ok v → or_missing o ≡ v
      by_found none h = cc
      by_found (some w) h = cc

  add_row-group :
      (d : Dict (List (Row F))) (v : Value F) (row : Row F) (policy : String)
      → or_none (get (add_row d v row) policy)
        ≡ or_none (get d policy) ++ (if is_text v policy then row ∷ [] else [])
  add_row-group d missing row policy = sym (append_nil _)
  add_row-group d (real x) row policy = sym (append_nil _)
  add_row-group d (count n) row policy = sym (append_nil _)
  add_row-group d (flag b) row policy = sym (append_nil _)
  add_row-group d (text s) row policy =
      ap or_none (get-insert d s policy (or_none (get d s) ++ (row ∷ [])))
      ∙ elim (Bool-cases (str_eq s policy)) [
        | inr e ↦ rw e (sym (append_nil (or_none (get d policy))))
        | inl e ↦ rw e (ap (λ k. or_none (get d k) ++ (row ∷ [])) ((eq_iff s policy).0 e))
      ]

  by_policy-group :
      (d : Dict (List (Row F))) (rows : List (Row F)) (groups : Dict (List (Row F)))
      (policy : String)
      → by_policy d rows ≡ ok groups
      → or_none (get groups policy) ≡ or_none (get d policy) ++ rows_of policy rows
  unfolding by_policy
  by_policy-group d [] groups policy h =
      let same : d ≡ groups = cc in ap (λ g. or_none (get g policy)) (sym same) ∙ sym (append_nil _)
  by_policy-group d (row ∷ rows) groups policy h =
      let (v, e, rest) = >>=-eq-ok (policy_cell row) _ h in
      by_policy-group (add_row d v row) rows groups policy rest
      ∙ ap (λ xs. xs ++ rows_of policy rows) (add_row-group d v row policy)
      ∙ append_assoc (or_none (get d policy)) _ (rows_of policy rows)
      ∙ ap (λ xs. or_none (get d policy) ++ xs)
          (ap (λ w. (if is_text w policy then row ∷ [] else []) ++ rows_of policy rows)
              (sym (policy_cell-lem row v e))
            ∙ kept (is_text (cell row "policy") policy))
    where
      kept :
          (b : Bool)
          → (if b then row ∷ [] else []) ++ rows_of policy rows
            ≡ (if b then row ∷ rows_of policy rows else rows_of policy rows)
      kept true = refl
      kept false = refl

module _ {F : Type 0} ⦃fl : Floats F⦄ ⦃ar : Arithmetic F⦄ where
  -- The summary has one row for each policy, in the policies' order: the summary of its rows.
  pub build_policy_summary-groups :
      (rows summaries : List (Row F))
      → build_policy_summary rows ≡ ok summaries
      → summaries
        ≡ map (λ policy. policy_summary policy (rows_of policy rows)) (ordered_policies rows)
  unfolding build_policy_summary get
  build_policy_summary-groups rows summaries h =
      let (groups, e, made) = >>=-eq-ok (by_policy [] rows) _ h in
      let whole : map (λ policy. policy_summary policy (or_none (get groups policy)))
            (ordered_policies rows)
          ≡ summaries =
        cc in
      sym whole ∙ over groups e (ordered_policies rows)
    where
      over :
          (groups : Dict (List (Row F)))
          → by_policy [] rows ≡ ok groups
          → (policies : List String)
          → map (λ policy. policy_summary policy (or_none (get groups policy))) policies
            ≡ map (λ policy. policy_summary policy (rows_of policy rows)) policies
      over groups e [] = refl
      over groups e (policy ∷ policies) =
          rw (by_policy-group [] rows groups policy e, over groups e policies) refl
