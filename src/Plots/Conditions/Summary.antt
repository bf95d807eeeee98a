-- ===== src/Plots/Conditions/Summary.antt =====
-- What `build_condition_summary` writes (scripts/plot_results.py).
use mathlib.Core.List.Memᴰ
use dm_simulator.Base.{
  ok, >>=-eq-ok, String, ◌≡◌, refl, subst, List, [], ◌∷◌, ◌++◌, map, All, All-append, All-imp, Memᴰ,
}
use dm_simulator.Base.Float.{Floats, Arithmetic}
use dm_simulator.Plots.Dimensions.{condition_dimensions}
use dm_simulator.Plots.Values.{Row}
use dm_simulator.Plots.Conditions.{
  grouped, sorted_groups, condition_row, condition_rows, build_condition_summary,
}
use dm_simulator.Plots.Conditions.Groups.{HasTexts, IsConditionRow, IsCovered, dimension_rows}

module _ {F : Type 0} ⦃fl : Floats F⦄ ⦃ar : Arithmetic F⦄ (rows : List (Row F)) where
  later_dimension :
      (dimension : String) (dimensions : List String) (made : Row F)
      → IsConditionRow rows dimensions made
      → IsConditionRow rows (dimension ∷ dimensions) made
  later_dimension dimension dimensions made (own, m, stands) = (own, Memᴰ.tail m, stands)

  condition_rows-parts :
      (dimensions : List String) (summary : List (Row F))
      → All (HasTexts rows) dimensions
      → condition_rows rows dimensions ≡ ok summary
      → All (IsConditionRow rows dimensions) summary × All (IsCovered rows summary) dimensions
  unfolding condition_rows
  condition_rows-parts [] summary t h =
      (subst (All (IsConditionRow rows [])) (let e : [] ≡ summary = cc in e) tt, tt)
  condition_rows-parts (dimension ∷ dimensions) summary (own, t) h =
      let (groups, sorted, h') = >>=-eq-ok (sorted_groups (grouped dimension [] rows)) _ h in
      let (rest, e, made) = >>=-eq-ok (condition_rows rows dimensions) _ h' in
      let whole : map (condition_row dimension) groups ++ rest ≡ summary = cc in
      let (stand, covered) = dimension_rows rows dimension own groups sorted in
      let (stand', covered') = condition_rows-parts dimensions rest t e in
      subst
        (λ all_rows.
          All (IsConditionRow rows (dimension ∷ dimensions)) all_rows
          × All (IsCovered rows all_rows) (dimension ∷ dimensions))
        whole
        (
          All-append (IsConditionRow rows (dimension ∷ dimensions))
              (map (condition_row dimension) groups) rest
              (All-imp (λ made_row s. (dimension, Memᴰ.head refl, s)) _ stand)
              (All-imp (later_dimension dimension dimensions) rest stand'),
          (
            All-imp (λ row m. Memᴰ.append_left rest m) rows covered,
            All-imp
                (λ other c.
                  All-imp (λ row m. Memᴰ.append_right (map (condition_row dimension) groups) m) rows
                    c)
                dimensions covered',
          ),
        )

  -- When the condition summary can be made, and the values of its dimensions and the policies are
  -- texts or missing: each of its rows is the summary of just those rows that have one value of one
  -- dimension and one policy, with at least one such row, and it has that row for each dimension and
  -- each row of the comparison.
  pub build_condition_summary-groups :
      (summary : List (Row F))
      → All (HasTexts rows) condition_dimensions
      → build_condition_summary rows ≡ ok summary
      → All (IsConditionRow rows condition_dimensions) summary
        × All (IsCovered rows summary) condition_dimensions
  unfolding build_condition_summary
  build_condition_summary-groups summary = condition_rows-parts condition_dimensions summary
