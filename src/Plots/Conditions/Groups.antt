-- ===== src/Plots/Conditions/Groups.antt =====
-- The rows of `build_condition_summary` (scripts/plot_results.py).
use mathlib.Core.List.Memᴰ
use dm_simulator.Base.{
  append_nil, append_assoc, keep-mem, mem-keep, ok, >>-eq-ok, raise_if, type_error, String, ◌≡◌,
  ◌≢◌, ◌∙◌, refl, sym, ap, subst, Option, none, some, List, [], ◌∷◌, ◌++◌, map, keep, All, All-at,
  All-of_Memᴰ, Memᴰ, Bool-cases, inl, inr, if◌then◌else◌,
}
use dm_simulator.Base.Float.{Floats, Arithmetic}
use dm_simulator.Base.Sort.{sort_by, mem-sort_by, sort_by-mem}
use dm_simulator.Plots.Values.{Row, cell_or_blank}
use dm_simulator.Plots.Best.{rows_at}
use dm_simulator.Plots.Comparison.{Key, same_key, find_key, insert_key}
use dm_simulator.Plots.Comparison.Baseline.{
  Plain, same_key_sound, same_key_refl, find_key-insert_key, insert_key-Plain,
}
use dm_simulator.Plots.Comparison.Keys.{
  Distinct, insert_key-Distinct, find_key-entry, entry-of_find_key, Filled, insert_key-Filled,
}
use dm_simulator.Plots.Conditions.{Group, grouped, any_mixed, keys_le, sorted_groups, condition_row}

module _ {F : Type 0} ⦃fl : Floats F⦄ ⦃ar : Arithmetic F⦄ where
  -- The value of a row in a dimension, and its policy.
  abbrev pub value_and_policy : String → Row F → Key F
  value_and_policy dimension row = cell_or_blank row dimension ∷ cell_or_blank row "policy" ∷ []

  -- The rows with a given value in a dimension and a given policy.
  abbrev pub alike : String → Key F → List (Row F) → List (Row F)
  alike dimension k = keep λ row. same_key (value_and_policy dimension row) k

  -- The row of the summary for the value and the policy of a row.
  abbrev pub summary_row : List (Row F) → String → Row F → Row F
  summary_row rows dimension row =
      let key = value_and_policy dimension row in
      condition_row dimension (key, alike dimension key rows)

  -- The values of a dimension and the policies are texts, or missing.
  abbrev pub HasTexts : List (Row F) → String → Type 0
  HasTexts rows dimension = All (λ row. Plain (value_and_policy dimension row)) rows

  -- A row of the summary stands for the rows of one value and one policy.
  abbrev pub Stands : List (Row F) → String → Row F → Type 0
  Stands rows dimension made =
      (row : Row F) × Memᴰ row rows × (made ≡ summary_row rows dimension row)

  abbrev pub IsConditionRow : List (Row F) → List String → Row F → Type 0
  IsConditionRow rows dimensions made =
      (dimension : String) × Memᴰ dimension dimensions × Stands rows dimension made

  abbrev pub IsCovered : List (Row F) → List (Row F) → String → Type 0
  IsCovered rows summary dimension = All (λ row. Memᴰ (summary_row rows dimension row) summary) rows

  record IsGrouping (d : List (Group F)) : Type 0 where
    plain : All (λ (k, _). Plain k) d
    distinct : Distinct d
    filled : Filled d

  grouped-IsGrouping :
      (dimension : String) (d : List (Group F)) (rows : List (Row F))
      → HasTexts rows dimension
      → IsGrouping d
      → IsGrouping (grouped dimension d rows)
  unfolding grouped
  grouped-IsGrouping dimension d [] p g = g
  grouped-IsGrouping dimension d (row ∷ rows) (q, p) g =
      let key = value_and_policy dimension row in
      let own = rows_at (find_key key d) in
      grouped-IsGrouping dimension (insert_key d key (own ++ (row ∷ []))) rows p (record {
        plain = insert_key-Plain d key (own ++ (row ∷ [])) q g.plain;
        distinct = insert_key-Distinct d key (own ++ (row ∷ [])) q g.plain g.distinct;
        filled = insert_key-Filled d key own row g.filled;
      })

  grouped-find :
      (dimension : String) (k : Key F) (d : List (Group F)) (rows : List (Row F))
      → HasTexts rows dimension
      → All (λ (j, _). Plain j) d
      → rows_at (find_key k (grouped dimension d rows))
        ≡ rows_at (find_key k d) ++ alike dimension k rows
  unfolding grouped
  grouped-find dimension k d [] p ps = sym (append_nil _)
  grouped-find dimension k d (row ∷ rows) (q, p) ps =
      let key = value_and_policy dimension row in
      let own = rows_at (find_key key d) ++ (row ∷ []) in
      let later =
        grouped-find dimension k (insert_key d key own) rows p (insert_key-Plain d key own q ps) in
      let there = ap rows_at (find_key-insert_key d key k own q ps) in
      elim (Bool-cases (same_key key k)) [
        | inr e ↦ rw e (
            later
            ∙ ap (λ xs. xs ++ alike dimension k rows)
                (there ∙ ap (λ b. rows_at (if b then some own else find_key k d)) e))
        | inl e ↦ rw e (
            later
            ∙ ap (λ xs. xs ++ alike dimension k rows)
                (there
                  ∙ ap (λ b. rows_at (if b then some own else find_key k d)) e
                  ∙ ap (λ j. rows_at (find_key j d) ++ (row ∷ [])) (same_key_sound key k q e))
            ∙ append_assoc (rows_at (find_key k d)) (row ∷ []) (alike dimension k rows))
      ]

  module _ (rows : List (Row F)) (dimension : String) (texts : HasTexts rows dimension) where
    grouping : IsGrouping (grouped dimension [] rows)
    grouping =
        grouped-IsGrouping dimension [] rows texts
          (record { plain = tt; distinct = tt; filled = tt })

    group-Stands :
        (k : Key F) (members : List (Row F))
        → Memᴰ (k, members) (grouped dimension [] rows)
        → Stands rows dimension (condition_row dimension (k, members))
    unfolding find_key
    group-Stands k members m =
        let found =
          find_key-entry (grouped dimension [] rows) k members grouping.plain grouping.distinct m in
        let same : members ≡ alike dimension k rows =
          sym (ap rows_at found) ∙ grouped-find dimension k [] rows texts tt in
        from_first members
          (All-at (λ (_, xs). xs ≢ []) (grouped dimension [] rows) grouping.filled m) same
      where
        from_first :
            (members : List (Row F))
            → members ≢ []
            → members ≡ alike dimension k rows
            → Stands rows dimension (condition_row dimension (k, members))
        from_first [] some_left same = absurd (some_left refl)
        from_first (row ∷ others) some_left same =
            let (listed, fits) =
              mem-keep (λ other. same_key (value_and_policy dimension other) k) rows
                (subst (Memᴰ row) same (Memᴰ.head refl)) in
            let key : value_and_policy dimension row ≡ k =
              same_key_sound (value_and_policy dimension row) k
                (All-at (λ other. Plain (value_and_policy dimension other)) rows texts listed)
                fits in
            (
              row,
              listed,
              ap (λ xs. condition_row dimension (k, xs)) same
                  ∙ ap (λ j. condition_row dimension (j, alike dimension j rows)) (sym key),
            )

    row-group :
        (row : Row F)
        → Memᴰ row rows
        → let key = value_and_policy dimension row in
          Memᴰ (key, alike dimension key rows) (grouped dimension [] rows)
    unfolding find_key
    row-group row m =
        let key = value_and_policy dimension row in
        let plain = All-at (λ other. Plain (value_and_policy dimension other)) rows texts m in
        let here =
          keep-mem (λ other. same_key (value_and_policy dimension other) key) rows m
            (same_key_refl key plain) in
        from_found (find_key key (grouped dimension [] rows)) refl
          (grouped-find dimension key [] rows texts tt) here
      where
        from_found :
            (found : Option (List (Row F)))
            → find_key (value_and_policy dimension row) (grouped dimension [] rows) ≡ found
            → rows_at found ≡ alike dimension (value_and_policy dimension row) rows
            → Memᴰ row (alike dimension (value_and_policy dimension row) rows)
            → Memᴰ
                (
                  value_and_policy dimension row,
                  alike dimension (value_and_policy dimension row) rows,
                )
                (grouped dimension [] rows)
        from_found none f same here = absurd (Memᴰ.not-nil (subst (Memᴰ row) (sym same) here))
        from_found (some members) f same here =
            entry-of_find_key (grouped dimension [] rows) (value_and_policy dimension row)
              (alike dimension (value_and_policy dimension row) rows) grouping.plain
              (f ∙ ap some same)

    -- The rows of one dimension.
    pub dimension_rows :
        (groups : List (Group F))
        → sorted_groups (grouped dimension [] rows) ≡ ok groups
        → All (Stands rows dimension) (map (condition_row dimension) groups)
          × IsCovered rows (map (condition_row dimension) groups) dimension
    unfolding sorted_groups
    dimension_rows groups h =
        let (checked, made) =
          >>-eq-ok (raise_if (any_mixed (grouped dimension [] rows)) type_error) _ h in
        let same : sort_by (λ (k, _) (j, _). keys_le k j) (grouped dimension [] rows) ≡ groups =
          cc in
        (
          All-of_Memᴰ (Stands rows dimension) (map (condition_row dimension) groups) λ made_row m.
              let ((k, members), mg, e) = Memᴰ.of_map (condition_row dimension) groups m in
              let (row, listed, e') = group-Stands k members (
                mem-sort_by (λ (k, _) (j, _). keys_le k j) (grouped dimension [] rows)
                  (subst (Memᴰ (k, members)) (sym same) mg)) in
              (row, listed, sym e ∙ e'),
          All-of_Memᴰ _ rows λ row m. Memᴰ.map (condition_row dimension) (
              subst (Memᴰ _) same (
                sort_by-mem (λ (k, _) (j, _). keys_le k j) (grouped dimension [] rows)
                  (row-group row m))),
        )
