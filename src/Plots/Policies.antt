-- ===== src/Plots/Policies.antt =====
-- The order of the policies (scripts/plot_results.py).
pub mod Order
use dm_simulator.Base.{
  ℕ, zero, suc, String, Bool, true, false, not, Option, none, some, List, [], ◌∷◌, ◌++◌, keep,
  contains, str_eq, if◌then◌else◌,
}
use dm_simulator.Base.Sets.{dedup, text_le}
use dm_simulator.Base.Sort.{sort_by}
use dm_simulator.Text.{nonempty}
use dm_simulator.Plots.Columns.{preferred_policy_order}
use dm_simulator.Plots.Values.{Value, missing, text, Row, cell_or_blank}

-- A policy that is a text and not blank. The policies of a row are texts, or missing.
abbrev pub cons_policy : {F : Type 0} → Value F → List String → List String
cons_policy (text s) ps = if nonempty s then s ∷ ps else ps
cons_policy _ ps = ps

unfoldable pub row_policies : {F : Type 0} → List (Row F) → List String
row_policies [] = []
row_policies (row ∷ rows) = cons_policy (cell_or_blank row "policy") (row_policies rows)

-- The preferred policies that are present, and the others, sorted.
unfoldable pub order_present : List String → List String
order_present present =
    let ordered = keep (contains present) preferred_policy_order in
    ordered ++ sort_by text_le (keep (λ p. not (contains ordered p)) present)

unfoldable pub ordered_policies : {F : Type 0} → List (Row F) → List String
ordered_policies rows = order_present (dedup (row_policies rows))

-- `order.index(text)` of a text that is there
abbrev pub index_of : List String → String → ℕ
index_of [] s = zero
index_of (t ∷ ts) s = let rest = index_of ts s in if str_eq t s then zero else suc rest
