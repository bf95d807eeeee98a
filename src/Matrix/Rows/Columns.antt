-- ===== src/Matrix/Rows/Columns.antt =====
-- The columns of a base row in the aggregate CSV (scripts/run_matrix.py).
use dm_simulator.Base.{
  String, ◌≡◌, ◌∙◌, All, All-of_Memᴰ, refl, ap, subst, Bool, true, not, ◌&&◌, some, List, [], ◌∷◌,
  map, Memᴰ, ok, >>=-eq-ok, contains, str_eq, eq_iff, Bool-cases, inl, inr,
}
use dm_simulator.Base.Float.{Floats}
use dm_simulator.Base.Dict.{Dict, get, keys, NodupKeys, get_of_mem, mem-contains}
use dm_simulator.Matrix.Preset.{MatrixRun}
use dm_simulator.Matrix.Run.{
  or_default, memory_bandwidth_bytes_per_time, memory_base_latency, one_way_link_latency,
  cache_capacity_bytes,
}
use dm_simulator.Matrix.Rows.{Cell, text, aggregate_columns, base_cells, base_row, csv_row}

-- The column of a dict that is made from its keys.
get-map :
    {A : Type 0} (f : String → A) (columns : List String) (column : String)
    → contains columns column ≡ true
    → get (map (λ c. (c, f c)) columns) column ≡ some (f column)
unfolding get
get-map f [] column h = cc
get-map f (c ∷ columns) column h = elim (Bool-cases (str_eq c column)) [
  | inl e ↦ rw e (ap (λ k. some (f k)) ((eq_iff c column).0 e))
  | inr e ↦ rw e (get-map f columns column (rw e at h))
]

-- The columns are told apart by a test, and so are the keys of a base row.
abbrev pub distinct : List String → Bool
distinct [] = true
distinct (k ∷ ks) = not (contains ks k) && distinct ks

distinct-NodupKeys : (ks : List String) → distinct ks ≡ true → NodupKeys ks
distinct-NodupKeys [] h = tt
distinct-NodupKeys (k ∷ ks) h = elim (Bool-cases (contains ks k)) [
  | inl e ↦ cc (rw e at h)
  | inr e ↦ (e, distinct-NodupKeys ks (rw e at h))
]

abbrev pub among : List String → List String → Bool
among columns [] = true
among columns (k ∷ ks) = contains columns k && among columns ks

pub among-All :
    (columns ks : List String) → among columns ks ≡ true → All (λ k. contains columns k ≡ true) ks
among-All columns [] h = tt
among-All columns (k ∷ ks) h = elim (Bool-cases (contains columns k)) [
  | inl e ↦ (e, among-All columns ks (rw e at h))
  | inr e ↦ cc (rw e at h)
]

among-contains :
    (columns ks : List String) (k : String)
    → among columns ks ≡ true
    → contains ks k ≡ true
    → contains columns k ≡ true
among-contains columns [] k a h = cc
among-contains columns (j ∷ ks) k a h = elim (Bool-cases (contains columns j)) [
  | inr e ↦ cc (rw e at a)
  | inl e ↦ elim (Bool-cases (str_eq j k)) [
    | inl same ↦ subst (λ x. contains columns x ≡ true) ((eq_iff j k).0 same) e
    | inr other ↦ among-contains columns ks k (rw e at a) (rw other at h)
  ]
]

-- A row whose keys are distinct columns keeps each of its cells in the CSV.
pub csv_row-keeps :
    {F : Type 0} (row : Dict (Cell F)) {column : String} {cell : Cell F}
    → distinct (keys row) ≡ true
    → among aggregate_columns (keys row) ≡ true
    → Memᴰ (column, cell) row
    → get (csv_row row) column ≡ some cell
unfolding csv_row
csv_row-keeps row {column} {cell} d a m =
    get-map (λ c. or_default (text "") (get row c)) aggregate_columns column
      (among-contains aggregate_columns (keys row) column a (mem-contains row m))
    ∙ ap (λ o. some (or_default (text "") o)) (get_of_mem row (distinct-NodupKeys (keys row) d) m)

module _ {F : Type 0} ⦃fl : Floats F⦄ where
  -- The CSV row of a base row has the aggregate columns in their order, which are distinct
  -- names, and every cell of the base row in the column of its key.
  pub csv_row-base_row :
      (run : MatrixRun F) (status error : String) (row : Dict (Cell F))
      → base_row run status error ≡ ok row
      → (keys (csv_row row) ≡ aggregate_columns)
        × NodupKeys aggregate_columns
        × All (λ (column, cell). get (csv_row row) column ≡ some cell) row
  unfolding base_row csv_row
  csv_row-base_row run status error row h =
      let (capacity, e1, h1) = >>=-eq-ok (cache_capacity_bytes run) _ h in
      let (bandwidth, e2, h2) = >>=-eq-ok (memory_bandwidth_bytes_per_time run) _ h1 in
      let (base, e3, h3) = >>=-eq-ok (memory_base_latency run) _ h2 in
      let (link, e4, h4) = >>=-eq-ok (one_way_link_latency run) _ h3 in
      let whole : base_cells run status error capacity bandwidth base link ≡ row = cc in
      (
        refl,
        distinct-NodupKeys aggregate_columns refl,
        All-of_Memᴰ _ row λ (column, cell) m.
            csv_row-keeps row (subst (λ r. distinct (keys r) ≡ true) whole refl)
              (subst (λ r. among aggregate_columns (keys r) ≡ true) whole refl) m,
      )
