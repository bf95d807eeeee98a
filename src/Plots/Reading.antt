-- ===== src/Plots/Reading.antt =====
-- `parse_formats` and `read_aggregate_rows` (scripts/plot_results.py).
pub mod Successful
use dm_simulator.Base.{
  String, ◌<>◌, Bool, true, false, not, Option, none, some, List, [], ◌∷◌, ◌++◌, map, keep, Result,
  ok, err, system_exit, ◌>>=◌, ◌>>◌, contains, if◌then◌else◌,
}
use dm_simulator.Base.Dict.{get, insert}
use dm_simulator.Base.FilePath.{FilePath, show_path}
use dm_simulator.Text.{strip, split_comma, join, nonempty}
use dm_simulator.Plots.Values.{Value, text, Row, is_text}

-- `lower` is `str.lower`.
abbrev pub formats_of : (String → String) → List String → List String
formats_of lower [] = []
formats_of lower (item ∷ items) =
    let rest = formats_of lower items in
    if nonempty (strip item) then lower (strip item) ∷ rest else rest

abbrev pub known_formats : List String
known_formats = "svg" ∷ "png" ∷ "pdf" ∷ []

abbrev pub check_formats : List String → List String → Result (List String)
check_formats [] invalid = err (system_exit "At least one plot format is required")
check_formats (f ∷ formats) [] = ok (f ∷ formats)
check_formats (f ∷ formats) (item ∷ invalid) = err (
    system_exit
      ("Invalid plot format(s): " <> (join ", " (item ∷ invalid) <> ". Expected svg, png, or pdf")))

unfoldable pub parse_formats : (String → String) → String → Result (List String)
parse_formats lower value =
    let formats = formats_of lower (split_comma value) in
    check_formats formats (keep (λ item. not (contains known_formats item)) formats)

-- `row.get("status", "success") == "success"`
abbrev pub successful : {F : Type 0} → Option (Value F) → Bool
successful none = true
successful (some v) = is_text v "success"

-- The rows that are kept of one file.
unfoldable pub kept_rows : {F : Type 0} → FilePath → List (Row F) → List (Row F)
kept_rows path [] = []
kept_rows path (row ∷ rows) =
    let rest = kept_rows path rows in
    if successful (get row "status")
    then insert row "_source_aggregate" (text (show_path path)) ∷ rest
    else rest

abbrev pub rows_or_raise : {F : Type 0} → FilePath → Option (List (Row F)) → Result (List (Row F))
rows_or_raise path none = err (system_exit ("Aggregate file does not exist: " <> show_path path))
rows_or_raise path (some rows) = ok (kept_rows path rows)

-- `read` gives the rows that `csv.DictReader` reads from a file, if it exists.
unfoldable pub read_paths :
    {F : Type 0} → (FilePath → Option (List (Row F))) → List FilePath → Result (List (Row F))
read_paths read [] = ok []
read_paths read (path ∷ paths) = do
  rows ← rows_or_raise path (read path)
  others ← read_paths read paths
  ok (rows ++ others)

abbrev pub require_rows : {F : Type 0} → List (Row F) → Result (List (Row F))
require_rows [] = err (system_exit "No successful rows found in aggregate input")
require_rows (row ∷ rows) = ok (row ∷ rows)

unfoldable pub read_aggregate_rows :
    {F : Type 0} → (FilePath → Option (List (Row F))) → List FilePath → Result (List (Row F))
read_aggregate_rows read paths = do rows ← read_paths read paths; require_rows rows
