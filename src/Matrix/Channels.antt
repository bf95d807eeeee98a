-- ===== src/Matrix/Channels.antt =====
-- `aggregate_channel_contention` (scripts/run_matrix.py): the queue pressure of the channels.
use dm_simulator.Base.{
  String, Option, none, some, List, [], ◌∷◌, ◌++◌, length, Result, ok, err, key_error, type_error,
  value_error, zero_division_error, ◌>>=◌, if◌then◌else◌,
}
use dm_simulator.Base.Int.{ℤ, pos, max_ℤ}
use dm_simulator.Base.Float.{Floats, Arithmetic, nought, greatest}
use dm_simulator.Base.Dict.{Dict, get}
use dm_simulator.Matrix.Rows.{Cell, text, whole, real}
use dm_simulator.Matrix.Totals.{CsvRow, column_int}

-- The totals of the loop, and the list `channel_waits`. A maximum of `none` is the integer 0 that
-- the loop starts with.
pub record ChannelTotals (F : Type 0) : Type 0 where
  pub peak_queue_depth : ℤ
  pub max_queue_wait : Option F
  pub waits : List F

module _ {F : Type 0} ⦃fl : Floats F⦄ ⦃ar : Arithmetic F⦄ where
  -- `x / y`
  unfoldable pub divide : F → F → Result F
  divide x y = if fl.eq y nought then err zero_division_error else ok (ar.over x y)

  abbrev pub float_of : Option F → Result F
  float_of none = err value_error
  float_of (some x) = ok x

  -- `float(row[column])`
  abbrev pub float_cell : String → Option (Option String) → Result F
  float_cell column none = err (key_error column)
  float_cell column (some none) = err type_error
  float_cell column (some (some value)) = float_of (fl.of_text value)

  unfoldable pub column_float : String → CsvRow → Result F
  column_float column row = float_cell column (get row column)

  -- `max(current, x)`
  unfoldable pub max_wait : Option F → F → Option F
  max_wait none x = if fl.lt nought x then some x else none
  max_wait (some m) x = if fl.lt m x then some x else some m

  -- One round of the loop; the waits are appended.
  unfoldable pub add_channel : ChannelTotals F → CsvRow → Result (ChannelTotals F)
  add_channel totals row = do
    total_wait ← column_float "total_queue_wait" row
    depth ← column_int "max_queue_depth" row
    ok (record {
      peak_queue_depth = max_ℤ totals.peak_queue_depth depth;
      max_queue_wait = max_wait totals.max_queue_wait total_wait;
      waits = totals.waits ++ (total_wait ∷ []);
    })

  unfoldable pub add_channels : ChannelTotals F → List CsvRow → Result (ChannelTotals F)
  add_channels totals [] = ok totals
  add_channels totals (row ∷ rows) = do next ← add_channel totals row; add_channels next rows

  -- The greatest wait in averages, if there is a wait at all.
  unfoldable pub imbalance : List F → Result F
  imbalance [] = ok nought
  imbalance (wait ∷ waits) =
      if fl.lt nought (ar.sum (wait ∷ waits))
      then (do
        average_wait ← divide (ar.sum (wait ∷ waits)) (ar.of_ℕ (length (wait ∷ waits)))
        divide (greatest wait waits) average_wait)
      else ok nought

  abbrev pub wait_cell : Option F → Cell F
  wait_cell none = whole (pos 0)
  wait_cell (some x) = real x

  abbrev pub channel_cells : ChannelTotals F → F → Dict (Cell F)
  channel_cells totals share =
      ("peak_memory_channel_queue_depth", whole totals.peak_queue_depth)
      ∷ ("max_channel_total_queue_wait", wait_cell totals.max_queue_wait)
      ∷ ("channel_queue_imbalance", real share)
      ∷ []

  abbrev pub blank_channel_cells : Dict (Cell F)
  blank_channel_cells =
      ("peak_memory_channel_queue_depth", text "")
      ∷ ("max_channel_total_queue_wait", text "")
      ∷ ("channel_queue_imbalance", text "")
      ∷ []

  abbrev pub no_channels : ChannelTotals F
  no_channels = record { peak_queue_depth = pos 0; max_queue_wait = none; waits = [] }

  -- The argument holds the rows of contention_by_channel.csv, or `none` where there is no such file.
  unfoldable pub aggregate_channel_contention : Option (List CsvRow) → Result (Dict (Cell F))
  aggregate_channel_contention none = ok blank_channel_cells
  aggregate_channel_contention (some rows) = do
    totals ← add_channels no_channels rows
    share ← imbalance totals.waits
    ok (channel_cells totals share)
