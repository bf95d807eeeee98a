-- ===== src/Matrix/Totals/Columns.antt =====
-- The columns that `aggregate_contention` totals (scripts/run_matrix.py).
use dm_simulator.Base.{
  ◌≡◌, ◌↔◌, ◌∙◌, refl, sym, ap, subst, some, List, [], ◌∷◌, ok, >>=-eq-ok, each, each-cons,
  cons-eq-ok,
}
use dm_simulator.Base.Int.{ℤ, ◌+ℤ◌, max_ℤ}
use dm_simulator.Base.Dict.{Dict}
use dm_simulator.Matrix.Rows.{Cell}
use dm_simulator.Matrix.Totals.{
  CsvRow, ContentionTotals, column_int, no_totals, add_row, add_rows, totals_cells,
  aggregate_contention,
}

-- `sum(xs, start)` and `max([m] + xs)`.
abbrev pub sum : ℤ → List ℤ → ℤ
sum start [] = start
sum start (x ∷ xs) = sum (start +ℤ x) xs

abbrev pub largest : ℤ → List ℤ → ℤ
largest m [] = m
largest m (x ∷ xs) = largest (max_ℤ m x) xs

-- The four columns are integers throughout, and the totals are their sums and their maximum.
pub record HasTotals (start : ContentionTotals) (rows : List CsvRow) (totals : ContentionTotals)
    : Type 0 where
  pub accesses : List ℤ
  pub waits : List ℤ
  pub services : List ℤ
  pub depths : List ℤ
  pub accesses_eq : each (column_int "remote_accesses") rows ≡ ok accesses
  pub waits_eq : each (column_int "total_queue_wait") rows ≡ ok waits
  pub services_eq : each (column_int "total_remote_service_time") rows ≡ ok services
  pub depths_eq : each (column_int "max_observed_queue_depth") rows ≡ ok depths
  pub total_accesses : totals.total_remote_accesses ≡ sum start.total_remote_accesses accesses
  pub total_wait : totals.total_queue_wait ≡ sum start.total_queue_wait waits
  pub total_service :
      totals.total_remote_service_time ≡ sum start.total_remote_service_time services
  pub max_depth : totals.max_observed_queue_depth ≡ largest start.max_observed_queue_depth depths

-- The totals after a row with these four numbers.
abbrev plus : ContentionTotals → ℤ → ℤ → ℤ → ℤ → ContentionTotals
plus t a w s d = record {
  total_remote_accesses = t.total_remote_accesses +ℤ a;
  total_queue_wait = t.total_queue_wait +ℤ w;
  total_remote_service_time = t.total_remote_service_time +ℤ s;
  max_observed_queue_depth = max_ℤ t.max_observed_queue_depth d;
}

-- A row that the loop accepts.
record IsRead (row : CsvRow) (start next : ContentionTotals) : Type 0 where
  pub access : ℤ
  pub wait : ℤ
  pub service : ℤ
  pub depth : ℤ
  pub access_eq : column_int "remote_accesses" row ≡ ok access
  pub wait_eq : column_int "total_queue_wait" row ≡ ok wait
  pub service_eq : column_int "total_remote_service_time" row ≡ ok service
  pub depth_eq : column_int "max_observed_queue_depth" row ≡ ok depth
  pub next_eq : plus start access wait service depth ≡ next

add_row-IsRead :
    (row : CsvRow) (start next : ContentionTotals)
    → add_row start row ≡ ok next
    → IsRead row start next
unfolding add_row
add_row-IsRead row start next h =
    let (a, ea, h1) = >>=-eq-ok (column_int "remote_accesses" row) _ h in
    let (w, ew, h2) = >>=-eq-ok (column_int "total_queue_wait" row) _ h1 in
    let (s, es, h3) = >>=-eq-ok (column_int "total_remote_service_time" row) _ h2 in
    let (d, ed, h4) = >>=-eq-ok (column_int "max_observed_queue_depth" row) _ h3 in
    record {
      access = a;
      wait = w;
      service = s;
      depth = d;
      access_eq = ea;
      wait_eq = ew;
      service_eq = es;
      depth_eq = ed;
      next_eq = cc h4;
    }

HasTotals-cons :
    (row : CsvRow) (rows : List CsvRow) (start next totals : ContentionTotals)
    → (r : IsRead row start next)
    → HasTotals (plus start r.access r.wait r.service r.depth) rows totals
    → HasTotals start (row ∷ rows) totals
HasTotals-cons row rows start next totals r rest = record {
  accesses = r.access ∷ rest.accesses;
  waits = r.wait ∷ rest.waits;
  services = r.service ∷ rest.services;
  depths = r.depth ∷ rest.depths;
  accesses_eq = each-cons _ row rows r.access_eq rest.accesses_eq;
  waits_eq = each-cons _ row rows r.wait_eq rest.waits_eq;
  services_eq = each-cons _ row rows r.service_eq rest.services_eq;
  depths_eq = each-cons _ row rows r.depth_eq rest.depths_eq;
  total_accesses = rest.total_accesses;
  total_wait = rest.total_wait;
  total_service = rest.total_service;
  max_depth = rest.max_depth;
}

HasTotals-nil : (totals : ContentionTotals) → HasTotals totals [] totals
HasTotals-nil totals = record {
  accesses = [];
  waits = [];
  services = [];
  depths = [];
  accesses_eq = refl;
  waits_eq = refl;
  services_eq = refl;
  depths_eq = refl;
  total_accesses = refl;
  total_wait = refl;
  total_service = refl;
  max_depth = refl;
}

add_rows-HasTotals :
    (rows : List CsvRow) (start totals : ContentionTotals)
    → add_rows start rows ≡ ok totals
    → HasTotals start rows totals
unfolding add_rows
add_rows-HasTotals [] start totals h =
    let same : start ≡ totals = cc in subst (HasTotals start []) same (HasTotals-nil start)
add_rows-HasTotals (row ∷ rows) start totals h =
    let (next, e, h1) = >>=-eq-ok (add_row start row) _ h in
    let r = add_row-IsRead row start next e in
    HasTotals-cons row rows start next totals r (
      subst (λ t. HasTotals t rows totals) (sym r.next_eq) (add_rows-HasTotals rows next totals h1))

same_totals :
    (t u : ContentionTotals)
    → t.total_remote_accesses ≡ u.total_remote_accesses
    → t.total_queue_wait ≡ u.total_queue_wait
    → t.total_remote_service_time ≡ u.total_remote_service_time
    → t.max_observed_queue_depth ≡ u.max_observed_queue_depth
    → t ≡ u
same_totals t u a w s d = cc

HasTotals-add_rows :
    (rows : List CsvRow) (start totals : ContentionTotals)
    → HasTotals start rows totals
    → add_rows start rows ≡ ok totals
unfolding add_rows add_row
HasTotals-add_rows [] start totals h =
    let a : h.accesses ≡ [] = cc h.accesses_eq in
    let w : h.waits ≡ [] = cc h.waits_eq in
    let s : h.services ≡ [] = cc h.services_eq in
    let d : h.depths ≡ [] = cc h.depths_eq in
    ap ok (
      same_totals start totals (sym (h.total_accesses ∙ ap (sum _) a))
        (sym (h.total_wait ∙ ap (sum _) w)) (sym (h.total_service ∙ ap (sum _) s))
        (sym (h.max_depth ∙ ap (largest _) d)))
HasTotals-add_rows (row ∷ rows) start totals h =
    let (a, counts, ea, eas, ha) =
      cons-eq-ok (column_int "remote_accesses" row) _ _ h.accesses_eq in
    let (w, ws, ew, ews, hw) = cons-eq-ok (column_int "total_queue_wait" row) _ _ h.waits_eq in
    let (s, ss, es, ess, hs) =
      cons-eq-ok (column_int "total_remote_service_time" row) _ _ h.services_eq in
    let (d, ds, ed, eds, hd) =
      cons-eq-ok (column_int "max_observed_queue_depth" row) _ _ h.depths_eq in
    rw (ea, ew, es, ed)
      (HasTotals-add_rows rows _ totals (record {
        accesses = counts;
        waits = ws;
        services = ss;
        depths = ds;
        accesses_eq = eas;
        waits_eq = ews;
        services_eq = ess;
        depths_eq = eds;
        total_accesses = h.total_accesses ∙ ap (sum _) ha;
        total_wait = h.total_wait ∙ ap (sum _) hw;
        total_service = h.total_service ∙ ap (sum _) hs;
        max_depth = h.max_depth ∙ ap (largest _) hd;
      }))

-- With a file, `aggregate_contention` succeeds just when every cell of its four columns is an
-- integer, and then returns the columns' sums and, of the depths, the maximum with 0.
pub aggregate_contention_iff :
    (F : Type 0) (rows : List CsvRow) (row : Dict (Cell F))
    → (aggregate_contention (some rows) ≡ ok row) ↔ (
        (totals : ContentionTotals) × HasTotals no_totals rows totals × (row ≡ totals_cells totals))
unfolding aggregate_contention
aggregate_contention_iff F rows row = (
  λ h.
      let (totals, e, h') = >>=-eq-ok (add_rows no_totals rows) _ h in
      let made : row ≡ totals_cells totals = cc h' in
      (totals, add_rows-HasTotals rows no_totals totals e, made),
  λ (totals, has, e). rw (HasTotals-add_rows rows no_totals totals has, e),
)
