-- ===== src/Plots/Reading/Successful.antt =====
-- What `read_aggregate_rows` keeps (scripts/plot_results.py).
use dm_simulator.Base.{
  ◌≡◌, ◌≢◌, ◌∙◌, ◌↔◌, ◌⊎◌, inl, inr, true, eq_iff, Bool-cases, refl, sym, ap, subst, Option, none,
  some, List, [], ◌∷◌, ◌++◌, ok, >>=-eq-ok,
}
use dm_simulator.Base.Dict.{get, insert}
use dm_simulator.Base.FilePath.{FilePath, show_path}
use dm_simulator.Plots.Values.{Value, missing, text, real, count, flag, Row, is_text}
use dm_simulator.Plots.Reading.{
  successful, kept_rows, rows_or_raise, read_paths, require_rows, read_aggregate_rows,
}

module _ {F : Type 0} where
  -- A run that succeeded, or that has no status.
  abbrev pub IsSuccess : Row F → Type 0
  IsSuccess row = (get row "status" ≡ none) ⊎ (get row "status" ≡ some (text "success"))

  -- The rows of a file without those of runs that failed, each with the path of its file.
  abbrev pub IsKept : FilePath → List (Row F) → List (Row F) → Type 0
  IsKept path [] kept = kept ≡ []
  IsKept path (row ∷ rows) kept =
      (rest : List (Row F)) × IsKept path rows rest
      × ((IsSuccess row × (kept ≡ insert row "_source_aggregate" (text (show_path path)) ∷ rest))
          ⊎ ((¬ IsSuccess row) × (kept ≡ rest)))

  -- The rows of some files that exist, in the order of the files.
  abbrev pub IsRead : (FilePath → Option (List (Row F))) → List FilePath → List (Row F) → Type 0
  IsRead read [] rows = rows ≡ []
  IsRead read (path ∷ paths) rows =
      (own kept others : List (Row F)) × (read path ≡ some own)
      × IsKept path own kept
      × IsRead read paths others
      × (rows ≡ kept ++ others)

  is_text-success : (v : Value F) → is_text v "success" ≡ true → v ≡ text "success"
  is_text-success missing h = cc
  is_text-success (text s) h = ap text ((eq_iff s "success").0 h)
  is_text-success (real x) h = cc
  is_text-success (count n) h = cc
  is_text-success (flag b) h = cc

  successful_sound :
      (status : Option (Value F))
      → successful status ≡ true
      → (status ≡ none) ⊎ (status ≡ some (text "success"))
  successful_sound none h = inl refl
  successful_sound (some v) h = inr (ap some (is_text-success v h))

  successful_complete :
      (status : Option (Value F))
      → (status ≡ none) ⊎ (status ≡ some (text "success"))
      → successful status ≡ true
  successful_complete status (inl e) = rw e refl
  successful_complete status (inr e) = rw e refl

  kept_rows-IsKept :
      (path : FilePath) (rows : List (Row F)) → IsKept path rows (kept_rows path rows)
  unfolding kept_rows
  kept_rows-IsKept path [] = refl
  kept_rows-IsKept path (row ∷ rows) = (
    kept_rows path rows,
    kept_rows-IsKept path rows,
    elim (Bool-cases (successful (get row "status"))) [
      | inl e ↦ inl (successful_sound (get row "status") e, rw e refl)
      | inr e ↦ inr (λ h. cc (sym (successful_complete (get row "status") h) ∙ e), rw e refl)
    ],
  )

  IsKept-kept_rows :
      (path : FilePath) (rows kept : List (Row F))
      → IsKept path rows kept
      → kept ≡ kept_rows path rows
  unfolding kept_rows
  IsKept-kept_rows path [] kept h = h
  IsKept-kept_rows path (row ∷ rows) kept (rest, r, inl (success, e)) =
      rw (successful_complete (get row "status") success, sym (IsKept-kept_rows path rows rest r)) e
  IsKept-kept_rows path (row ∷ rows) kept (rest, r, inr (failure, e)) =
      elim (Bool-cases (successful (get row "status"))) [
        | inl h ↦ absurd (failure (successful_sound (get row "status") h))
        | inr h ↦ rw (h, sym (IsKept-kept_rows path rows rest r)) e
      ]

  read_paths_sound :
      (read : FilePath → Option (List (Row F))) (paths : List FilePath) (rows : List (Row F))
      → read_paths read paths ≡ ok rows
      → IsRead read paths rows
  unfolding read_paths
  read_paths_sound read [] rows h = cc
  read_paths_sound read (path ∷ paths) rows h =
      let (kept, e, h') = >>=-eq-ok (rows_or_raise path (read path)) _ h in
      let (others, e', made) = >>=-eq-ok (read_paths read paths) _ h' in
      by_file (read path) refl kept others e (read_paths_sound read paths others e') (cc)
    where
      by_file :
          (file : Option (List (Row F)))
          → read path ≡ file
          → (kept others : List (Row F)) → rows_or_raise path file ≡ ok kept
          → IsRead read paths others
          → rows ≡ kept ++ others
          → IsRead read (path ∷ paths) rows
      by_file none f kept others e r made = cc
      by_file (some own) f kept others e r made =
          let same : kept ≡ kept_rows path own = cc in
          (
            own,
            kept_rows path own,
            others,
            f,
            kept_rows-IsKept path own,
            r,
            made ∙ ap (λ k. k ++ others) same,
          )

  read_paths_complete :
      (read : FilePath → Option (List (Row F))) (paths : List FilePath) (rows : List (Row F))
      → IsRead read paths rows
      → read_paths read paths ≡ ok rows
  unfolding read_paths
  read_paths_complete read [] rows h = ap ok (sym h)
  read_paths_complete read (path ∷ paths) rows (own, kept, others, f, k, r, made) =
      rw (f, read_paths_complete read paths others r, sym (IsKept-kept_rows path own kept k))
        (ap ok (sym made))

  require_rows_sound :
      (rows found : List (Row F)) → require_rows rows ≡ ok found → (rows ≡ found) × (found ≢ [])
  require_rows_sound [] found h = cc
  require_rows_sound (row ∷ rows) found h =
      let e : row ∷ rows ≡ found = cc in (e, λ none_left. cc (e ∙ none_left))

  -- Reading succeeds just when every file exists and some row is left, and it returns the rows of
  -- the files in order, without those whose status is there and is not success, each with the path
  -- of its file in the column _source_aggregate.
  pub read_aggregate_rows_iff :
      (read : FilePath → Option (List (Row F))) (paths : List FilePath) (rows : List (Row F))
      → (read_aggregate_rows read paths ≡ ok rows) ↔ (IsRead read paths rows × (rows ≢ []))
  unfolding read_aggregate_rows
  read_aggregate_rows_iff read paths rows = (
    λ h.
        let (found, e, e') = >>=-eq-ok (read_paths read paths) _ h in
        let (same, some_left) = require_rows_sound found rows e' in
        (subst (IsRead read paths) same (read_paths_sound read paths found e), some_left),
    λ (r, some_left). rw (read_paths_complete read paths rows r) (required rows some_left),
  )
    where
      required : (rows : List (Row F)) → rows ≢ [] → require_rows rows ≡ ok rows
      required [] h = absurd (h refl)
      required (row ∷ rows) h = refl
