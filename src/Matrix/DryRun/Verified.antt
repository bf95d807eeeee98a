-- ===== src/Matrix/DryRun/Verified.antt =====
-- When `verify_dry_run` accepts a dry run (scripts/run_matrix.py).
use dm_simulator.Base.{
  both, ℕ, String, ◌≡◌, ◌∙◌, ◌↔◌, refl, sym, ap, Bool, true, false, not, Option, none, some, List,
  [], ◌∷◌, map, length, All, ok, Exception, >>=-eq-ok, >>-eq-ok, raise_if, each, each-eq-ok_iff,
  contains, str_eq, eq_iff, ◌==◌, arith,
}
use dm_simulator.Base.Float.{Floats}
use dm_simulator.Base.Dict.{Dict, get, NodupKeys}
use dm_simulator.Base.FilePath.{FilePath, show_path}
use dm_simulator.Base.Sets.{NodupKeys_iff, subset, subset_iff}
use dm_simulator.Matrix.Preset.{MatrixRun}
use dm_simulator.Matrix.Rows.{Cell, aggregate_columns}
use dm_simulator.Matrix.DryRun.{check_config}
use dm_simulator.Matrix.DryRun.Verify.{
  Table, same_texts, row_policy, missing_paths, check_missing, read_text, read_table, check_configs,
  check_weights, verify_dry_run,
}

-- A check that does not raise has failed its test.
pub raise_if-eq-ok : (test : Bool) (e : Exception) → raise_if test e ≡ ok tt → test ≡ false
raise_if-eq-ok false e h = refl
raise_if-eq-ok true e h = cc

not-eq-false : (b : Bool) → not b ≡ false → b ≡ true
not-eq-false true h = refl
not-eq-false false h = cc

pub same_texts_iff : (ss ts : List String) → (same_texts ss ts ≡ true) ↔ (ss ≡ ts)
same_texts_iff [] [] = (λ h. refl, λ h. refl)
same_texts_iff [] (t ∷ ts) = (λ h. cc, λ h. cc)
same_texts_iff (s ∷ ss) [] = (λ h. cc, λ h. cc)
same_texts_iff (s ∷ ss) (t ∷ ts) = (
  λ h.
      let (first, rest) = both (str_eq s t) (same_texts ss ts) h in
      let e = (eq_iff s t).0 first in let es = (same_texts_iff ss ts).0 rest in cc,
  λ h.
      let e : s ≡ t = cc in
      let es : ss ≡ ts = cc in rw ((eq_iff s t).1 e) ((same_texts_iff ss ts).1 es),
)

eqb_sound : (a b : ℕ) → (a == b) ≡ true → a ≡ b
eqb_sound a b h = ground (arith, h)

eqb_complete : (a b : ℕ) → a ≡ b → (a == b) ≡ true
eqb_complete a b h = ground (arith, h)

missing-none :
    (files : Dict String) (ps : List FilePath)
    → All (λ p. (t : String) × (get files (show_path p) ≡ some t)) ps
    → missing_paths files ps ≡ []
missing-none files [] h = refl
missing-none files (p ∷ ps) ((t, e), h) = rw e (missing-none files ps h)

module _ {F : Type 0} ⦃fl : Floats F⦄ where
  -- The config of a run is there, and passes its checks.
  abbrev pub IsChecked : Dict String → MatrixRun F → Type 0
  IsChecked files run =
      (t : String) × (get files (show_path run.config_path) ≡ some t) × (check_config run t ≡ ok tt)

  check_configs_sound :
      (files : Dict String) (runs : List (MatrixRun F))
      → check_configs files runs ≡ ok tt
      → All (IsChecked files) runs
  unfolding check_configs
  check_configs_sound files [] h = tt
  check_configs_sound files (run ∷ runs) h =
      let (t, e, h1) = >>=-eq-ok (read_text (get files (show_path run.config_path))) _ h in
      let (checked, rest) = >>-eq-ok (check_config run t) (check_configs files runs) h1 in
      (
        (t, present (get files (show_path run.config_path)) t e, checked),
        check_configs_sound files runs rest,
      )
    where
      present : (found : Option String) (t : String) → read_text found ≡ ok t → found ≡ some t
      present none t e = cc
      present (some s) t e = let same : s ≡ t = cc in ap some same

  check_configs_complete :
      (files : Dict String) (runs : List (MatrixRun F))
      → All (IsChecked files) runs
      → check_configs files runs ≡ ok tt
  unfolding check_configs
  check_configs_complete files [] h = refl
  check_configs_complete files (run ∷ runs) ((t, e, checked), h) =
      rw (e, checked) (check_configs_complete files runs h)

  All-present :
      (files : Dict String) (runs : List (MatrixRun F))
      → All (IsChecked files) runs
      → All
          (λ p. (t : String) × (get files (show_path p) ≡ some t))
          (map (λ run. run.config_path) runs)
  All-present files [] h = tt
  All-present files (run ∷ runs) ((t, e, checked), h) = ((t, e), All-present files runs h)

  -- What a dry run must have left: runs with distinct names; rows whose policies are the selected
  -- ones; the configs, with their fields; and the aggregate table with one row for each run.
  pub record IsVerified (files : Dict String) (tables : Dict Table) (runs : List (MatrixRun F))
      (rows : List (Dict (Cell F))) (selected : List String) (path : FilePath) : Type 0 where
    pub names : NodupKeys (map (λ run. run.run_name) runs)
    pub policies :
        (generated : List String) × (map row_policy rows ≡ map ok generated)
        × All (λ p. contains selected p ≡ true) generated
        × All (λ p. contains generated p ≡ true) selected
    pub configs : All (IsChecked files) runs
    pub table :
        (body : Table) × (get tables (show_path path) ≡ some (aggregate_columns ∷ body))
        × (length body ≡ length runs)
    pub weights : check_weights runs selected ≡ ok tt

  module _ (show_names : List String → String) (files : Dict String) (tables : Dict Table)
      (runs : List (MatrixRun F)) (rows : List (Dict (Cell F))) (selected : List String)
      (path : FilePath) where
    verify_dry_run_sound :
        verify_dry_run show_names files tables runs rows selected path ≡ ok tt
        → IsVerified files tables runs rows selected path
    unfolding verify_dry_run
    verify_dry_run_sound h =
        let (e1, h1) = >>-eq-ok (raise_if _ _) _ h in
        let (generated, e2, h2) = >>=-eq-ok (each row_policy rows) _ h1 in
        let (e3, h3) = >>-eq-ok (raise_if _ _) _ h2 in
        let (e4, h4) = >>-eq-ok (check_missing _) _ h3 in
        let (e5, h5) = >>-eq-ok (check_configs files runs) _ h4 in
        let ((header, body), e6, h6) = >>=-eq-ok (read_table (get tables (show_path path))) _ h5 in
        let (e7, h7) = >>-eq-ok (raise_if _ _) _ h6 in
        let (e8, e9) = >>-eq-ok (raise_if _ _) (check_weights runs selected) h7 in
        let (within, covers) =
          both (subset generated selected) _ (not-eq-false _ (raise_if-eq-ok _ _ e3)) in
        record {
          names =
              (NodupKeys_iff _).1 (sym (eqb_sound _ _ (not-eq-false _ (raise_if-eq-ok _ _ e1))));
          policies = (
            generated,
            (each-eq-ok_iff row_policy rows generated).0 e2,
            (subset_iff generated selected).0 within,
            (subset_iff selected generated).0 covers,
          );
          configs = check_configs_sound files runs e5;
          table = (
            body,
            found (get tables (show_path path)) header body e6
                ∙ ap (λ t. some (t ∷ body))
                    ((same_texts_iff header aggregate_columns).0
                      (not-eq-false _ (raise_if-eq-ok _ _ e7))),
            eqb_sound _ _ (not-eq-false _ (raise_if-eq-ok _ _ e8)),
          );
          weights = e9;
        }
      where
        found :
            (t : Option Table) (header : List String) (body : Table)
            → read_table t ≡ ok (header, body)
            → t ≡ some (header ∷ body)
        found none header body e = cc
        found (some []) header body e = cc
        found (some (first ∷ rest)) header body e = cc

    verify_dry_run_complete :
        IsVerified files tables runs rows selected path
        → verify_dry_run show_names files tables runs rows selected path ≡ ok tt
    unfolding verify_dry_run
    verify_dry_run_complete v =
        let (generated, e2, within, covers) = v.policies in
        let (body, e6, count) = v.table in
        rw (
          eqb_complete _ _ (sym ((NodupKeys_iff (map (λ run. run.run_name) runs)).0 v.names)),
          (each-eq-ok_iff row_policy rows generated).1 e2,
          (subset_iff generated selected).1 within,
          (subset_iff selected generated).1 covers,
          missing-none files _ (All-present files runs v.configs),
          check_configs_complete files runs v.configs,
          e6,
          eqb_complete _ _ count,
          v.weights,
        )

    -- A dry run is accepted just when the run names are distinct, the rows' policies are the
    -- selected ones, every config is there and passes its checks, the aggregate table has the
    -- aggregate columns and one row for each run, and the weight profiles pass their check.
    pub verify_dry_run_iff :
        (verify_dry_run show_names files tables runs rows selected path ≡ ok tt)
        ↔ IsVerified files tables runs rows selected path
    verify_dry_run_iff = (verify_dry_run_sound, verify_dry_run_complete)
