-- ===== src/Matrix/Parse/Names.antt =====
-- The parsers of names: policies, levels and modes (scripts/run_matrix.py).
use dm_simulator.Base.{
  ℕ, String, true, ◌≡◌, ◌≢◌, ◌↔◌, refl, sym, ap, subst, List, [], ◌∷◌, Result, ok, ◌>>=◌, ◌>>◌,
  >>-eq-ok, contains, arith, All,
}
use dm_simulator.Base.Dict.{Dict, keys}
use dm_simulator.Matrix.Policies.{policies}
use dm_simulator.Matrix.Parse.{
  parse_csv_list, parse_policies, parse_levels, invalid_of, at_least_one, reject, parse_overlaps,
  parse_object_size_modes, parse_workload_issue_modes, overlap_names, object_size_mode_names,
  workload_issue_mode_names,
}
use dm_simulator.Matrix.Parse.Items.{at_least_one_iff}

-- Names from a list of allowed ones.
abbrev pub AllIn : List String → List String → Type 0
AllIn allowed items = All (λ item. contains allowed item ≡ true) items

reject-nil : (xs : List String) (before after : String) → reject xs before after ≡ ok tt → xs ≡ []
reject-nil [] before after h = refl
reject-nil (x ∷ xs) before after h = cc

invalid_of-nil : (allowed items : List String) → invalid_of allowed items ≡ [] → AllIn allowed items
invalid_of-nil allowed [] h = tt
invalid_of-nil allowed (item ∷ items) h = ground (arith, invalid_of-nil allowed items)

invalid_of-AllIn :
    (allowed items : List String) → AllIn allowed items → invalid_of allowed items ≡ []
invalid_of-AllIn allowed [] h = refl
invalid_of-AllIn allowed (item ∷ items) (h, hs) = rw (h, invalid_of-AllIn allowed items hs)

reject_then :
    {A : Type 0} (allowed items : List String) (before after : String) (r : Result A) {a : A}
    → (reject (invalid_of allowed items) before after >> r) ≡ ok a
    → AllIn allowed items × (r ≡ ok a)
reject_then allowed items before after r h =
    let (e, h') = >>-eq-ok (reject (invalid_of allowed items) before after) r h in
    (invalid_of-nil allowed items (reject-nil _ before after e), h')

-- The parsers of names test the items, and then that there is one.
choice_iff :
    (allowed items : List String) (before after message : String) (ys : List String)
    → ((reject (invalid_of allowed items) before after >> at_least_one items message) ≡ ok ys)
      ↔ ((ys ≡ items) × AllIn allowed ys × (ys ≢ []))
choice_iff allowed items before after message ys = (
  λ h.
      let (a, h') = reject_then allowed items before after (at_least_one items message) h in
      let (e, n) = (at_least_one_iff (ok items) message ys).0 h' in
      let same : items ≡ ys = cc in (sym same, rw same at a, n),
  λ (e, a, n).
      rw (invalid_of-AllIn allowed items (rw e at a))
        ((at_least_one_iff (ok items) message ys).1 (ap ok (sym e), n)),
)

-- `parse_levels` succeeds just when there is an item and every item is a key of the table; it
-- returns the items.
pub parse_levels_iff :
    (value : String) (table : Dict ℕ) (label : String) (ys : List String)
    → (parse_levels value table label ≡ ok ys)
      ↔ ((ys ≡ parse_csv_list value) × AllIn (keys table) ys × (ys ≢ []))
unfolding parse_levels
parse_levels_iff value table label ys = choice_iff (keys table) (parse_csv_list value) _ _ _ ys

-- The parsers of overlaps, of object-size modes and of issue modes succeed just when there is an
-- item and every item is one of their fixed names; they return the items.
pub parse_modes_iff :
    (value : String) (ys : List String)
    → ((parse_overlaps value ≡ ok ys)
        ↔ ((ys ≡ parse_csv_list value) × AllIn overlap_names ys × (ys ≢ [])))
      × ((parse_object_size_modes value ≡ ok ys)
          ↔ ((ys ≡ parse_csv_list value) × AllIn object_size_mode_names ys × (ys ≢ [])))
      × ((parse_workload_issue_modes value ≡ ok ys)
          ↔ ((ys ≡ parse_csv_list value) × AllIn workload_issue_mode_names ys × (ys ≢ [])))
unfolding parse_overlaps parse_object_size_modes parse_workload_issue_modes
parse_modes_iff value ys = (
  choice_iff overlap_names (parse_csv_list value) _ _ _ ys,
  choice_iff object_size_mode_names (parse_csv_list value) _ _ _ ys,
  choice_iff workload_issue_mode_names (parse_csv_list value) _ _ _ ys,
)

policies-to :
    (items : List String) (m before after : String) (ys : List String)
    → (do
      selected ← at_least_one items m
      reject (invalid_of policies selected) before after
      ok selected)
      ≡ ok ys
    → (ys ≡ items) × AllIn policies ys × (ys ≢ [])
policies-to [] m before after ys h = cc
policies-to (x ∷ xs) m before after ys h =
    let (a, e) = reject_then policies (x ∷ xs) before after (ok (x ∷ xs)) h in
    let same : x ∷ xs ≡ ys = cc in (sym same, subst (AllIn policies) same a, λ n. cc)

policies-from :
    (items : List String) (m before after : String)
    → AllIn policies items
    → items ≢ []
    → (do
      selected ← at_least_one items m
      reject (invalid_of policies selected) before after
      ok selected)
      ≡ ok items
policies-from [] m before after a n = absurd (n refl)
policies-from (x ∷ xs) m before after a n = rw (invalid_of-AllIn policies (x ∷ xs) a)

-- `parse_policies` succeeds just when there is an item and every item is a known policy; it
-- returns the items.
pub parse_policies_iff :
    (value : String) (ys : List String)
    → (parse_policies value ≡ ok ys) ↔ ((ys ≡ parse_csv_list value) × AllIn policies ys × (ys ≢ []))
unfolding parse_policies
parse_policies_iff value ys = (
  policies-to (parse_csv_list value) _ _ _ ys,
  λ (e, a, n). rw e (policies-from (parse_csv_list value) _ _ _ (rw e at a) (rw e at n)),
)
