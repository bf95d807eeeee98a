-- ===== src/Plots/Comparison/Baseline.antt =====
-- The baselines of `build_policy_comparison` (scripts/plot_results.py).
use dm_simulator.Base.{
  both, String, ◌≡◌, ◌∙◌, refl, sym, ap, subst, Bool, true, false, Option, none, some, List, [],
  ◌∷◌, All, map, eq_iff, Bool-cases, inl, inr, if◌then◌else◌,
}
use dm_simulator.Base.Float.{Floats, Arithmetic}
use dm_simulator.Plots.Values.{Value, missing, text, real, count, flag, Row, cell, is_text}
use dm_simulator.Plots.Comparison.{
  Key, same_value, same_key, find_key, insert_key, group_key, baseline_by_group, comparison_row,
  build_policy_comparison,
}

-- What a CSV file gives: a text, or nothing in a short line.
abbrev pub plain : {F : Type 0} → Value F → Bool
plain missing = true
plain (text s) = true
plain _ = false

abbrev pub Plain : {F : Type 0} → Key F → Type 0
Plain k = All (λ v. plain v ≡ true) k

module _ {F : Type 0} ⦃fl : Floats F⦄ where
  same_value_sound : (v w : Value F) → plain v ≡ true → same_value v w ≡ true → v ≡ w
  same_value_sound missing missing p h = refl
  same_value_sound (text s) (text t) p h = ap text ((eq_iff s t).0 h)
  same_value_sound missing (text t) p h = cc
  same_value_sound missing (real t) p h = cc
  same_value_sound missing (count t) p h = cc
  same_value_sound missing (flag t) p h = cc
  same_value_sound (text s) missing p h = cc
  same_value_sound (text s) (real t) p h = cc
  same_value_sound (text s) (count t) p h = cc
  same_value_sound (text s) (flag t) p h = cc
  same_value_sound (real x) w p h = cc
  same_value_sound (count x) w p h = cc
  same_value_sound (flag x) w p h = cc

  same_value_refl : (v : Value F) → plain v ≡ true → same_value v v ≡ true
  same_value_refl missing p = refl
  same_value_refl (text s) p = (eq_iff s s).1 refl
  same_value_refl (real x) p = cc
  same_value_refl (count x) p = cc
  same_value_refl (flag x) p = cc

  pub same_key_sound : (j k : Key F) → Plain j → same_key j k ≡ true → j ≡ k
  unfolding same_key
  same_key_sound [] [] p h = refl
  same_key_sound [] (w ∷ ws) p h = cc
  same_key_sound (v ∷ vs) [] p h = cc
  same_key_sound (v ∷ vs) (w ∷ ws) (p, ps) h =
      let (first, rest) = both (same_value v w) (same_key vs ws) h in
      let e = same_value_sound v w p first in let es = same_key_sound vs ws ps rest in cc

  pub same_key_refl : (k : Key F) → Plain k → same_key k k ≡ true
  unfolding same_key
  same_key_refl [] p = refl
  same_key_refl (v ∷ vs) (p, ps) = rw (same_value_refl v p) (same_key_refl vs ps)

  module _ {A : Type 0} where
    -- The dict has the new value at its key, and what it had at the others.
    pub find_key-insert_key :
        (d : List (Key F × A)) (j k : Key F) (a : A)
        → Plain j
        → All (λ (i, _). Plain i) d
        → find_key k (insert_key d j a) ≡ (if same_key j k then some a else find_key k d)
    unfolding find_key insert_key
    find_key-insert_key [] j k a p ps = refl
    find_key-insert_key ((i, b) ∷ d) j k a p (q, qs) = elim (Bool-cases (same_key i j)) [
      | inl e ↦ rw (e, ap (λ x. same_key x k) (same_key_sound i j q e)) (absorb (same_key j k))
      | inr e ↦ elim (Bool-cases (same_key i k)) [
        | inr f ↦ rw (e, f) (find_key-insert_key d j k a p qs)
        | inl f ↦ elim (Bool-cases (same_key j k)) [
          | inr g ↦ rw (e, f, g) refl
          | inl g ↦
              let same : i ≡ j = same_key_sound i k q f ∙ sym (same_key_sound j k p g) in
              cc (subst (λ x. same_key i x ≡ true) same (same_key_refl i q))
        ]
      ]
    ]
      where
        absorb :
            (t : Bool)
            → (if t then some a else find_key k d)
              ≡ (if t then some a else (if t then some b else find_key k d))
        absorb true = refl
        absorb false = refl

    pub insert_key-Plain :
        (d : List (Key F × A)) (j : Key F) (a : A)
        → Plain j
        → All (λ (i, _). Plain i) d
        → All (λ (i, _). Plain i) (insert_key d j a)
    unfolding insert_key
    insert_key-Plain [] j a p ps = (p, tt)
    insert_key-Plain ((i, b) ∷ d) j a p (q, qs) = elim (Bool-cases (same_key i j)) [
      | inl e ↦ rw e (q, qs)
      | inr e ↦ rw e (q, insert_key-Plain d j a p qs)
    ]

  -- The last of some rows that has the baseline policy and a given key.
  unfoldable pub last_match : String → Key F → Option (Row F) → List (Row F) → Option (Row F)
  last_match policy k found [] = found
  last_match policy k found (row ∷ rows) =
      last_match policy k
        (if is_text (cell row "policy") policy
          then (if same_key (group_key row) k then some row else found)
          else found)
        rows

  baseline_by_group-find :
      (policy : String) (k : Key F) (d : List (Key F × Row F)) (rows : List (Row F))
      → All (λ (i, _). Plain i) d
      → All (λ row. Plain (group_key row)) rows
      → find_key k (baseline_by_group policy d rows) ≡ last_match policy k (find_key k d) rows
  unfolding baseline_by_group last_match
  baseline_by_group-find policy k d [] p ps = refl
  baseline_by_group-find policy k d (row ∷ rows) p (q, ps) =
      elim (Bool-cases (is_text (cell row "policy") policy)) [
        | inr e ↦ rw e (baseline_by_group-find policy k d rows p ps)
        | inl e ↦ rw e (
            baseline_by_group-find policy k (insert_key d (group_key row) row) rows
              (insert_key-Plain d (group_key row) row q p) ps
            ∙ ap (λ found. last_match policy k found rows)
                (find_key-insert_key d (group_key row) k row q p))
      ]

module _ {F : Type 0} ⦃fl : Floats F⦄ ⦃ar : Arithmetic F⦄ where
  -- The comparison has one row for each run, in order: the run against the last row of the
  -- baseline policy that agrees with it in every group column, if the group columns hold texts.
  pub build_policy_comparison-last_match :
      (rows : List (Row F)) (baseline_policy : String) (tie_threshold : F)
      → All (λ row. Plain (group_key row)) rows
      → build_policy_comparison rows baseline_policy tie_threshold
        ≡ map
            (λ row.
              comparison_row baseline_policy tie_threshold row
                (last_match baseline_policy (group_key row) none rows))
            rows
  unfolding build_policy_comparison find_key
  build_policy_comparison-last_match rows baseline_policy tie_threshold p = over rows
    where
      over :
          (some_rows : List (Row F))
          → map
              (λ row.
                comparison_row baseline_policy tie_threshold row
                  (find_key (group_key row) (baseline_by_group baseline_policy [] rows)))
              some_rows
            ≡ map
                (λ row.
                  comparison_row baseline_policy tie_threshold row
                    (last_match baseline_policy (group_key row) none rows))
                some_rows
      over [] = refl
      over (row ∷ others) =
          rw (baseline_by_group-find baseline_policy (group_key row) [] rows tt p, over others) refl
