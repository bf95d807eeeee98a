-- ===== src/Plots/Modes/Alike.antt =====
-- The mode of a report does not hang on the order of the presets (scripts/plot_results.py).
use dm_simulator.Base.{
  String, ◌≡◌, ◌∙◌, refl, sym, ap, Bool, true, false, not, ◌&&◌, List, [], ◌∷◌, contains, str_eq,
  eq_iff, Bool-cases, inl, inr, if◌then◌else◌,
}
use dm_simulator.Base.Dict.{NodupKeys}
use dm_simulator.Plots.Columns.{final_report_presets}
use dm_simulator.Plots.Modes.{any_of, all_of, single_mode, presets_mode}

-- What holds of some member, and of all, does not hang on the order of the members.
contains-any_of :
    (test : String → Bool) (xs : List String) (x : String)
    → contains xs x ≡ true
    → test x ≡ true
    → any_of test xs ≡ true
contains-any_of test [] x m t = cc
contains-any_of test (y ∷ xs) x m t = elim (Bool-cases (str_eq y x)) [
  | inl e ↦ rw (ap test ((eq_iff y x).0 e) ∙ t) refl
  | inr e ↦ elim (Bool-cases (test y)) [
    | inl u ↦ rw u refl
    | inr u ↦ rw u (contains-any_of test xs x (rw e at m) t)
  ]
]

any_of_mono :
    (test : String → Bool) (xs ys : List String)
    → ((x : String) → contains xs x ≡ true → contains ys x ≡ true)
    → any_of test xs ≡ true
    → any_of test ys ≡ true
any_of_mono test [] ys sub h = cc
any_of_mono test (x ∷ xs) ys sub h = elim (Bool-cases (test x)) [
  | inl t ↦ contains-any_of test ys x (sub x (rw ((eq_iff x x).1 refl) refl)) t
  | inr t ↦ any_of_mono test xs ys (λ z m. sub z (later z m)) (rw t at h)
]
  where
    later : (z : String) → contains xs z ≡ true → contains (x ∷ xs) z ≡ true
    later z m = elim (Bool-cases (str_eq x z)) [ inl e ↦ rw e refl | inr e ↦ rw (e, m) refl ]

same-true : (a b : Bool) → (a ≡ true → b ≡ true) → (b ≡ true → a ≡ true) → a ≡ b
same-true true b f g = sym (f refl)
same-true false true f g = g refl
same-true false false f g = refl

abbrev pub Alike : List String → List String → Type 0
Alike xs ys = (x : String) → contains xs x ≡ contains ys x

any_of-Alike :
    (test : String → Bool) (xs ys : List String) → Alike xs ys → any_of test xs ≡ any_of test ys
any_of-Alike test xs ys h =
    same-true (any_of test xs) (any_of test ys) (any_of_mono test xs ys (λ x m. sym (h x) ∙ m))
      (any_of_mono test ys xs (λ x m. h x ∙ m))

all_of-any_of :
    (test : String → Bool) (xs : List String) → all_of test xs ≡ not (any_of (λ x. not (test x)) xs)
all_of-any_of test [] = refl
all_of-any_of test (x ∷ xs) = elim (Bool-cases (test x)) [
  | inl t ↦ rw t (all_of-any_of test xs)
  | inr t ↦ rw t refl
]

-- The only member of a set without repetition.
member-single : (x y : String) → contains (x ∷ []) y ≡ true → x ≡ y
member-single x y e = elim (Bool-cases (str_eq x y)) [
  | inl t ↦ (eq_iff x y).0 t
  | inr t ↦ cc (rw t at e)
]

head-contains : (y : String) (ys : List String) → contains (y ∷ ys) y ≡ true
head-contains y ys = rw ((eq_iff y y).1 refl) refl

next-contains : (y z : String) (ys : List String) → contains (y ∷ z ∷ ys) z ≡ true
next-contains y z ys = elim (Bool-cases (str_eq y z)) [
  | inl e ↦ rw e refl
  | inr e ↦ rw (e, (eq_iff z z).1 refl) refl
]

single-Alike : (x : String) (ys : List String) → NodupKeys ys → Alike (x ∷ []) ys → ys ≡ x ∷ []
single-Alike x [] n h = cc (sym (head-contains x []) ∙ h x)
single-Alike x (y ∷ []) n h = ap (λ z. z ∷ []) (sym (member-single x y (h y ∙ head-contains y [])))
single-Alike x (y ∷ z ∷ ys) (fresh, n) h =
    let own = member-single x y (h y ∙ head-contains y (z ∷ ys)) in
    let next = member-single x z (h z ∙ next-contains y z ys) in
    cc (sym (head-contains z ys) ∙ ap (contains (z ∷ ys)) (sym next ∙ own) ∙ fresh)

single_mode-Alike :
    (xs ys : List String)
    → NodupKeys xs
    → NodupKeys ys
    → Alike xs ys
    → single_mode xs ≡ single_mode ys
single_mode-Alike (x ∷ []) ys m n h = ap single_mode (sym (single-Alike x ys n h))
single_mode-Alike [] [] m n h = refl
single_mode-Alike [] (y ∷ ys) m n h = cc (h y ∙ head-contains y ys)
single_mode-Alike (x ∷ x' ∷ xs) [] m n h = cc (sym (head-contains x (x' ∷ xs)) ∙ h x)
single_mode-Alike (x ∷ x' ∷ xs) (y ∷ []) m n h =
    sym (ap single_mode (sym (single-Alike y (x ∷ x' ∷ xs) m (λ z. sym (h z)))))
single_mode-Alike (x ∷ x' ∷ xs) (y ∷ y' ∷ ys) m n h = refl

pub presets_mode-Alike :
    (xs ys : List String)
    → NodupKeys xs
    → NodupKeys ys
    → Alike xs ys
    → presets_mode xs ≡ presets_mode ys
unfolding presets_mode
presets_mode-Alike xs ys m n h =
    let final = contains final_report_presets in
    let allowed = contains ("eval_bursty_calibration" ∷ final_report_presets) in
    ap (λ s. if any_of final xs && all_of allowed xs then "final_report" else s)
      (single_mode-Alike xs ys m n h)
    ∙ ap (λ b. if b && all_of allowed xs then "final_report" else single_mode ys)
        (any_of-Alike final xs ys h)
    ∙ ap (λ b. if any_of final ys && b then "final_report" else single_mode ys)
        (all_of-any_of allowed xs
          ∙ ap not (any_of-Alike (λ x. not (allowed x)) xs ys h)
          ∙ sym (all_of-any_of allowed ys))
