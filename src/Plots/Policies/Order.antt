-- ===== src/Plots/Policies/Order.antt =====
-- The policies of `ordered_policies` (scripts/plot_results.py).
use dm_simulator.Base.{
  String, ◌≡◌, ◌∙◌, refl, sym, ap, Bool, true, false, not, ◌&&◌, ◌||◌, List, [], ◌∷◌, ◌++◌, keep,
  contains, str_eq, eq_iff, arith, Bool-cases, inl, inr,
}
use dm_simulator.Base.Dict.{NodupKeys}
use dm_simulator.Base.Sets.{
  dedup, contains-dedup, dedup-NodupKeys, text_le, text_le-total, text_le_trans,
}
use dm_simulator.Base.Sort.{insert_by, sort_by, Sorted, sort_by-Sorted}
use dm_simulator.Plots.Columns.{preferred_policy_order}
use dm_simulator.Plots.Values.{Row}
use dm_simulator.Plots.Policies.{row_policies, order_present, ordered_policies}

contains-append :
    (xs ys : List String) (k : String) → contains (xs ++ ys) k ≡ (contains xs k || contains ys k)
contains-append [] ys k = refl
contains-append (x ∷ xs) ys k = ground (arith, contains-append xs ys k)

contains-keep :
    (f : String → Bool) (xs : List String) (k : String)
    → contains (keep f xs) k ≡ (contains xs k && f k)
contains-keep f [] k = refl
contains-keep f (x ∷ xs) k = elim (Bool-cases (str_eq x k)) [
  | inr e ↦ elim (Bool-cases (f x)) [
    | inl t ↦ rw (t, e) (contains-keep f xs k)
    | inr t ↦ rw (t, e) (contains-keep f xs k)
  ]
  | inl e ↦
      let same = ap f ((eq_iff x k).0 e) in
      elim (Bool-cases (f x)) [
        | inl t ↦ rw (t, e, sym same ∙ t) refl
        | inr t ↦
            rw (t, e, sym same ∙ t)
              (contains-keep f xs k ∙ rw (sym same ∙ t) (and-false (contains xs k)))
      ]
]
  where
    and-false : (b : Bool) → (b && false) ≡ false
    and-false true = refl
    and-false false = refl

NodupKeys-keep : (f : String → Bool) (xs : List String) → NodupKeys xs → NodupKeys (keep f xs)
NodupKeys-keep f [] h = tt
NodupKeys-keep f (x ∷ xs) (fresh, h) = elim (Bool-cases (f x)) [
  | inl t ↦ rw t (contains-keep f xs x ∙ rw fresh refl, NodupKeys-keep f xs h)
  | inr t ↦ rw t (NodupKeys-keep f xs h)
]

contains-insert_by :
    (le : String → String → Bool) (x : String) (ys : List String) (k : String)
    → contains (insert_by le x ys) k ≡ contains (x ∷ ys) k
unfolding insert_by
contains-insert_by le x [] k = refl
contains-insert_by le x (y ∷ ys) k = elim (Bool-cases (le x y)) [
  | inl e ↦ rw e
  | inr e ↦ rw (e, contains-insert_by le x ys k) (swap (str_eq y k) (str_eq x k))
]
  where
    swap : (a b : Bool) → (a || (b || contains ys k)) ≡ (b || (a || contains ys k))
    swap true true = refl
    swap true false = refl
    swap false true = refl
    swap false false = refl

pub contains-sort_by :
    (le : String → String → Bool) (xs : List String) (k : String)
    → contains (sort_by le xs) k ≡ contains xs k
unfolding sort_by
contains-sort_by le [] k = refl
contains-sort_by le (x ∷ xs) k =
    contains-insert_by le x (sort_by le xs) k ∙ rw (contains-sort_by le xs k) refl

NodupKeys-insert_by :
    (le : String → String → Bool) (x : String) (ys : List String)
    → contains ys x ≡ false
    → NodupKeys ys
    → NodupKeys (insert_by le x ys)
unfolding insert_by
NodupKeys-insert_by le x [] f h = (refl, tt)
NodupKeys-insert_by le x (y ∷ ys) f (fresh, h) = elim (Bool-cases (le x y)) [
  | inl e ↦ rw e (f, (fresh, h))
  | inr e ↦ elim (Bool-cases (str_eq y x)) [
    | inl s ↦ cc (rw s at f)
    | inr s ↦ rw e (
      contains-insert_by le x ys y ∙ rw (apart s, fresh) refl,
      NodupKeys-insert_by le x ys (rw s at f) h,
    )
  ]
]
  where
    apart : str_eq y x ≡ false → str_eq x y ≡ false
    apart s = elim (Bool-cases (str_eq x y)) [
      | inl t ↦ cc ((eq_iff y x).1 (sym ((eq_iff x y).0 t)))
      | inr t ↦ t
    ]

pub NodupKeys-sort_by :
    (le : String → String → Bool) (xs : List String) → NodupKeys xs → NodupKeys (sort_by le xs)
unfolding sort_by
NodupKeys-sort_by le [] h = tt
NodupKeys-sort_by le (x ∷ xs) (fresh, h) =
    NodupKeys-insert_by le x (sort_by le xs) (contains-sort_by le xs x ∙ fresh)
      (NodupKeys-sort_by le xs h)

NodupKeys-append :
    (xs ys : List String)
    → NodupKeys xs
    → NodupKeys ys
    → ((k : String) → contains xs k ≡ true → contains ys k ≡ false)
    → NodupKeys (xs ++ ys)
NodupKeys-append [] ys h g apart = g
NodupKeys-append (x ∷ xs) ys (fresh, h) g apart = (
  contains-append xs ys x ∙ rw (fresh, apart x (rw ((eq_iff x x).1 refl) refl)) refl,
  NodupKeys-append xs ys h g (λ k m. apart k (later k m)),
)
  where
    later : (k : String) → contains xs k ≡ true → contains (x ∷ xs) k ≡ true
    later k m = elim (Bool-cases (str_eq x k)) [ inl e ↦ rw e | inr e ↦ rw (e, m) refl ]

order_present-NodupKeys :
    (present : List String)
    → NodupKeys present
    → NodupKeys preferred_policy_order
    → NodupKeys (order_present present)
unfolding order_present
order_present-NodupKeys present h p =
    let ordered = keep (contains present) preferred_policy_order in
    NodupKeys-append ordered _ (NodupKeys-keep (contains present) preferred_policy_order p)
      (NodupKeys-sort_by text_le _ (NodupKeys-keep (λ p. not (contains ordered p)) present h))
      (λ k m.
        contains-sort_by text_le (keep (λ p. not (contains ordered p)) present) k
        ∙ contains-keep (λ p. not (contains ordered p)) present k
        ∙ rw m (and-false (contains present k)))
  where
    and-false : (b : Bool) → (b && false) ≡ false
    and-false true = refl
    and-false false = refl

contains-order_present :
    (present : List String) (k : String) → contains (order_present present) k ≡ contains present k
unfolding order_present
contains-order_present present k =
    let ordered = keep (contains present) preferred_policy_order in
    let others = keep (λ p. not (contains ordered p)) present in
    contains-append ordered (sort_by text_le others) k
    ∙ rw
        (contains-sort_by text_le others k, contains-keep (λ p. not (contains ordered p)) present k)
        (cover (contains ordered k) (contains present k) (λ m. within m))
  where
    cover : (a b : Bool) → (a ≡ true → b ≡ true) → (a || (b && not a)) ≡ b
    cover true b h = sym (h refl)
    cover false true h = refl
    cover false false h = refl

    within :
        contains (keep (contains present) preferred_policy_order) k ≡ true
        → contains present k ≡ true
    within m =
        second (contains preferred_policy_order k) (contains present k)
          (sym (contains-keep (contains present) preferred_policy_order k) ∙ m)
      where
        second : (a b : Bool) → (a && b) ≡ true → b ≡ true
        second true b h = h
        second false b h = cc

module _ {F : Type 0} where
  -- The ordered policies are the policies of the rows that are not blank, each once: first the
  -- preferred ones, in the preferred order, and then the others, sorted.
  pub ordered_policies-present :
      (rows : List (Row F))
      → NodupKeys (ordered_policies rows)
        × ((policy : String)
            → contains (ordered_policies rows) policy ≡ contains (row_policies rows) policy)
        × ((others : List String) × (ordered_policies rows
              ≡ keep (contains (dedup (row_policies rows))) preferred_policy_order ++ others)
            × Sorted text_le others)
  unfolding ordered_policies order_present
  ordered_policies-present rows = (
    order_present-NodupKeys (dedup (row_policies rows)) (dedup-NodupKeys (row_policies rows)) (
        (
          refl,
          (
            refl,
            (
              refl,
              (
                refl,
                (refl, (refl, (refl, (refl, (refl, (refl, (refl, (refl, (refl, (refl, tt)))))))))),
              ),
            ),
          ),
        )),
    λ policy.
        contains-order_present (dedup (row_policies rows)) policy
        ∙ contains-dedup (row_policies rows) policy,
    (_, refl, sort_by-Sorted text_le text_le-total text_le_trans _),
  )
