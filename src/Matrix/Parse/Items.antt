-- ===== src/Matrix/Parse/Items.antt =====
-- The items of a comma-separated value (`parse_csv_list`), and the test that there is one.
use dm_simulator.Base.{
  String, true, ◌≡◌, ◌≢◌, ◌↔◌, refl, List, [], ◌∷◌, map, Result, ok, err, ◌>>=◌, keep, All,
  Bool-cases, inl, inr,
}
use dm_simulator.Text.{strip, split_comma, join, nonempty}
use dm_simulator.Text.Laws.{
  NoComma, split_comma-NoComma, split_comma-append, split_comma-ne-nil, strip_idem, strip-NoComma,
}
use dm_simulator.Matrix.Parse.{parse_csv_list, at_least_one}

-- An item as a user may write it: not empty, no comma inside, no space around.
pub record IsItem (item : String) : Type 0 where
  pub filled : nonempty item ≡ true
  pub no_comma : NoComma item
  pub stripped : strip item ≡ item

strip-IsItem : (s : String) → NoComma s → nonempty (strip s) ≡ true → IsItem (strip s)
strip-IsItem s c h = record { filled = h; no_comma = strip-NoComma s c; stripped = strip_idem s }

keep-IsItem :
    (items : List String) → All NoComma items → All IsItem (keep nonempty (map strip items))
keep-IsItem [] h = tt
keep-IsItem (item ∷ items) (h, hs) = elim (Bool-cases (nonempty (strip item))) [
  | inl e ↦ rw e (strip-IsItem item h e, keep-IsItem items hs)
  | inr e ↦ rw e (keep-IsItem items hs)
]

-- Every item of a parsed list is filled, free of commas and stripped.
pub parse_csv_list-IsItem : (value : String) → All IsItem (parse_csv_list value)
unfolding parse_csv_list
parse_csv_list-IsItem value = keep-IsItem (split_comma value) (split_comma-NoComma value)

split_comma-join :
    (item : String) (items : List String)
    → All IsItem (item ∷ items)
    → split_comma (join "," (item ∷ items)) ≡ item ∷ items
unfolding join
split_comma-join item [] (h, _) = split_comma-ne-nil item h.no_comma
split_comma-join item (next ∷ items) (h, hs) =
    rw (split_comma-append item _ h.no_comma, split_comma-join next items hs)

keep-items : (items : List String) → All IsItem items → keep nonempty (map strip items) ≡ items
keep-items [] h = refl
keep-items (item ∷ items) (h, hs) = rw (h.stripped, h.filled, keep-items items hs)

-- Joining items by commas and parsing the text gives the items back.
pub parse_csv_list-join :
    (items : List String) → All IsItem items → parse_csv_list (join "," items) ≡ items
unfolding parse_csv_list
parse_csv_list-join [] h = unfold join strip split_comma in refl
parse_csv_list-join (item ∷ items) h =
    rw (split_comma-join item items h) (keep-items (item ∷ items) h)

pub at_least_one_iff {ℓ} :
    {A : Type ℓ} (r : Result (List A)) (m : String) (ys : List A)
    → ((r >>= λ values. at_least_one values m) ≡ ok ys) ↔ ((r ≡ ok ys) × (ys ≢ []))
at_least_one_iff (err e) m ys = (λ h. cc, λ (h, _). cc)
at_least_one_iff (ok []) m ys = (λ h. cc, λ (h, n). absurd (n (cc)))
at_least_one_iff (ok (x ∷ xs)) m ys = (λ h. (h, λ e. cc), λ (h, _). h)
