-- ===== src/Matrix/Run/Names.antt =====
-- `bounded_run_name` (scripts/run_matrix.py).
use text.Mathlib.TextLemmas.{length-append}
use dm_simulator.Base.{
  ℕ, ◌+◌, ◌-◌, ◌≤◌, String, count, ◌≡◌, ◌↔◌, true, subst, arith, leb, leb→le, Bool-cases, inl, inr,
}
use dm_simulator.Text.{prefix}
use dm_simulator.Text.Laws.{count-prefix-le}
use dm_simulator.Matrix.Run.{cut, bounded_run_name}

cut_bound :
    (name : String) (max_length n : ℕ)
    → n ≤ max_length
    → count (cut name max_length n) + n ≤ max_length
cut_bound name max_length n h = ground (arith, count-prefix-le (max_length - n) name)

bounded_run_name-fits :
    (sha1 : String → String) (name : String) (max_length : ℕ)
    → count name ≤ max_length
    → bounded_run_name sha1 name max_length ≡ name
unfolding bounded_run_name
bounded_run_name-fits sha1 name max_length h =
    let e : leb (count name) max_length ≡ true = ground arith in rw e

bounded_run_name-le :
    (sha1 : String → String) (name : String) (max_length : ℕ)
    → 12 ≤ max_length
    → count (bounded_run_name sha1 name max_length) ≤ max_length
unfolding bounded_run_name
bounded_run_name-le sha1 name max_length h =
    let digest = prefix 10 (sha1 name) in
    let short : count digest ≤ 10 = count-prefix-le 10 (sha1 name) in
    elim (Bool-cases (leb (count name) max_length)) [
      | inl e ↦ rw e (leb→le _ _ e)
      | inr e ↦ rw e (
          rw (length-append, length-append)
            (omega (arith, cut_bound name max_length (count digest + 2))))
    ]

-- A bounded name has at most as many characters as the bound, if that is 12 or more, whatever the
-- hash returns; it is the name itself just when the name fits.
pub bounded_run_name_lem :
    (sha1 : String → String) (name : String) (max_length : ℕ)
    → 12 ≤ max_length
    → (count (bounded_run_name sha1 name max_length) ≤ max_length)
      × ((bounded_run_name sha1 name max_length ≡ name) ↔ (count name ≤ max_length))
bounded_run_name_lem sha1 name max_length h =
    let bound = bounded_run_name-le sha1 name max_length h in
    (
      bound,
      (
        λ e. subst (λ x. count x ≤ max_length) e bound,
        λ k. bounded_run_name-fits sha1 name max_length k,
      ),
    )
