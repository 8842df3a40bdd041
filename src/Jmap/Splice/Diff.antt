-- ===== src/Jmap/Splice/Diff.antt =====
-- Splice of jmap/querychanges.go, against two states of a query.
use mathlib.Core.List.{append_assoc}
use beautiful_aerc.Prelude.{
  ℕ, ◌+◌, String, List, [], ◌∷◌, ◌++◌, ◌≡◌, refl, ap, ◌≤◌, ok, Bool, true, false, ltb,
  if◌then◌else◌, length, length-append, arith, Bool-cases, inl, inr,
}
use beautiful_aerc.Jmap.Splice.{AddedItem, is_sorted, survivors, insert_at, insert_all, splice}

-- A row of the new results, and whether it was added.
pub record Shown : Type 0 where
  pub id : String
  pub new : Bool

abbrev pub shown_ids : List Shown → List String
shown_ids [] = []
shown_ids (r ∷ rs) = r.id ∷ shown_ids rs

abbrev pub kept_ids : List Shown → List String
kept_ids [] = []
kept_ids (r ∷ rs) = if r.new then kept_ids rs else r.id ∷ kept_ids rs

-- The added rows with the index that each takes in the new results, the first row at `i`.
abbrev pub additions : ℕ → List Shown → List AddedItem
additions i [] = []
additions i (r ∷ rs) =
    if r.new then record { id = r.id; index = i } ∷ additions (i + 1) rs else additions (i + 1) rs

insert_at-length :
    (pre : List String) (id : String) (xs : List String)
    → insert_at (length pre) id (pre ++ xs) ≡ pre ++ id ∷ xs
unfolding insert_at
insert_at-length [] id xs = refl
insert_at-length (p ∷ pre) id xs = ap (λ t. p ∷ t) (insert_at-length pre id xs)

-- no item of the list is below `i`
abbrev Above : ℕ → List AddedItem → Type 0
Above i [] = Unit {0}
Above i (a ∷ as') = (i ≤ a.index) × Above a.index as'

Above-weaken : (i j : ℕ) (as' : List AddedItem) → i ≤ j → Above j as' → Above i as'
Above-weaken i j [] h a = tt
Above-weaken i j (x ∷ xs) h a = (omega (arith, h, a.0), a.1)

Above-additions : (i : ℕ) (rs : List Shown) → Above i (additions i rs)
Above-additions i [] = tt
Above-additions i (r ∷ rs) =
    let later = Above-additions (i + 1) rs in
    elim (Bool-cases r.new) [
      | inl n ↦
          rw n (omega arith, Above-weaken i (i + 1) (additions (i + 1) rs) (omega arith) later)
      | inr o ↦ rw o (Above-weaken i (i + 1) (additions (i + 1) rs) (omega arith) later)
    ]

is_sorted-Above : (i : ℕ) (as' : List AddedItem) → Above i as' → is_sorted as' ≡ true
unfolding is_sorted
is_sorted-Above i [] h = refl
is_sorted-Above i (a ∷ []) h = refl
is_sorted-Above i (a ∷ b ∷ rest) h = ground (arith, is_sorted-Above a.index (b ∷ rest) h.1, h.1.0)

module _ (quote : String → String) where
  insert_all-additions :
      (pre : List String) (rs : List Shown)
      → insert_all quote (pre ++ kept_ids rs) (additions (length pre) rs) ≡ ok (pre ++ shown_ids rs)
  unfolding insert_all
  insert_all-additions pre [] = refl
  insert_all-additions pre (r ∷ rs) =
      let longer : length (pre ++ r.id ∷ []) ≡ length pre + 1 =
        omega (arith, length-append pre (r.id ∷ [])) in
      let ih =
        rw
          (
            append_assoc pre (r.id ∷ []) (kept_ids rs),
            append_assoc pre (r.id ∷ []) (shown_ids rs),
            longer,
          )
          at (insert_all-additions (pre ++ r.id ∷ []) rs) in
      let inside : ltb (length (pre ++ kept_ids rs)) (length pre) ≡ false =
        ground (arith, length-append pre (kept_ids rs)) in
      elim (Bool-cases r.new) [
        | inl n ↦ rw (n, inside, insert_at-length pre r.id (kept_ids rs)) ih
        | inr o ↦ rw o ih
      ]

  -- Splice turns the cached results of one state into the results of the next: given any removed ids
  -- whose deletion leaves of the cached results the rows that the new results keep, in their new
  -- order, and the added rows with their indices in the new results, it returns the new results.
  pub splice-additions :
      (cached removed : List String) (rs : List Shown)
      → survivors removed cached ≡ kept_ids rs
      → splice quote cached removed (additions 0 rs) ≡ ok (shown_ids rs)
  unfolding splice
  splice-additions cached removed rs h =
      rw (is_sorted-Above 0 (additions 0 rs) (Above-additions 0 rs), h) (insert_all-additions [] rs)
