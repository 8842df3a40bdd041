-- ===== src/Jmap/Splice.antt =====
-- jmap/querychanges.go: Splice, which applies the changes of a query to its cached results.
pub mod Diff
use Prim.Native.String.{◌++◌ as append}
use beautiful_aerc.Prelude.{
  ℕ, zero, suc, String, decimal, List, [], ◌∷◌, Result, ok, err, Bool, true, false, not, ◌||◌, ◌==◌,
  string_eq, ltb, if◌then◌else◌, length, filter,
}

pub record AddedItem : Type 0 where
  pub id : String
  pub index : ℕ

-- `slices.IsSortedFunc` by index: no item is below the one before it
unfoldable pub is_sorted : List AddedItem → Bool
is_sorted [] = true
is_sorted (a ∷ []) = true
is_sorted (a ∷ b ∷ rest) = if ltb b.index a.index then false else is_sorted (b ∷ rest)

abbrev pub contains : String → List String → Bool
contains id [] = false
contains id (x ∷ xs) = x == id || contains id xs

-- `slices.DeleteFunc` of the removed ids
unfoldable pub survivors : List String → List String → List String
survivors removed = filter (λ id. not (contains id removed))

-- `slices.Insert`, at an index that the list has
unfoldable pub insert_at : ℕ → String → List String → List String
insert_at zero id xs = id ∷ xs
insert_at (suc i) id [] = id ∷ []
insert_at (suc i) id (x ∷ xs) = x ∷ insert_at i id xs

-- `quote` is `%q`
module _ (quote : String → String) where
  abbrev past_end : AddedItem → ℕ → String
  past_end item n = append "added id " (
      append (quote item.id) (
        append " takes index " (
          append (decimal item.index)
            (append ", past the end of " (append (decimal n) " cached results")))))

  -- the loop over the added items
  unfoldable pub insert_all : List String → List AddedItem → Result String (List String)
  unfolding insert_at
  insert_all out [] = ok out
  insert_all out (item ∷ items) =
      let rest = insert_all (insert_at item.index item.id out) items in
      if ltb (length out) item.index then err (past_end item (length out)) else rest

  unfoldable pub splice : List String → List String → List AddedItem → Result String (List String)
  unfolding is_sorted survivors insert_all
  splice cached removed added =
      if not (is_sorted added)
      then err "added items are not in ascending index order"
      else insert_all (survivors removed cached) added
