-- ===== src/Tests/Queries.antt =====
-- Query changes and pointers at concrete values.
use beautiful_aerc.Prelude.{List, [], ◌∷◌, ◌≡◌, refl, ok, true, false}
use beautiful_aerc.Jmap.Splice.{splice, survivors}
use beautiful_aerc.Jmap.Splice.Diff.{Shown, additions, shown_ids, splice-additions}

abbrev shown : List Shown
shown =
    record { id = "a"; new = false }
    ∷ record { id = "x"; new = true }
    ∷ record { id = "c"; new = false }
    ∷ []

splice-additions_example :
    splice (λ s. s) ("a" ∷ "b" ∷ "c" ∷ []) ("b" ∷ []) (additions 0 shown) ≡ ok (shown_ids shown)
unfolding survivors
splice-additions_example = splice-additions (λ s. s) ("a" ∷ "b" ∷ "c" ∷ []) ("b" ∷ []) shown refl
