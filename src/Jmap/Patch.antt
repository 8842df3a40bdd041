-- ===== src/Jmap/Patch.antt =====
-- jmap/patch.go: the validation of a patch's pointers, in the sorted order that the code puts its keys
-- in. Text is its bytes.
pub mod Overlap
pub mod Valid
use beautiful_aerc.Prelude.{
  ℕ, List, [], ◌∷◌, ◌++◌, Result, ok, err, and_then, Bool, true, false, ◌&&◌, any, ◌==◌, nat_eq,
  if◌then◌else◌,
}
use beautiful_aerc.Jmap.Pointer.{slash}
use beautiful_aerc.Jmap.Resolve.{Bytes, split_slash, is_blank}

-- strings.HasPrefix
abbrev pub has_prefix : Bytes → Bytes → Bool
has_prefix [] s = true
has_prefix (x ∷ xs) [] = false
has_prefix (x ∷ xs) (y ∷ ys) = (x == y) && has_prefix xs ys

pub data PatchError : Type 0 where
  empty_segment : Bytes → PatchError
  overlap : (outer inner : Bytes) → PatchError

-- the first loop
unfoldable pub check_segments : List Bytes → Result PatchError Unit
check_segments [] = ok tt
check_segments (p ∷ ps) =
    if any is_blank (split_slash [] p) then err (empty_segment p) else check_segments ps

-- the inner and the outer loop of the second
unfoldable pub check_inner : Bytes → List Bytes → Result PatchError Unit
check_inner outer [] = ok tt
check_inner outer (inner ∷ ps) =
    if has_prefix (outer ++ slash ∷ []) inner
    then err (overlap outer inner)
    else check_inner outer ps

unfoldable pub check_outer : List Bytes → List Bytes → Result PatchError Unit
unfolding check_inner
check_outer ps [] = ok tt
check_outer ps (outer ∷ os) = and_then (check_inner outer ps) λ _. check_outer ps os

unfoldable pub validate : List Bytes → Result PatchError Unit
unfolding check_segments check_outer
validate ps = and_then (check_segments ps) λ _. check_outer ps ps
