-- ===== src/Jmap/Patch/Valid.antt =====
-- What a patch that Patch.validate of jmap/patch.go accepts looks like.
use mathlib.Core.Bool.{false≢true}
use beautiful_aerc.Prelude.{
  List, [], ◌∷◌, ◌++◌, ok, err, and_then-eq-ok, false, any, All, ◌≡◌, ◌↔◌, refl, sym, ◌∙◌,
  Bool-cases, inl, inr, ◌≢◌, nat_eq,
}
use beautiful_aerc.Jmap.Pointer.{slash}
use beautiful_aerc.Jmap.Resolve.{Bytes, is_blank}
use beautiful_aerc.Jmap.Patch.{
  has_prefix, PatchError, empty_segment, overlap, check_segments, check_inner, check_outer,
  validate,
}
use beautiful_aerc.Jmap.Patch.Overlap.{segments, Extends, has_prefix-Extends, Extends-has_prefix}

-- no segment is empty
abbrev pub Filled : Bytes → Type 0
Filled p = All (λ s. s ≢ []) (segments p)

-- no pointer of the list goes on past the outer one
abbrev pub Clear : List Bytes → Bytes → Type 0
Clear ps outer = All (λ inner. ¬ Extends (segments outer) (segments inner)) ps

filled : (ss : List Bytes) → any is_blank ss ≡ false → All (λ s. s ≢ []) ss
filled [] h = tt
filled ([] ∷ ss) h = cc
filled ((b ∷ bs) ∷ ss) h = ((λ e. cc), filled ss h)

not_blank : (ss : List Bytes) → All (λ s. s ≢ []) ss → any is_blank ss ≡ false
not_blank [] h = refl
not_blank ([] ∷ ss) h = absurd (h.0 refl)
not_blank ((b ∷ bs) ∷ ss) h = not_blank ss h.1

refused : (e : PatchError) (u : Unit) → ¬ (err e ≡ ok u)
refused e u h = cc

check_segments-Filled : (ps : List Bytes) → check_segments ps ≡ ok tt → All Filled ps
unfolding check_segments
check_segments-Filled [] h = tt
check_segments-Filled (p ∷ ps) h = elim (Bool-cases (any is_blank (segments p))) [
  | inl blank ↦ absurd (refused (empty_segment p) tt (rw blank at h))
  | inr full ↦ (filled (segments p) full, check_segments-Filled ps (rw full at h))
]

Filled-check_segments : (ps : List Bytes) → All Filled ps → check_segments ps ≡ ok tt
unfolding check_segments
Filled-check_segments [] h = refl
Filled-check_segments (p ∷ ps) h = rw (not_blank (segments p) h.0) (Filled-check_segments ps h.1)

check_inner-Clear :
    (outer : Bytes) (ps : List Bytes) → check_inner outer ps ≡ ok tt → Clear ps outer
unfolding check_inner
check_inner-Clear outer [] h = tt
check_inner-Clear outer (inner ∷ ps) h =
    elim (Bool-cases (has_prefix (outer ++ slash ∷ []) inner)) [
      | inl over ↦ absurd (refused (overlap outer inner) tt (rw over at h))
      | inr apart ↦ (
        (λ e. false≢true (sym apart ∙ Extends-has_prefix outer inner e)),
        check_inner-Clear outer ps (rw apart at h),
      )
    ]

Clear-check_inner :
    (outer : Bytes) (ps : List Bytes) → Clear ps outer → check_inner outer ps ≡ ok tt
unfolding check_inner
Clear-check_inner outer [] h = refl
Clear-check_inner outer (inner ∷ ps) h =
    elim (Bool-cases (has_prefix (outer ++ slash ∷ []) inner)) [
      | inl over ↦ absurd (h.0 (has_prefix-Extends outer inner over))
      | inr apart ↦ rw apart (Clear-check_inner outer ps h.1)
    ]

check_outer-Clear :
    (ps os : List Bytes) → check_outer ps os ≡ ok tt → All (λ outer. Clear ps outer) os
unfolding check_outer
check_outer-Clear ps [] h = tt
check_outer-Clear ps (outer ∷ os) h =
    let (u, inner_ok, rest) = and_then-eq-ok (check_inner outer ps) (λ u. check_outer ps os) h in
    (check_inner-Clear outer ps inner_ok, check_outer-Clear ps os rest)

Clear-check_outer :
    (ps os : List Bytes) → All (λ outer. Clear ps outer) os → check_outer ps os ≡ ok tt
unfolding check_outer
Clear-check_outer ps [] h = refl
Clear-check_outer ps (outer ∷ os) h =
    rw (Clear-check_inner outer ps h.0) (Clear-check_outer ps os h.1)

-- The validation accepts the pointers exactly when none of them has an empty segment and no pointer's
-- segments are the segments of a pointer of the patch followed by at least one more.
pub validate_lem :
    (ps : List Bytes) → (validate ps ≡ ok tt) ↔ (All Filled ps × All (λ outer. Clear ps outer) ps)
unfolding validate
validate_lem ps = (
  (λ h.
      let (u, segments_ok, rest) = and_then-eq-ok (check_segments ps) (λ u. check_outer ps ps) h in
      (check_segments-Filled ps segments_ok, check_outer-Clear ps ps rest)),
  (λ h. rw (Filled-check_segments ps h.0) (Clear-check_outer ps ps h.1)),
)
