-- ===== src/Jmap/Patch/Overlap.antt =====
-- The pointers of a patch of jmap/patch.go, by the segments that they address.
use mathlib.Core.List.{append_assoc, append-nil}
use beautiful_aerc.Prelude.{
  List, [], ◌∷◌, ◌++◌, true, ◌==◌, nat_eq, ==→≡, ◌≡◌, ◌↔◌, refl, sym, ap, ◌∙◌, arith, Bool-cases,
  inl, inr,
}
use beautiful_aerc.Jmap.Pointer.{slash, join}
use beautiful_aerc.Jmap.Resolve.{Bytes, split_slash}
use beautiful_aerc.Jmap.Patch.{has_prefix}

abbrev pub segments : Bytes → List Bytes
segments p = split_slash [] p

-- the segments go on past those of the other
abbrev pub Extends : List Bytes → List Bytes → Type 0
Extends ss ts = (t : Bytes) × (rest : List Bytes) × (ts ≡ ss ++ t ∷ rest)

has_prefix-append : (xs rest : Bytes) → has_prefix xs (xs ++ rest) ≡ true
has_prefix-append [] rest = refl
has_prefix-append (x ∷ xs) rest = ground (arith, has_prefix-append xs rest)

after_prefix : (xs s : Bytes) → has_prefix xs s ≡ true → (rest : Bytes) × (s ≡ xs ++ rest)
after_prefix [] s h = (s, refl)
after_prefix (x ∷ xs) [] h = cc
after_prefix (x ∷ xs) (y ∷ ys) h =
    let (rest, e) = after_prefix xs ys (ground (arith, h)) in
    let q : x ≡ y = ground (arith, h) in (rest, cc)

split_slash-append :
    (seg xs rest : Bytes)
    → split_slash seg (xs ++ slash ∷ rest) ≡ split_slash seg xs ++ split_slash [] rest
split_slash-append seg [] rest = refl
split_slash-append seg (x ∷ xs) rest = elim (Bool-cases (x == slash)) [
  | inl here ↦ rw here (ap (λ t. seg ∷ t) (split_slash-append [] xs rest))
  | inr other ↦ rw other (split_slash-append (seg ++ x ∷ []) xs rest)
]

split_slash-cons :
    (seg xs : Bytes) → (t : Bytes) × (ts : List Bytes) × (split_slash seg xs ≡ t ∷ ts)
split_slash-cons seg [] = (seg, [], refl)
split_slash-cons seg (x ∷ xs) = elim (Bool-cases (x == slash)) [
  | inl here ↦ (seg, split_slash [] xs, rw here refl)
  | inr other ↦ rw other (split_slash-cons (seg ++ x ∷ []) xs)
]

join-append :
    (s : Bytes) (ss : List Bytes) (t : Bytes) (ts : List Bytes)
    → join ((s ∷ ss) ++ t ∷ ts) ≡ join (s ∷ ss) ++ slash ∷ join (t ∷ ts)
unfolding join
join-append s [] t ts = refl
join-append s (u ∷ ss) t ts =
    ap (λ z. s ++ slash ∷ z) (join-append u ss t ts)
    ∙ sym (append_assoc s (slash ∷ join (u ∷ ss)) (slash ∷ join (t ∷ ts)))

join-cons :
    (seg : Bytes) (ss : List Bytes)
    → (t : Bytes) × (ts : List Bytes) × (ss ≡ t ∷ ts)
    → join (seg ∷ ss) ≡ seg ++ slash ∷ join ss
unfolding join
join-cons seg ss (t, ts, e) = rw e refl

join-split_slash : (seg xs : Bytes) → join (split_slash seg xs) ≡ seg ++ xs
unfolding join
join-split_slash seg [] = sym (append-nil seg)
join-split_slash seg (x ∷ xs) = elim (Bool-cases (x == slash)) [
  | inl here ↦
      let same : x ≡ slash = ==→≡ x slash here in
      let ends : join (seg ∷ split_slash [] xs) ≡ seg ++ x ∷ xs =
        join-cons seg (split_slash [] xs) (split_slash-cons [] xs)
        ∙ ap (λ z. seg ++ slash ∷ z) (join-split_slash [] xs)
        ∙ ap (λ z. seg ++ z ∷ xs) (sym same) in
      rw here ends
  | inr other ↦ rw other (join-split_slash (seg ++ x ∷ []) xs ∙ append_assoc seg (x ∷ []) xs)
]

pub has_prefix-Extends :
    (outer inner : Bytes)
    → has_prefix (outer ++ slash ∷ []) inner ≡ true
    → Extends (segments outer) (segments inner)
has_prefix-Extends outer inner h =
    let (rest, e) = after_prefix (outer ++ slash ∷ []) inner h in
    let (t, ts, s) = split_slash-cons [] rest in
    (
      t,
      ts,
      ap (λ z. split_slash [] z) (e ∙ append_assoc outer (slash ∷ []) rest)
          ∙ split_slash-append [] outer rest
          ∙ ap (λ z. split_slash [] outer ++ z) s,
    )

pub Extends-has_prefix :
    (outer inner : Bytes)
    → Extends (segments outer) (segments inner)
    → has_prefix (outer ++ slash ∷ []) inner ≡ true
Extends-has_prefix outer inner (t, ts, e) =
    let (o, os, c) = split_slash-cons [] outer in
    let whole : inner ≡ outer ++ slash ∷ join (t ∷ ts) =
      sym (join-split_slash [] inner)
      ∙ ap join (e ∙ ap (λ z. z ++ t ∷ ts) c)
      ∙ join-append o os t ts
      ∙ ap (λ z. z ++ slash ∷ join (t ∷ ts)) (ap join (sym c) ∙ join-split_slash [] outer) in
    let parts : inner ≡ (outer ++ slash ∷ []) ++ join (t ∷ ts) =
      whole ∙ sym (append_assoc outer (slash ∷ []) (join (t ∷ ts))) in
    rw parts (has_prefix-append (outer ++ slash ∷ []) (join (t ∷ ts)))

-- the test of the code, told by segments
overlaps_iff :
    (outer inner : Bytes)
    → (has_prefix (outer ++ slash ∷ []) inner ≡ true) ↔ Extends (segments outer) (segments inner)
overlaps_iff outer inner = (has_prefix-Extends outer inner, Extends-has_prefix outer inner)
