-- ===== src/Jmap/Resolve/Paths.antt =====
-- The pointers of jmap/resolve.go: those that Pointer of jmap/patch.go builds, and the wildcard.
use beautiful_aerc.Prelude.{
  ℕ, List, [], ◌∷◌, ◌++◌, map, Option, none, some, Result, ok, err, and_then, All, Bool, true,
  false, ◌==◌, nat_eq, ==→≡, ◌≡◌, refl, sym, ap, ◌∙◌, Bool-cases, Result-cases, inl, inr,
}
use mathlib.Core.List.{append_assoc, append-nil}
use beautiful_aerc.Jmap.Pointer.{tilde, slash, escape, join, pointer}
use beautiful_aerc.Jmap.Pointer.RoundTrip.{split, split-join}
use beautiful_aerc.Jmap.Resolve.{
  Bytes, wildcard, Json, ReferenceError, Shape, array, object, null, scalar, shape_items,
  wildcard_on_no_array, flatten, eval_wildcard, eval_tokens, unescape, split_slash, eval_pointer,
}

split_slash-split : (seg bs : Bytes) → split_slash seg bs ≡ split seg bs
unfolding split
split_slash-split seg [] = refl
split_slash-split seg (b ∷ bs) = elim (Bool-cases (b == slash)) [
  | inl here ↦ rw here (ap (λ t. seg ∷ t) (split_slash-split [] bs))
  | inr other ↦ rw other (split_slash-split (seg ++ b ∷ []) bs)
]

unescape_other : (b : ℕ) (xs : Bytes) → (b == tilde) ≡ false → unescape (b ∷ xs) ≡ b ∷ unescape xs
unescape_other b [] h = refl
unescape_other b (c ∷ rest) h = rw h refl

unescape-escape : (s : Bytes) → unescape (escape s) ≡ s
unfolding escape
unescape-escape [] = refl
unescape-escape (b ∷ bs) =
    let ih = unescape-escape bs in
    elim (Bool-cases (b == tilde)) [
      | inl t ↦ rw (t, ih) (ap (λ x. x ∷ bs) (sym (==→≡ b tilde t)))
      | inr plain ↦ elim (Bool-cases (b == slash)) [
        | inl s ↦ rw (plain, s, ih) (ap (λ x. x ∷ bs) (sym (==→≡ b slash s)))
        | inr other ↦ rw (plain, other, unescape_other b (escape bs) plain, ih) refl
      ]
    ]

map-unescape : (ss : List Bytes) → map unescape (map escape ss) ≡ ss
map-unescape [] = refl
map-unescape (s ∷ ss) = rw (unescape-escape s, map-unescape ss) refl

module _ {V : Type 0} where
  abbrev shape_is_null : Shape V → Bool
  shape_is_null null = true
  shape_is_null (array vs) = false
  shape_is_null (object m) = false
  shape_is_null scalar = false

  abbrev shape_array : Shape V → Option (List V)
  shape_array (array vs) = some vs
  shape_array null = none
  shape_array (object m) = none
  shape_array scalar = none

  abbrev or_empty : Option (List V) → List V
  or_empty none = []
  or_empty (some vs) = vs

  abbrev or_itself : V → Option (List V) → List V
  or_itself r none = r ∷ []
  or_itself r (some nested) = nested

  same_items : (o : Shape V) → shape_is_null o ≡ false → shape_items o ≡ shape_array o
  same_items (array vs) h = refl
  same_items (object m) h = refl
  same_items null h = cc
  same_items scalar h = refl

module _ {V : Type 0} (json : Json V) where
  -- A pointer that was built of segments, behind a slash, selects what the segments select as tokens,
  -- whatever bytes they hold, "~" and "/" and "~1" among them; where there is one at least.
  pub eval_pointer-pointer :
      (s : Bytes) (rest : List Bytes) (v : V)
      → eval_pointer json (slash ∷ pointer (s ∷ rest)) v ≡ eval_tokens json (s ∷ rest) v
  unfolding eval_pointer pointer
  eval_pointer-pointer s rest v =
      ap (λ t. eval_tokens json (map unescape t) v)
        (split_slash-split [] (join (map escape (s ∷ rest))) ∙ split-join s rest)
      ∙ ap (λ t. eval_tokens json t v) (map-unescape (s ∷ rest))

  -- the answers of all items, or the first failure
  abbrev pub answers : (V → Result ReferenceError V) → List V → Result ReferenceError (List V)
  answers rest [] = ok []
  answers rest (v ∷ vs) = and_then (rest v) λ r. and_then (answers rest vs) λ rs. ok (r ∷ rs)

  abbrev pub is_null : V → Bool
  is_null v = shape_is_null (json.shape v)

  -- the elements of a value, where it is an array
  abbrev pub elements : V → Option (List V)
  elements v = shape_array (json.shape v)

  -- the elements of an answer that is an array, and else the answer
  abbrev pub all_parts : List V → List V
  all_parts [] = []
  all_parts (r ∷ rs) = or_itself r (elements r) ++ all_parts rs

  abbrev mapped : (V → Result ReferenceError V) → Option (List V) → Result ReferenceError V
  mapped rest none = err wildcard_on_no_array
  mapped rest (some vs) = and_then (answers rest vs) λ rs. ok (json.of_items (all_parts rs))

  -- the wildcard as its comment and section 3.7 of RFC 8620 describe it
  abbrev pub wildcard_answer : (V → Result ReferenceError V) → V → Result ReferenceError V
  wildcard_answer rest v = mapped rest (elements v)

  -- no answer is null
  abbrev pub Present : (V → Result ReferenceError V) → V → Type 0
  Present rest v = (r : V) → rest v ≡ ok r → is_null r ≡ false

  part_flatten :
      (o : Option (List V)) (r : V) (rest : V → Result ReferenceError V) (vs flattened : List V)
      → (elim o [
        | some nested ↦ flatten json rest vs (flattened ++ nested)
        | none ↦ flatten json rest vs (flattened ++ r ∷ [])
      ])
        ≡ flatten json rest vs (flattened ++ or_itself r o)
  part_flatten none r rest vs flattened = refl
  part_flatten (some nested) r rest vs flattened = refl

  regroup :
      (x : Result ReferenceError (List V)) (ps flattened : List V) (r : V)
      → ps ≡ or_itself r (elements r)
      → (and_then x λ rs. ok (json.of_items ((flattened ++ ps) ++ all_parts rs))) ≡ (
          and_then
            (and_then x λ rs. ok (r ∷ rs))
            λ rs. ok (json.of_items (flattened ++ all_parts rs)))
  regroup (ok rs) ps flattened r e = rw e (
      ap (λ t. ok (json.of_items t))
        (append_assoc flattened (or_itself r (elements r)) (all_parts rs)))
  regroup (err x) ps flattened r e = refl

  flatten_lem :
      (rest : V → Result ReferenceError V) (vs flattened : List V)
      → All (Present rest) vs
      → flatten json rest vs flattened
        ≡ and_then (answers rest vs) λ rs. ok (json.of_items (flattened ++ all_parts rs))
  flatten_lem rest [] flattened h = ap (λ t. ok (json.of_items t)) (sym (append-nil flattened))
  flatten_lem rest (v ∷ vs) flattened h = elim (Result-cases (rest v)) [
    | inl (r, e) ↦
        let o = shape_items (json.shape r) in
        rw e (
          part_flatten o r rest vs flattened
          ∙ flatten_lem rest vs (flattened ++ or_itself r o) h.1
          ∙ regroup (answers rest vs) (or_itself r o) flattened r
              (ap (λ z. or_itself r z) (same_items (json.shape r) (h.0 r e))))
    | inr (x, e) ↦ rw e refl
  ]

  wildcard_by :
      (rest : V → Result ReferenceError V) (o : Option (List V))
      → All (Present rest) (or_empty o)
      → (elim o [ none ↦ err wildcard_on_no_array | some vs ↦ flatten json rest vs [] ])
        ≡ mapped rest o
  wildcard_by rest none h = refl
  wildcard_by rest (some vs) h = flatten_lem rest vs [] h

  -- Where neither the value nor what the rest of the pointer answers for an element of it is null: a
  -- wildcard over an array applies the rest of the pointer to every element, fails as the first one
  -- that fails, and else gives the answers in order, with the elements of an answer that is an array
  -- in its place, one level of them and no answer lost; over any other value it fails.
  pub eval_wildcard_lem :
      (tokens : List Bytes) (v : V)
      → is_null v ≡ false
      → All (Present (eval_tokens json tokens)) (or_empty (elements v))
      → eval_tokens json (wildcard ∷ tokens) v ≡ wildcard_answer (eval_tokens json tokens) v
  unfolding eval_tokens eval_wildcard
  eval_wildcard_lem tokens v h present =
      let same = same_items (json.shape v) h in
      rw (eval_tokens, eval_wildcard, same)
        (wildcard_by (eval_tokens json tokens) (elements v) present)
