-- ===== src/Jmap/Pointer/RoundTrip.antt =====
-- Reading a JSON pointer back, as RFC 6901 describes it: split at "/", then undo the two escapes.
use mathlib.Core.List.{append-nil, append_assoc}
use beautiful_aerc.Prelude.{
  ℕ, List, [], ◌∷◌, ◌++◌, map, ◌≡◌, refl, ap, ◌∙◌, sym, ◌==◌, nat_eq, ==→≡, false, if◌then◌else◌,
  Bool-cases, inl, inr,
}
use beautiful_aerc.Jmap.Pointer.{
  tilde, slash, zero_digit, one_digit, escape_byte, escape, join, pointer,
}

-- "~1" is a slash and "~0" a tilde
unescape : List ℕ → List ℕ
unescape [] = []
unescape (b ∷ []) = b ∷ []
unescape (b ∷ c ∷ rest) =
    let after = unescape rest in
    let step = unescape (c ∷ rest) in
    if b == tilde then (if c == one_digit then slash ∷ after else tilde ∷ after) else b ∷ step

-- the bytes before the first slash and after it, in front of the segment read so far
unfoldable pub split : List ℕ → List ℕ → List (List ℕ)
split seg [] = seg ∷ []
split seg (b ∷ bs) =
    let cut = split [] bs in
    let longer = split (seg ++ b ∷ []) bs in if b == slash then seg ∷ cut else longer

unfoldable pub segments_of : List ℕ → List (List ℕ)
unfolding unescape split
segments_of p = map unescape (split [] p)

unescape_other : (b : ℕ) (xs : List ℕ) → (b == tilde) ≡ false → unescape (b ∷ xs) ≡ b ∷ unescape xs
unfolding unescape
unescape_other b [] h = refl
unescape_other b (c ∷ rest) h = rw h refl

unescape-escape : (s : List ℕ) → unescape (escape s) ≡ s
unfolding unescape escape
unescape-escape [] = refl
unescape-escape (b ∷ bs) =
    let ih = unescape-escape bs in
    elim (Bool-cases (b == tilde)) [
      | inl t ↦ rw (t, ih) (ap (λ x. x ∷ bs) (sym (==→≡ b tilde t)))
      | inr plain ↦ elim (Bool-cases (b == slash)) [
        | inl s ↦ rw (plain, s, ih) (ap (λ x. x ∷ bs) (sym (==→≡ b slash s)))
        | inr other ↦ rw (plain, other, unescape_other b (escape bs) plain, ih) refl
      ]
    ]

split_other :
    (seg : List ℕ) (b : ℕ) (rest : List ℕ)
    → (b == slash) ≡ false
    → split seg (b ∷ rest) ≡ split (seg ++ b ∷ []) rest
unfolding split
split_other seg b rest h = rw h refl

split_byte :
    (seg : List ℕ) (b : ℕ) (rest : List ℕ)
    → split seg (escape_byte b ++ rest) ≡ split (seg ++ escape_byte b) rest
unfolding split
split_byte seg b rest = elim (Bool-cases (b == tilde)) [
  | inl t ↦ rw t (ap (λ x. split x rest) (append_assoc seg (tilde ∷ []) (zero_digit ∷ [])))
  | inr plain ↦ elim (Bool-cases (b == slash)) [
    | inl s ↦
        rw (plain, s) (ap (λ x. split x rest) (append_assoc seg (tilde ∷ []) (one_digit ∷ [])))
    | inr other ↦ rw (plain, other) (split_other seg b rest other)
  ]
]

split_escaped :
    (seg s rest : List ℕ) → split seg (escape s ++ slash ∷ rest) ≡ (seg ++ escape s) ∷ split [] rest
unfolding split escape
split_escaped seg [] rest = ap (λ x. x ∷ split [] rest) (sym (append-nil seg))
split_escaped seg (b ∷ bs) rest =
    ap (split seg) (append_assoc (escape_byte b) (escape bs) (slash ∷ rest))
    ∙ split_byte seg b (escape bs ++ slash ∷ rest)
    ∙ split_escaped (seg ++ escape_byte b) bs rest
    ∙ ap (λ x. x ∷ split [] rest) (append_assoc seg (escape_byte b) (escape bs))

split_last : (seg s : List ℕ) → split seg (escape s) ≡ (seg ++ escape s) ∷ []
unfolding split escape
split_last seg [] = ap (λ x. x ∷ []) (sym (append-nil seg))
split_last seg (b ∷ bs) =
    split_byte seg b (escape bs)
    ∙ split_last (seg ++ escape_byte b) bs
    ∙ ap (λ x. x ∷ []) (append_assoc seg (escape_byte b) (escape bs))

pub split-join :
    (s : List ℕ) (rest : List (List ℕ))
    → split [] (join (map escape (s ∷ rest))) ≡ map escape (s ∷ rest)
unfolding join
split-join s [] = split_last [] s
split-join s (t ∷ rest) =
    split_escaped [] s (join (map escape (t ∷ rest))) ∙ ap (λ x. escape s ∷ x) (split-join t rest)

map-unescape : (ss : List (List ℕ)) → map unescape (map escape ss) ≡ ss
map-unescape [] = refl
map-unescape (s ∷ ss) = rw (unescape-escape s, map-unescape ss) refl

-- A pointer reads back as the segments that it was built of, where there is one at least.
pub segments_of-pointer :
    (s : List ℕ) (rest : List (List ℕ)) → segments_of (pointer (s ∷ rest)) ≡ s ∷ rest
unfolding segments_of pointer
segments_of-pointer s rest = ap (map unescape) (split-join s rest) ∙ map-unescape (s ∷ rest)
