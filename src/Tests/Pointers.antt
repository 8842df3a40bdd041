-- ===== src/Tests/Pointers.antt =====
-- Result references at concrete values: a value is a number, a list of numbers or a list of lists.
use beautiful_aerc.Prelude.{
  false, subst, ℕ, List, [], ◌∷◌, ◌++◌, map, none, ok, err, All, ◌↔◌, ◌≡◌, refl,
}
use beautiful_aerc.Jmap.Pointer.{slash, pointer}
use beautiful_aerc.Jmap.Patch.{validate, overlap}
use beautiful_aerc.Jmap.Patch.Valid.{Filled, Clear, validate_lem}
use beautiful_aerc.Jmap.Resolve.{
  Json, Shape, array, scalar, wildcard, eval_tokens, eval_pointer, array_index,
}
use beautiful_aerc.Jmap.Resolve.Paths.{
  Present, is_null, wildcard_answer, eval_pointer-pointer, eval_wildcard_lem,
}

data Value : Type 0 where
  number : ℕ → Value
  numbers : List ℕ → Value
  threads : List (List ℕ) → Value

abbrev shape_of : Value → Shape Value
shape_of (number n) = scalar
shape_of (numbers ns) = array (map number ns)
shape_of (threads ts) = array (map numbers ts)

abbrev as_numbers : List Value → List ℕ
as_numbers [] = []
as_numbers (number n ∷ vs) = n ∷ as_numbers vs
as_numbers (numbers ns ∷ vs) = ns ++ as_numbers vs
as_numbers (threads ts ∷ vs) = as_numbers vs

abbrev json : Json Value
json = record { shape = shape_of; of_items = λ vs. numbers (as_numbers vs) }

abbrev emails : List (List ℕ)
emails = (1 ∷ 2 ∷ []) ∷ (3 ∷ []) ∷ []

present : (ns : List ℕ) → Present json (eval_tokens json []) (numbers ns)
unfolding eval_tokens
present ns r h = let same : numbers ns ≡ r = cc in subst (λ z. is_null json z ≡ false) same refl

eval_wildcard_lem_example :
    eval_tokens json (wildcard ∷ []) (threads emails)
    ≡ wildcard_answer json (eval_tokens json []) (threads emails)
eval_wildcard_lem_example =
    eval_wildcard_lem json [] (threads emails) refl (present (1 ∷ 2 ∷ []), (present (3 ∷ []), tt))

flattened : eval_tokens json (wildcard ∷ []) (threads emails) ≡ ok (numbers (1 ∷ 2 ∷ 3 ∷ []))
unfolding eval_tokens
flattened = refl

-- the second item: "1", behind a slash
eval_pointer-pointer_example :
    eval_pointer json (slash ∷ pointer ((49 ∷ []) ∷ [])) (numbers (7 ∷ 8 ∷ []))
    ≡ eval_tokens json ((49 ∷ []) ∷ []) (numbers (7 ∷ 8 ∷ []))
eval_pointer-pointer_example = eval_pointer-pointer json (49 ∷ []) [] (numbers (7 ∷ 8 ∷ []))

second_item : eval_tokens json ((49 ∷ []) ∷ []) (numbers (7 ∷ 8 ∷ [])) ≡ ok (number 8)
unfolding eval_tokens array_index
second_item = refl

-- "01" is no index
no_leading_zero : array_index (48 ∷ 49 ∷ []) ≡ none
unfolding array_index
no_leading_zero = refl

-- "a/b" and "a0"
abbrev apart : List (List ℕ)
apart = (97 ∷ slash ∷ 98 ∷ []) ∷ (97 ∷ 48 ∷ []) ∷ []

validate_lem_example :
    (validate apart ≡ ok tt) ↔ (All Filled apart × All (λ outer. Clear apart outer) apart)
validate_lem_example = validate_lem apart

accepted : validate apart ≡ ok tt
unfolding validate
accepted = refl

-- "a" and "a/b"
overlapping :
    validate ((97 ∷ []) ∷ (97 ∷ slash ∷ 98 ∷ []) ∷ [])
    ≡ err (overlap (97 ∷ []) (97 ∷ slash ∷ 98 ∷ []))
unfolding validate
overlapping = refl
