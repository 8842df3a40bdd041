-- ===== src/Jmap/Resolve.antt =====
-- jmap/resolve.go: the value that a result reference selects. Text is its bytes. `V` is
-- json.RawMessage, and `Json` what encoding/json reads out of one and writes as one.
pub mod Paths
use beautiful_aerc.Prelude.{
  ℕ, zero, suc, ◌+◌, ◌*◌, ◌-◌, ◌^◌, List, [], ◌∷◌, ◌++◌, map, length, Option, none, some, Result,
  ok, err, and_then, Map, Bool, true, false, not, ◌&&◌, ◌||◌, ltb, leb, ◌==◌, nat_eq, if◌then◌else◌,
}
use beautiful_aerc.Jmap.Pointer.{tilde, slash, zero_digit, one_digit}

abbrev pub Bytes : Type 0
Bytes = List ℕ

-- what a JSON value is
pub data Shape (V : Type 0) : Type 0 where
  array : List V → Shape V
  object : (Bytes → Option V) → Shape V
  null scalar : Shape V

-- the reading of a value, and json.Marshal of a slice
pub record Json (V : Type 0) : Type 0 where
  pub shape : V → Shape V
  pub of_items : List V → V

-- json.Unmarshal into a map, `none` where it fails: null gives the nil map
abbrev pub shape_members : {V : Type 0} → Shape V → Option (Bytes → Option V)
shape_members (object member) = some member
shape_members null = some (λ key. none)
shape_members (array vs) = none
shape_members scalar = none

-- json.Unmarshal into a slice, `none` where it fails: null gives the nil slice
abbrev pub shape_items : {V : Type 0} → Shape V → Option (List V)
shape_items (array vs) = some vs
shape_items null = some []
shape_items (object member) = none
shape_items scalar = none

-- the conditions that a reference breaks
pub data ReferenceError : Type 0 where
  not_answered not_pointer wildcard_on_no_array neither : ReferenceError
  answered_otherwise no_property no_index : Bytes → ReferenceError

abbrev pub same_text : Bytes → Bytes → Bool
same_text [] [] = true
same_text (x ∷ xs) (y ∷ ys) = (x == y) && same_text xs ys
same_text _ _ = false

abbrev pub wildcard : Bytes
wildcard = 42 ∷ []

abbrev pub all_digits : Bytes → Bool
all_digits [] = true
all_digits (b ∷ bs) = (leb 48 b && leb b 57) && all_digits bs

-- strconv.Atoi of digits
abbrev pub digits_from : ℕ → Bytes → ℕ
digits_from n [] = n
digits_from n (b ∷ bs) = digits_from (10 * n + (b - 48)) bs

abbrev pub leading_zero : Bytes → Bool
leading_zero (b ∷ c ∷ bs) = b == zero_digit
leading_zero _ = false

abbrev pub is_blank : Bytes → Bool
is_blank [] = true
is_blank (b ∷ bs) = false

unfoldable pub array_index : Bytes → Option ℕ
array_index token =
    let n = digits_from 0 token in
    if is_blank token || leading_zero token
    then none
    else if not (all_digits token)
    then none
    else if ltb n (2 ^ 63)
    then some n
    else none

-- `index >= len(array)`
abbrev pub at_index {ℓ} : {V : Type ℓ} → ℕ → List V → Option V
at_index n [] = none
at_index zero (v ∷ vs) = some v
at_index (suc n) (v ∷ vs) = at_index n vs

abbrev pub at_token {ℓ} : {V : Type ℓ} → Option ℕ → List V → Option V
at_token none vs = none
at_token (some n) vs = at_index n vs

abbrev pub or_err {ℓ} : {V E : Type ℓ} → E → Option V → Result E V
or_err e none = err e
or_err e (some v) = ok v

module _ {V : Type 0} (json : Json V) where
  -- the loop of evalWildcard; `rest` is the rest of the pointer
  abbrev pub flatten : (V → Result ReferenceError V) → List V → List V → Result ReferenceError V
  flatten rest [] flattened = ok (json.of_items flattened)
  flatten rest (v ∷ vs) flattened = and_then (rest v) λ r. elim (shape_items (json.shape r)) [
    | some nested ↦ flatten rest vs (flattened ++ nested)
    | none ↦ flatten rest vs (flattened ++ r ∷ [])
  ]

  unfoldable pub eval_wildcard : (V → Result ReferenceError V) → V → Result ReferenceError V
  eval_wildcard rest v = elim (shape_items (json.shape v)) [
    | none ↦ err wildcard_on_no_array
    | some vs ↦ flatten rest vs []
  ]

  -- one token that is not a wildcard: the member, or else the item
  unfoldable pub select : Bytes → V → Result ReferenceError V
  unfolding array_index
  select token v = elim (shape_members (json.shape v)) [
    | some members ↦ or_err (no_property token) (members token)
    | none ↦ elim (shape_items (json.shape v)) [
      | none ↦ err neither
      | some vs ↦ or_err (no_index token) (at_token (array_index token) vs)
    ]
  ]

  unfoldable pub eval_tokens : List Bytes → V → Result ReferenceError V
  unfolding eval_wildcard select
  eval_tokens [] v = ok v
  eval_tokens (token ∷ tokens) v =
      let rest = eval_tokens tokens in
      if same_text token wildcard then eval_wildcard rest v else and_then (select token v) rest

-- `pointerUnescaper.Replace`
abbrev pub unescape : Bytes → Bytes
unescape [] = []
unescape (b ∷ []) = b ∷ []
unescape (b ∷ c ∷ bs) =
    let after = unescape bs in
    let step = unescape (c ∷ bs) in
    if (b == tilde) && (c == one_digit)
    then slash ∷ after
    else if (b == tilde) && (c == zero_digit)
    then tilde ∷ after
    else b ∷ step

-- strings.Split at "/", in front of what is read so far
abbrev pub split_slash : Bytes → Bytes → List Bytes
split_slash seg [] = seg ∷ []
split_slash seg (b ∷ bs) =
    let cut = split_slash [] bs in
    let longer = split_slash (seg ++ b ∷ []) bs in if b == slash then seg ∷ cut else longer

module _ {V : Type 0} (json : Json V) where
  unfoldable pub eval_pointer : Bytes → V → Result ReferenceError V
  unfolding eval_tokens
  eval_pointer [] v = ok v
  eval_pointer (b ∷ bs) v =
      if b == slash then eval_tokens json (map unescape (split_slash [] bs)) v else err not_pointer

pub record Invocation (V : Type 0) : Type 0 where
  pub call_id : Bytes
  pub name : Bytes
  pub raw : V

pub record ResultReference : Type 0 where
  pub result_of : Bytes
  pub name : Bytes
  pub path : Bytes

module _ {V : Type 0} (json : Json V) where
  -- Resolve, over the method responses
  unfoldable pub resolve : List (Invocation V) → ResultReference → Result ReferenceError V
  unfolding eval_pointer
  resolve [] ref = err not_answered
  resolve (inv ∷ invs) ref =
      let later = resolve invs ref in
      if not (same_text inv.call_id ref.result_of)
      then later
      else if not (same_text inv.name ref.name)
      then err (answered_otherwise inv.name)
      else eval_pointer json ref.path inv.raw
