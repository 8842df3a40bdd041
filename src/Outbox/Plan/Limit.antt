-- ===== src/Outbox/Plan/Limit.antt =====
-- The size of the batches of planBatches in internal/outbox/dispatch.go.
use beautiful_aerc.Prelude.MapLaws.{lookup-assign, lookup_or-assign}
use beautiful_aerc.Prelude.{
  ℕ, ◌+◌, ◌-◌, List, [], ◌∷◌, ◌++◌, Map, lookup, lookup_or, assign, Option, none, some, Result, ok,
  err, Result-cases, Option-cases, Bool, true, false, not, ◌&&◌, ◌||◌, ltb, ◌==◌, nat_eq, string_eq,
  if◌then◌else◌, length, Bool-cases, inl, inr, arith, ◌≡◌, ◌≤◌, ◌<◌,
}
use beautiful_aerc.Uerr.{Err}
use beautiful_aerc.Outbox.Payload.{Json, MoveMessagesPayload}
use beautiful_aerc.Outbox.Claim.{Claimed}
use beautiful_aerc.Outbox.Plan.{
  is_create, is_move, budgets, group_moves, wire_batch_limit, plan_batches,
}

module _ {B : Type 0} (json : Json B) where
  -- how many messages the moves of a batch name
  abbrev pub message_count : Result Err MoveMessagesPayload → ℕ
  message_count (ok p) = length p.message_ids
  message_count (err e) = 0

  abbrev pub weight : List (Claimed B) → ℕ
  weight [] = 0
  weight (c ∷ cs) = message_count (json.unmarshal_move c.payload) + weight cs

  weight-append : (cs ds : List (Claimed B)) → weight (cs ++ ds) ≡ weight cs + weight ds
  weight-append [] ds = omega arith
  weight-append (c ∷ cs) ds = omega (arith, weight-append cs ds)

  abbrev left_in : Option ℕ → ℕ
  left_in none = 0
  left_in (some n) = n

  -- what a batch has used and what is left to it stay in the budget
  Fits : ℕ → Map ℕ ℕ → Map ℕ (List (Claimed B)) → Type 0
  Fits n budget groups = (i : ℕ) → weight (lookup_or [] i groups) + left_in (lookup i budget) ≤ n

  Fits-joined :
      (n : ℕ) (budget : Map ℕ ℕ) (groups : Map ℕ (List (Claimed B))) (c : Claimed B)
      (p : MoveMessagesPayload) (left ref : ℕ)
      → Fits n budget groups
      → json.unmarshal_move c.payload ≡ ok p
      → lookup ref budget ≡ some left
      → length p.message_ids ≤ left
      → Fits n
          (assign ref (left - length p.message_ids) budget)
          (assign ref (lookup_or [] ref groups ++ c ∷ []) groups)
  unfolding Fits
  Fits-joined n budget groups c p left ref h e l fits i = elim (Bool-cases (ref == i)) [
    | inr other ↦
        rw
          (
            lookup-assign ref i (left - length p.message_ids) budget,
            lookup_or-assign [] ref i (lookup_or [] ref groups ++ c ∷ []) groups,
            other,
          )
          (h i)
    | inl same ↦
        let old : weight (lookup_or [] ref groups) + left ≤ n = rw l at (h ref) in
        let more = weight-append (lookup_or [] ref groups) (c ∷ []) in
        rw
          (
            lookup-assign ref i (left - length p.message_ids) budget,
            lookup_or-assign [] ref i (lookup_or [] ref groups ++ c ∷ []) groups,
            same,
          )
          (omega (arith, old, fits, rw e at more))
  ]

  -- the end of the second loop
  group_moves-Fits :
      (n : ℕ) (cs : List (Claimed B)) (budget : Map ℕ ℕ) (groups : Map ℕ (List (Claimed B)))
      → Fits n budget groups
      → (i : ℕ) → weight (lookup_or [] i (group_moves json cs budget groups)) ≤ n
  unfolding group_moves Fits
  group_moves-Fits n [] budget groups h i = omega (arith, h i)
  group_moves-Fits n (c ∷ cs) budget groups h i =
      let skipped = group_moves-Fits n cs budget groups h i in
      elim (Bool-cases (is_move c.kind && not c.pre_failed)) [
        | inr out ↦ rw out skipped
        | inl moves ↦ elim (Result-cases (json.unmarshal_move c.payload)) [
          | inr (x, e) ↦ rw (moves, e) skipped
          | inl (p, e) ↦ elim (Option-cases (lookup p.dest_ref budget)) [
            | inl l ↦ rw (moves, e, l) skipped
            | inr (left, l) ↦
                elim (Bool-cases (p.dest_ref == 0 || ltb left (length p.message_ids))) [
                  | inl full ↦ rw (moves, e, l, full) skipped
                  | inr room ↦
                      rw (moves, e, l, room)
                        (group_moves-Fits n cs _ _
                          (Fits-joined n budget groups c p left p.dest_ref h e l (ground arith)) i)
                ]
          ]
        ]
      ]

  budgets_bounded :
      (cs : List (Claimed B)) (limit i : ℕ) → left_in (lookup i (budgets json cs limit)) ≤ limit - 1
  unfolding budgets
  budgets_bounded [] limit i = omega arith
  budgets_bounded (c ∷ cs) limit i =
      let rest = budgets_bounded cs limit i in
      elim (Bool-cases (is_create c.kind && not c.pre_failed)) [
        | inr out ↦ rw out rest
        | inl makes ↦ elim (Result-cases (json.unmarshal_create c.payload)) [
          | inr (x, e) ↦ rw (makes, e) rest
          | inl (p, e) ↦ elim (Bool-cases (p.resolved_server_id == "")) [
            | inr made ↦ rw (makes, e, made) rest
            | inl fresh ↦
                rw (makes, e, fresh, lookup-assign c.id i (limit - 1) (budgets json cs limit))
                  (own_or_rest (c.id == i) (lookup i (budgets json cs limit)) limit rest)
          ]
        ]
      ]
    where
      own_or_rest :
          (b : Bool) (o : Option ℕ) (limit : ℕ)
          → left_in o ≤ limit - 1
          → left_in (if b then some (limit - 1) else o) ≤ limit - 1
      own_or_rest true o limit h = omega arith
      own_or_rest false o limit h = h

  -- A planned batch fits one call of the backend, whatever number of objects the backend reports:
  -- the messages that its moves name and the create that they join are within the limit.
  pub weight-plan_batches :
      (rows : List (Claimed B)) (n create_id : ℕ)
      → weight (lookup_or [] create_id (plan_batches json rows (wire_batch_limit n))) + 1
        ≤ wire_batch_limit n
  unfolding plan_batches Fits wire_batch_limit
  weight-plan_batches rows n create_id =
      let limit = wire_batch_limit n in
      let fits =
        group_moves-Fits (limit - 1) rows (budgets json rows limit) []
          (λ i. omega (arith, budgets_bounded rows limit i)) create_id in
      let positive : 0 < limit = ground arith in omega (arith, fits, positive)
