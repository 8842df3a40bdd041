-- ===== src/Outbox/Plan.antt =====
-- internal/outbox/dispatch.go: planBatches, which groups a create with the moves that fill it.
pub mod Limit
use beautiful_aerc.Prelude.{
  ℕ, ◌-◌, List, [], ◌∷◌, ◌++◌, Map, lookup, lookup_or, assign, none, some, ok, err, Bool, true,
  false, not, ◌&&◌, ◌||◌, ltb, ◌==◌, nat_eq, string_eq, if◌then◌else◌, length,
}
use beautiful_aerc.Outbox.Payload.{Kind, create_mailbox, move_messages, Json}
use beautiful_aerc.Outbox.Claim.{Claimed}

abbrev pub default_wire_batch : ℕ
default_wire_batch = 50

-- wireBatchLimit of a backend that reports `n` objects
unfoldable pub wire_batch_limit : ℕ → ℕ
wire_batch_limit n = if ltb 0 n then n else default_wire_batch

abbrev pub is_create : Kind → Bool
is_create create_mailbox = true
is_create _ = false

abbrev pub is_move : Kind → Bool
is_move move_messages = true
is_move _ = false

module _ {B : Type 0} (json : Json B) where
  -- the first loop: a create that is still to be made has its batch's budget
  unfoldable pub budgets : List (Claimed B) → ℕ → Map ℕ ℕ
  budgets [] limit = []
  budgets (c ∷ cs) limit =
      let rest = budgets cs limit in
      if is_create c.kind && not c.pre_failed
      then elim (json.unmarshal_create c.payload) [
        | err _ ↦ rest
        | ok p ↦ if p.resolved_server_id == "" then assign c.id (limit - 1) rest else rest
      ]
      else rest

  -- the second loop: a move joins the batch of its destination while the budget lasts
  unfoldable pub group_moves :
      List (Claimed B) → Map ℕ ℕ → Map ℕ (List (Claimed B)) → Map ℕ (List (Claimed B))
  group_moves [] budget groups = groups
  group_moves (c ∷ cs) budget groups =
      let skipped = group_moves cs budget groups in
      if is_move c.kind && not c.pre_failed
      then elim (json.unmarshal_move c.payload) [
        | err _ ↦ skipped
        | ok p ↦ elim (lookup p.dest_ref budget) [
          | none ↦ skipped
          | some left ↦
              let joined =
                group_moves cs (assign p.dest_ref (left - length p.message_ids) budget)
                  (assign p.dest_ref (lookup_or [] p.dest_ref groups ++ c ∷ []) groups) in
              if p.dest_ref == 0 || ltb left (length p.message_ids) then skipped else joined
        ]
      ]
      else skipped

  unfoldable pub plan_batches : List (Claimed B) → ℕ → Map ℕ (List (Claimed B))
  unfolding budgets group_moves
  plan_batches rows limit = group_moves rows (budgets rows limit) []
