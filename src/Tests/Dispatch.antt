-- ===== src/Tests/Dispatch.antt =====
-- Passes and claims of the outbox at concrete values.
use beautiful_aerc.Prelude.{
  arith, ◌+◌, lookup_or, nat_eq, ℕ, ◌*◌, List, [], ◌∷◌, ◌≡◌, refl, ok, true, All, length, take, ◌≤◌,
  ◌<◌, ◌⊎◌, filter, inl, inr,
}
use beautiful_aerc.Outbox.Payload.{second}
use beautiful_aerc.Outbox.Row.{Db, dispatching}
use beautiful_aerc.Outbox.Claim.{Claimed, claim, fresh}
use beautiful_aerc.Outbox.Finalize.{start_pass, finalize, dispatch_once}
use beautiful_aerc.Outbox.Finalize.Released.{Released, finalize-Released}
use beautiful_aerc.Outbox.Finalize.Once.{dispatch_once-Released}
use beautiful_aerc.Outbox.Row.{claim_row, select_eligible, is_eligible}
use beautiful_aerc.Outbox.Claim.{
  resolve_parent, resolve_claim, claim_cost, claim_row_budget, claim_message_budget,
}
use beautiful_aerc.Outbox.Row.Accounted.{Accounted}
use beautiful_aerc.Outbox.Claim.Accounted.{claimed_ids, claim-Accounted}
use beautiful_aerc.Outbox.Claim.Budget.{rows_of, cost_of, claim_bounds}
use beautiful_aerc.Outbox.Dependents.{resolve_loop, resolve_dependent_refs}
use beautiful_aerc.Outbox.Dependents.Fuel.{resolve_dependent_refs-eq-resolve_loop}
use beautiful_aerc.Outbox.Plan.Limit.{weight, weight-plan_batches}
use beautiful_aerc.Outbox.Plan.{wire_batch_limit, plan_batches}
use beautiful_aerc.Outbox.Pass.{FinalizeAction, delete, revert, plain_action, has_action, turns}
use beautiful_aerc.Outbox.Pass.Coverage.{turns-cover}
use beautiful_aerc.Outbox.Batch.{dispatch_batch}
use beautiful_aerc.Outbox.Batch.Subject.{Whole, dispatch_batch-Whole}
use beautiful_aerc.Tests.{
  Wire, wire_json, dispatcher, create_intent, move_intent, delete_intent, db, store, world, failing,
  all_queued, claimed_db,
}

dispatch_once-Released_example :
    Released
      (dispatch_once dispatcher (100 * second) failing).0
      (dispatch_once dispatcher (100 * second) failing).1.store.db.rows
dispatch_once-Released_example = dispatch_once-Released dispatcher (100 * second) failing all_queued

abbrev actions : List FinalizeAction
actions = plain_action 1 delete ∷ plain_action 2 revert ∷ plain_action 3 delete ∷ []

finalize-Released_example :
    Released
      (finalize actions (100 * second) (record (store []) { db = claimed_db })).0
      (finalize actions (100 * second) (record (store []) { db = claimed_db })).1.db.rows
unfolding claim_row
finalize-Released_example =
    finalize-Released actions (100 * second) (record (store []) { db = claimed_db })
      (inr refl, (inr refl, (inl refl, tt)))

abbrev claims : List (Claimed Wire)
claims =
    resolve_parent db (fresh create_intent) (record {
      name = "Receipts";
      parent_mailbox_id = 0;
      parent_ref = 0;
      parent_server_id = "";
      resolved_server_id = "";
    })
    ∷ fresh move_intent
    ∷ []

turns-cover_example :
    All
      (λ c.
        has_action c.id
          (turns dispatcher
            (plan_batches wire_json claims 500)
            claims
            (start_pass dispatcher, failing)).0.actions
        ≡ true)
      claims
turns-cover_example =
    turns-cover dispatcher (plan_batches wire_json claims 500) claims
      (start_pass dispatcher, failing)

dispatch_batch-Whole_example :
    Whole dispatcher
      (fresh create_intent)
      (fresh move_intent ∷ [])
      (dispatch_batch dispatcher (fresh create_intent) (fresh move_intent ∷ []) (world [])).0
dispatch_batch-Whole_example =
    dispatch_batch-Whole dispatcher (fresh create_intent) (fresh move_intent ∷ []) (world [])

-- A claim of one intent: its mailbox has the id "m".
abbrev one : Db Wire
one = record db { rows = delete_intent ∷ [] }

abbrev one_claimed : Db Wire
one_claimed = record db { rows = record delete_intent { state = dispatching } ∷ [] }

abbrev one_claim : List (Claimed Wire)
one_claim = record (fresh delete_intent) { mailbox_server_id = "m" } ∷ []

claims_one : claim wire_json 7 second one ≡ ok (one_claim, one_claimed)
unfolding claim claim_row resolve_claim select_eligible is_eligible claim_cost
claims_one = refl

claim_bounds_example :
    ((k : ℕ) × (rows_of wire_json one_claim ≡ take k (filter (is_eligible 7 second) one.rows)))
    × (length one_claim ≤ claim_row_budget)
    × ((cost_of wire_json one_claim ≤ claim_message_budget) ⊎ (length one_claim ≡ 1))
    × ((filter (is_eligible 7 second) one.rows ≡ []) ⊎ (0 < length one_claim))
claim_bounds_example = claim_bounds wire_json 7 second one one_claimed one_claim claims_one

claim-Accounted_example : Accounted (claimed_ids one_claim) one_claimed.rows
claim-Accounted_example =
    claim-Accounted wire_json 7 second one one_claimed one_claim claims_one (refl, tt)

weight-plan_batches_example :
    weight wire_json (lookup_or [] 1 (plan_batches wire_json claims (wire_batch_limit 3))) + 1
    ≤ wire_batch_limit 3
weight-plan_batches_example = weight-plan_batches wire_json claims 3 1

resolve_dependent_refs-eq-resolve_loop_example :
    resolve_dependent_refs wire_json 7 1 "m9" (store [])
    ≡ resolve_loop wire_json 50 7 1 "m9" 0 (store [])
resolve_dependent_refs-eq-resolve_loop_example =
    resolve_dependent_refs-eq-resolve_loop wire_json 7 1 "m9" 50 (store []) (omega arith)
