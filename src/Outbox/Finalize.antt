-- ===== src/Outbox/Finalize.antt =====
-- internal/outbox/dispatch.go: the writes that end a pass, their recovery, and DispatchOnce.
pub mod Released
pub mod Once
use beautiful_aerc.Prelude.{
  ℕ, ◌+◌, List, [], ◌∷◌, Result, ok, err, Exec, ◌>>=◌, ◌>>◌, pure, Bool, true, false, if◌then◌else◌,
}
use beautiful_aerc.Uerr.{Err, joined}
use beautiful_aerc.Store.{Store, Tx, apply_interactive, query}
use beautiful_aerc.Outbox.Row.{
  Row, Db, is_eligible, delete_row, revert_row, requeue_row, recover_row,
}
use beautiful_aerc.Outbox.Failure.{backoff}
use beautiful_aerc.Outbox.Claim.{Claimed, claim}
use beautiful_aerc.Outbox.Plan.{wire_batch_limit, plan_batches}
use beautiful_aerc.Outbox.World.{Dispatcher, World, on_store, transact}
use beautiful_aerc.Outbox.Pass.{
  Delivered, Failure, FinalizeVerb, delete, requeue, revert, FinalizeAction, Pass, turns,
}

pub record DispatchResult : Type 0 where
  pub delivered : List Delivered
  pub failures : List Failure

abbrev pub no_result : DispatchResult
no_result = record { delivered = []; failures = [] }

module _ {B : Type 0} where
  apply_by : FinalizeVerb → FinalizeAction → ℕ → List (Row B) → List (Row B)
  apply_by delete a now = delete_row a.id
  apply_by revert a now = revert_row a.id
  apply_by requeue a now = requeue_row a.id (now + backoff a.attempt) a.class a.detail

  unfoldable pub apply_action : FinalizeAction → ℕ → List (Row B) → List (Row B)
  unfolding apply_by
  apply_action a now = apply_by a.verb a now

  recover_by : FinalizeVerb → FinalizeAction → ℕ → List (Row B) → List (Row B)
  recover_by requeue a now = recover_row a.id (now + backoff a.attempt) a.class
  recover_by _ a now = revert_row a.id

  -- finalizeAction.revert
  unfoldable pub revert_action : FinalizeAction → ℕ → List (Row B) → List (Row B)
  unfolding recover_by
  revert_action a now = recover_by a.verb a now

  -- the loop of either transaction
  unfoldable pub each_action :
      (FinalizeAction → ℕ → List (Row B) → List (Row B))
      → List FinalizeAction
      → ℕ
      → List (Row B)
      → List (Row B)
  each_action f [] now rows = rows
  each_action f (a ∷ as') now rows = each_action f as' now (f a now rows)

  unfoldable pub each_action_tx :
      (FinalizeAction → ℕ → List (Row B) → List (Row B))
      → List FinalizeAction
      → ℕ
      → Tx (Db B) (Unit {0})
  unfolding each_action
  each_action_tx f actions now db = ok (tt, record db { rows = each_action f actions now db.rows })

  -- what `finalize` returns after its recovery
  unfoldable pub recovered :
      Err → Result Err (Unit {0}) → Store (Db B) → Result Err (Unit {0}) × Store (Db B)
  recovered e (ok _) s = (err e, s)
  recovered e (err e') s = (err (joined e e'), s)

  unfoldable pub finalized :
      List FinalizeAction
      → ℕ
      → Result Err (Unit {0})
      → Store (Db B)
      → Result Err (Unit {0}) × Store (Db B)
  unfolding each_action_tx recovered
  finalized actions now (ok _) s = (ok tt, s)
  finalized actions now (err e) s =
      let (r', s') = apply_interactive (each_action_tx revert_action actions now) s in
      recovered e r' s'

  unfoldable pub finalize : List FinalizeAction → ℕ → Exec (Store (Db B)) Err (Unit {0})
  unfolding finalized
  finalize actions now s =
      let (r, s') = apply_interactive (each_action_tx apply_action actions now) s in
      finalized actions now r s'

  abbrev pub any : (Row B → Bool) → List (Row B) → Bool
  any p [] = false
  any p (r ∷ rs) = if p r then true else any p rs

  -- HasEligibleIntents
  unfoldable pub has_eligible_intents : ℕ → ℕ → Exec (Store (Db B)) Err Bool
  has_eligible_intents account_id now =
      query "store.read" λ db. any (is_eligible account_id now) db.rows

module _ {B S : Type 0} (d : Dispatcher B S) where
  abbrev pub start_pass : Pass
  start_pass = record { delivered = []; failures = []; actions = []; stopped = false }

  unfoldable pub run_pass : List (Claimed B) → World B S → Pass × World B S
  run_pass rows w =
      turns d (plan_batches d.json rows (wire_batch_limit d.mail.max_objects_in_set)) rows
        (start_pass, record w { resolved = [] })

  end_pass : ℕ → Pass → Exec (World B S) Err DispatchResult
  unfolding finalize
  end_pass now p = do
    on_store (finalize p.actions now)
    pure (record { delivered = p.delivered; failures = p.failures })

  -- the pass over what was claimed, and its finalize transaction
  unfoldable pub finish_pass : ℕ → List (Claimed B) → Exec (World B S) Err DispatchResult
  unfolding run_pass end_pass
  finish_pass now [] w = pure no_result w
  finish_pass now (c ∷ cs) w = let (p, w') = run_pass (c ∷ cs) w in end_pass now p w'

  claim_and_finish : ℕ → Exec (World B S) Err DispatchResult
  unfolding finish_pass transact
  claim_and_finish now = do rows ← transact (claim d.json d.account_id now); finish_pass now rows

  unfoldable pub dispatch_once : ℕ → Exec (World B S) Err DispatchResult
  unfolding claim_and_finish has_eligible_intents
  dispatch_once now = do
    eligible ← on_store (has_eligible_intents d.account_id now)
    if eligible then claim_and_finish now else pure no_result
