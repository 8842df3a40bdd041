-- ===== src/Outbox/Pass/Rows.antt =====
-- What the turns of a pass of internal/outbox/dispatch.go do to the outbox table.
use beautiful_aerc.Prelude.{
  nat_eq, ℕ, List, [], ◌∷◌, Map, lookup_or, Bool, true, false, arith, subst,
}
use beautiful_aerc.Outbox.Payload.{
  Kind, create_mailbox, rename_mailbox, delete_mailbox, move_messages, unknown,
}
use beautiful_aerc.Outbox.Row.{Row, update_payload}
use beautiful_aerc.Outbox.Claim.{Claimed}
use beautiful_aerc.Outbox.Outcome.{Outcome}
use beautiful_aerc.Outbox.World.{Dispatcher, World}
use beautiful_aerc.Outbox.Create.Rows.{
  dispatch_create_mailbox-keeps, dispatch_rename_mailbox-keeps, dispatch_delete_mailbox-keeps,
}
use beautiful_aerc.Outbox.Move.Rows.{dispatch_move_messages-keeps}
use beautiful_aerc.Outbox.Batch.Rows.{dispatch_batch-keeps}
use beautiful_aerc.Outbox.Pass.{
  Pass, report, record_outcome, record_outcomes, dispatch_by, dispatch_one, switch, outcomes,
  dispatched, turn_by, turn, turns, has_action,
}

module _ {B S : Type 0} (J : List (Row B) → Type 0) where
  record_outcome-keeps :
      (o : Outcome B) (p : Pass) (w : World B S)
      → J w.store.db.rows
      → J (record_outcome o (p, w)).1.store.db.rows
  unfolding record_outcome report
  record_outcome-keeps o p w j = subst J (ground arith) j

  record_outcomes-keeps :
      (os : List (Outcome B)) (s : Pass × World B S)
      → J s.1.store.db.rows
      → J (record_outcomes os s).1.store.db.rows
  unfolding record_outcomes
  record_outcomes-keeps [] s j = j
  record_outcomes-keeps (o ∷ os) s j =
      record_outcomes-keeps os (record_outcome o s) (record_outcome-keeps o s.0 s.1 j)

module _ {B S : Type 0} (J : List (Row B) → Type 0)
    (patch : (id : ℕ) (b : B) (rows : List (Row B)) → J rows → J (update_payload id b rows))
    (d : Dispatcher B S) where
  dispatch_by-keeps :
      (k : Kind) (c : Claimed B) (w : World B S)
      → J w.store.db.rows
      → J (dispatch_by d k c w).1.store.db.rows
  unfolding dispatch_by
  dispatch_by-keeps create_mailbox c = dispatch_create_mailbox-keeps J patch d c
  dispatch_by-keeps rename_mailbox c = dispatch_rename_mailbox-keeps J patch d c
  dispatch_by-keeps delete_mailbox c = dispatch_delete_mailbox-keeps J patch d c
  dispatch_by-keeps move_messages c = dispatch_move_messages-keeps J patch d c
  dispatch_by-keeps (unknown k) c = λ w j. j

  switch-keeps :
      (pre : Bool) (moves : List (Claimed B)) (c : Claimed B) (w : World B S)
      → J w.store.db.rows
      → J (switch d pre moves c w).1.store.db.rows
  unfolding switch dispatch_one
  switch-keeps true moves c w j = j
  switch-keeps false [] c w j = dispatch_by-keeps c.kind c w j
  switch-keeps false (mv ∷ mvs) c w j = dispatch_batch-keeps J patch d c (mv ∷ mvs) w j

  module _ (groups : Map ℕ (List (Claimed B))) where
    turn_by-keeps :
        (done stopped : Bool) (c : Claimed B) (s : Pass × World B S)
        → J s.1.store.db.rows
        → J (turn_by d done stopped groups c s).1.store.db.rows
    unfolding turn_by dispatched outcomes
    turn_by-keeps true stopped c s j = j
    turn_by-keeps false true c s j = j
    turn_by-keeps false false c s j =
        record_outcomes-keeps J (outcomes d groups c s.1).0 (s.0, (outcomes d groups c s.1).1)
          (switch-keeps c.pre_failed (lookup_or [] c.id groups) c s.1 j)

    pub turns-keeps :
        (cs : List (Claimed B)) (s : Pass × World B S)
        → J s.1.store.db.rows
        → J (turns d groups cs s).1.store.db.rows
    unfolding turns turn
    turns-keeps [] s j = j
    turns-keeps (c ∷ cs) s j =
        turns-keeps cs (turn d groups c s)
          (turn_by-keeps (has_action c.id s.0.actions) s.0.stopped c s j)
