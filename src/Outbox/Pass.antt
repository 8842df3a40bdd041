-- ===== src/Outbox/Pass.antt =====
-- internal/outbox/dispatch.go: one turn of a pass for each claimed intent, and the write that each
-- is owed.
pub mod Coverage
pub mod Rows
use Prim.Native.String.{◌++◌ as append}
use beautiful_aerc.Prelude.{
  ℕ, String, List, [], ◌∷◌, ◌++◌, map, Map, lookup_or, Option, Bool, true, false, ◌||◌, ◌==◌,
  nat_eq, string_eq, if◌then◌else◌,
}
use beautiful_aerc.Uerr.{Class, connection, class_string, LogLine, plain}
use beautiful_aerc.Outbox.Payload.{
  Kind, create_mailbox, rename_mailbox, delete_mailbox, move_messages, unknown, MoveMessagesPayload,
}
use beautiful_aerc.Outbox.Failure.{is_warn, should_log_failure}
use beautiful_aerc.Outbox.Claim.{Claimed}
use beautiful_aerc.Outbox.Outcome.{
  Disposition, delivered, retry, terminal, Outcome, failed_outcome, terminal_outcome,
}
use beautiful_aerc.Outbox.World.{Dispatcher, World}
use beautiful_aerc.Outbox.Create.{
  dispatch_create_mailbox, dispatch_rename_mailbox, dispatch_delete_mailbox,
}
use beautiful_aerc.Outbox.Move.{dispatch_move_messages}
use beautiful_aerc.Outbox.Batch.{dispatch_batch}

pub record Delivered : Type 0 where
  pub intent_id : ℕ
  pub undo_group : String
  pub kind : Kind
  pub move : Option MoveMessagesPayload

pub record Failure : Type 0 where
  pub intent_id : ℕ
  pub undo_group : String
  pub class : Class
  pub detail : String
  pub retrying : Bool
  pub warn : Bool

pub data FinalizeVerb : Type 0 where
  delete requeue revert : FinalizeVerb

pub record FinalizeAction : Type 0 where
  pub id : ℕ
  pub attempt : ℕ
  pub verb : FinalizeVerb
  pub class : String
  pub detail : String

-- The variables of the loop. The map `finalized` holds the ids of the actions.
pub record Pass : Type 0 where
  pub delivered : List Delivered
  pub failures : List Failure
  pub actions : List FinalizeAction
  pub stopped : Bool

abbrev pub has_action : ℕ → List FinalizeAction → Bool
has_action id [] = false
has_action id (a ∷ as') = a.id == id || has_action id as'

abbrev pub plain_action : ℕ → FinalizeVerb → FinalizeAction
plain_action id verb = record { id = id; attempt = 0; verb = verb; class = ""; detail = "" }

abbrev pub finalize_with : FinalizeAction → Pass → Pass
finalize_with a p = record p { actions = p.actions ++ a ∷ [] }

abbrev values : Map ℕ String → List String
values = map (λ e. e.1)

abbrev failure_ids_by : {B : Type 0} → Kind → Claimed B → List String
failure_ids_by move_messages c = values c.message_server_ids
failure_ids_by rename_mailbox c = if c.mailbox_server_id == "" then [] else c.mailbox_server_id ∷ []
failure_ids_by delete_mailbox c = if c.mailbox_server_id == "" then [] else c.mailbox_server_id ∷ []
failure_ids_by _ c = []

abbrev pub connection_class : Class → Bool
connection_class connection = true
connection_class _ = false

abbrev pub retries : Disposition → Bool
retries retry = true
retries _ = false

module _ {B : Type 0} where
  unfoldable pub failure_ids : Claimed B → List String
  failure_ids c = failure_ids_by c.kind c

  -- the log line of `uerr.New`, where the failure is new
  abbrev failure_line : Outcome B → List LogLine
  failure_line o =
      let c = o.c in
      let line : LogLine = record {
        op = "outbox.dispatch";
        ids = failure_ids c;
        class = o.class;
        cause = plain o.detail;
      } in
      if should_log_failure c.failure_class o.class (retries o.disposition) then line ∷ [] else []

  abbrev pub failure_of : Outcome B → Failure
  failure_of o = record {
    intent_id = o.c.id;
    undo_group = o.c.undo_group;
    class = o.class;
    detail = o.detail;
    retrying = retries o.disposition;
    warn = is_warn o.class;
  }

  unfoldable pub action_of : Outcome B → FinalizeAction
  action_of o =
      if retries o.disposition
      then record {
        id = o.c.id;
        attempt = o.c.attempt_count;
        verb = requeue;
        class = class_string o.class;
        detail = o.detail;
      }
      else plain_action o.c.id delete

  abbrev pub write_log : {S : Type 0} → List LogLine → World B S → World B S
  write_log lines w = record w { store = record w.store { log = w.store.log ++ lines } }

  -- report
  unfoldable pub report : {S : Type 0} → Outcome B → Pass × World B S → Pass × World B S
  unfolding action_of
  report o (p, w) = (
    finalize_with (action_of o) (record p {
      failures = p.failures ++ failure_of o ∷ [];
      stopped = p.stopped || connection_class o.class;
    }),
    write_log (failure_line o) w,
  )

  -- the inner loop's body: one outcome of the turn
  unfoldable pub record_outcome : {S : Type 0} → Outcome B → Pass × World B S → Pass × World B S
  unfolding report
  record_outcome o (p, w) =
      let c = o.c in
      let entry : Delivered = record {
        intent_id = c.id;
        undo_group = c.undo_group;
        kind = c.kind;
        move = o.move;
      } in
      elim o.disposition [
        | delivered ↦ (
          finalize_with (plain_action c.id delete)
              (record p { delivered = p.delivered ++ entry ∷ [] }),
          w,
        )
        | retry ↦ report o (p, w)
        | terminal ↦ report o (p, w)
      ]

  unfoldable pub record_outcomes :
      {S : Type 0} → List (Outcome B) → Pass × World B S → Pass × World B S
  unfolding record_outcome
  record_outcomes [] s = s
  record_outcomes (o ∷ os) s = record_outcomes os (record_outcome o s)

module _ {B S : Type 0} (d : Dispatcher B S) where
  dispatch_by : Kind → Claimed B → World B S → Outcome B × World B S
  dispatch_by create_mailbox c w = dispatch_create_mailbox d c w
  dispatch_by rename_mailbox c w = dispatch_rename_mailbox d c w
  dispatch_by delete_mailbox c w = dispatch_delete_mailbox d c w
  dispatch_by move_messages c w = dispatch_move_messages d c w
  dispatch_by (unknown k) c w =
      (terminal_outcome c Class.store_local (append "unknown kind " (d.quote k)), w)

  unfoldable pub dispatch_one : Claimed B → World B S → Outcome B × World B S
  unfolding dispatch_by
  dispatch_one c w = dispatch_by c.kind c w

  -- the `switch` of a turn, on `c.preFailed` and `groups[c.id]`
  switch : Bool → List (Claimed B) → Claimed B → World B S → List (Outcome B) × World B S
  switch true moves c w = (failed_outcome c c.class c.detail ∷ [], w)
  switch false [] c w = let (o, w') = dispatch_one c w in (o ∷ [], w')
  switch false (mv ∷ mvs) c w = dispatch_batch d c (mv ∷ mvs) w

  unfoldable pub outcomes :
      Map ℕ (List (Claimed B)) → Claimed B → World B S → List (Outcome B) × World B S
  unfolding switch
  outcomes groups c w = switch c.pre_failed (lookup_or [] c.id groups) c w

  dispatched : Map ℕ (List (Claimed B)) → Claimed B → Pass × World B S → Pass × World B S
  dispatched groups c (p, w) = let (os, w') = outcomes groups c w in record_outcomes os (p, w')

  -- a turn that finds its row finalized, or the pass stopped, or neither
  turn_by : Bool → Bool → Map ℕ (List (Claimed B)) → Claimed B → Pass × World B S → Pass × World B S
  unfolding dispatched
  turn_by true stopped groups c s = s
  turn_by false true groups c (p, w) = (finalize_with (plain_action c.id revert) p, w)
  turn_by false false groups c s = dispatched groups c s

  unfoldable pub turn : Map ℕ (List (Claimed B)) → Claimed B → Pass × World B S → Pass × World B S
  unfolding turn_by
  turn groups c s = turn_by (has_action c.id s.0.actions) s.0.stopped groups c s

  unfoldable pub turns :
      Map ℕ (List (Claimed B)) → List (Claimed B) → Pass × World B S → Pass × World B S
  turns groups [] s = s
  turns groups (c ∷ cs) s = turns groups cs (turn groups c s)
