-- ===== src/Tests.antt =====
-- What the runs below stand on: a mailbox server in memory, and payloads that are their own bytes.
pub mod Dispatch
pub mod Queue
pub mod Queries
pub mod Syncing
pub mod Mailing
pub mod Roles
pub mod Screens
pub mod Cycling
pub mod Lanes
pub mod Streams
pub mod Pointers
pub mod Sessions
use beautiful_aerc.Prelude.{
  ℕ, suc, ◌*◌, List, [], ◌∷◌, map, ◌≡◌, refl, Result, ok, err, true, false, All, length, take, ◌≤◌,
  ◌<◌, ◌⊎◌, decimal, filter, inl, inr,
}
use beautiful_aerc.Uerr.{Err, plain, failure, connection}
use beautiful_aerc.Store.{Store, Fault, clean, statement_failed, apply_interactive}
use beautiful_aerc.Backend.{Mail}
use beautiful_aerc.Outbox.Payload.{
  Kind, create_mailbox, delete_mailbox, move_messages, Json, CreateMailboxPayload,
  RenameMailboxPayload, DeleteMailboxPayload, MoveMessagesPayload, second,
}
use beautiful_aerc.Outbox.Row.{Row, Db, queued, dispatching}
use beautiful_aerc.Outbox.Claim.{Claimed, claim, fresh}
use beautiful_aerc.Outbox.World.{Dispatcher, World}
use beautiful_aerc.Outbox.Finalize.{start_pass, finalize, dispatch_once}
use beautiful_aerc.Outbox.Finalize.Released.{Released, finalize-Released}
use beautiful_aerc.Outbox.Finalize.Once.{dispatch_once-Released}
use beautiful_aerc.Outbox.Row.Accounted.{AllQueued, Accounted}
use beautiful_aerc.Outbox.Row.{
  affected, annihilable, requeue_dispatching, claim_row, annihilate, insert_row, select_eligible,
  is_eligible,
}
use beautiful_aerc.Outbox.Failure.{backoff}
use beautiful_aerc.Outbox.Failure.Backoff.{delay, backoff-eq-delay}
use beautiful_aerc.Outbox.Claim.{
  resolve_parent, resolve_claim, claim_cost, claim_row_budget, claim_message_budget,
}
use beautiful_aerc.Outbox.Claim.Accounted.{claimed_ids, claim-Accounted}
use beautiful_aerc.Outbox.Claim.Budget.{rows_of, cost_of, claim_bounds}
use beautiful_aerc.Outbox.Plan.{plan_batches, wire_batch_limit}
use beautiful_aerc.Outbox.Pass.{FinalizeAction, delete, revert, plain_action, has_action, turns}
use beautiful_aerc.Outbox.Pass.Coverage.{turns-cover}
use beautiful_aerc.Outbox.Batch.{dispatch_batch}
use beautiful_aerc.Outbox.Batch.Subject.{Whole, dispatch_batch-Whole}
use beautiful_aerc.Outbox.Undo.{annihilate_all, undo_tx, undo}
use beautiful_aerc.Outbox.Undo.Laws.{
  stays, annihilate_all-rows, annihilate_all-caught, requeue_dispatching_lem,
}
use beautiful_aerc.Outbox.Enqueue.{
  chunks, move_chunk_size, move_chunk_messages, enqueue_chunk_tx, escaped_ids,
}
use beautiful_aerc.Outbox.Enqueue.Chunks.{flatten, chunks-move_chunk_size}
use beautiful_aerc.Outbox.Bulk.{enqueue_move_messages_bulk}
use beautiful_aerc.Outbox.Bulk.Compensated.{Reported}
use beautiful_aerc.Outbox.Bulk.Reported.{enqueue_move_messages_bulk-Reported}
use beautiful_aerc.Jmap.Splice.{splice, survivors}
use beautiful_aerc.Jmap.Splice.Diff.{Shown, additions, shown_ids, splice-additions}
use beautiful_aerc.Jmap.Pointer.{pointer}
use beautiful_aerc.Jmap.Pointer.RoundTrip.{segments_of, segments_of-pointer}

pub data Wire : Type 0 where
  create_wire : CreateMailboxPayload → Wire
  rename_wire : RenameMailboxPayload → Wire
  delete_wire : DeleteMailboxPayload → Wire
  move_wire : MoveMessagesPayload → Wire

abbrev pub not_that : Err
not_that = plain "json: another payload"

abbrev pub as_create : Wire → Result Err CreateMailboxPayload
as_create (create_wire p) = ok p
as_create _ = err not_that

abbrev pub as_rename : Wire → Result Err RenameMailboxPayload
as_rename (rename_wire p) = ok p
as_rename _ = err not_that

abbrev pub as_delete : Wire → Result Err DeleteMailboxPayload
as_delete (delete_wire p) = ok p
as_delete _ = err not_that

abbrev pub as_move : Wire → Result Err MoveMessagesPayload
as_move (move_wire p) = ok p
as_move _ = err not_that

abbrev pub wire_json : Json Wire
wire_json = record {
  marshal_create = λ p. ok (create_wire p);
  marshal_rename = λ p. ok (rename_wire p);
  marshal_delete = λ p. ok (delete_wire p);
  marshal_move = λ p. ok (move_wire p);
  unmarshal_create = as_create;
  unmarshal_rename = as_rename;
  unmarshal_delete = as_delete;
  unmarshal_move = as_move;
}

-- A server that counts the mailboxes it makes; deletes fail for want of a connection.
abbrev pub server : Mail ℕ
server = record {
  max_objects_in_set = 500;
  create_mailbox = λ name parent n. (ok (decimal n), suc n);
  rename_mailbox = λ id name n. (ok tt, n);
  delete_mailbox = λ id n. (err (failure connection (plain "dial tcp: timeout")), n);
  find_mailboxes = λ name parent n. (ok [], n);
  apply_batch =
      λ mutations n. (ok (record { created = ("c1", decimal n) ∷ []; failed = [] }), suc n);
}

abbrev pub dispatcher : Dispatcher Wire ℕ
dispatcher = record { account_id = 7; mail = server; json = wire_json; quote = λ s. s }

abbrev pub new_folder : Wire
new_folder = create_wire (record {
  name = "Receipts";
  parent_mailbox_id = 0;
  parent_ref = 0;
  parent_server_id = "";
  resolved_server_id = "";
})

abbrev pub into_folder : Wire
into_folder = move_wire (record {
  message_ids = 41 ∷ 42 ∷ [];
  dest_mailbox_id = 0;
  dest_ref = 1;
  dest_server_id = "";
  prior_mailbox_ids = [];
})

abbrev pub drop_folder : Wire
drop_folder = delete_wire (record { mailbox_id = 5 })

abbrev pub intent : ℕ → Kind → Wire → Row Wire
intent id kind payload = record {
  id = id;
  account_id = 7;
  kind = kind;
  payload = payload;
  state = queued;
  undo_group = "g";
  chunk_seq = 0;
  attempt_count = 0;
  next_attempt_at = 0;
  failure_class = "";
  failure_detail = "";
  created_at = 0;
}

abbrev pub create_intent : Row Wire
create_intent = intent 1 create_mailbox new_folder

abbrev pub move_intent : Row Wire
move_intent = intent 2 move_messages into_folder

abbrev pub delete_intent : Row Wire
delete_intent = intent 3 delete_mailbox drop_folder

abbrev pub db : Db Wire
db = record {
  rows = create_intent ∷ move_intent ∷ delete_intent ∷ [];
  mailbox_server_id = λ id. "m";
  message_server_id = λ id. decimal id;
  current_mailbox_id = λ id. 5;
}

abbrev pub store : List Fault → Store (Db Wire)
store faults = record { db = db; revision = 0; log = []; faults = faults }

abbrev pub world : List Fault → World Wire ℕ
world faults = record { store = store faults; remote = 900; resolved = [] }

-- its finalize transaction fails
abbrev pub failing : World Wire ℕ
failing = world (clean ∷ clean ∷ clean ∷ clean ∷ clean ∷ statement_failed (plain "disk full") ∷ [])

abbrev pub all_queued : AllQueued db.rows
all_queued = (refl, (refl, (refl, tt)))

abbrev pub claimed_db : Db Wire
claimed_db = record db { rows = claim_row 2 (claim_row 1 db.rows) }
