-- ===== src/Outbox/Bulk.antt =====
-- internal/outbox/enqueue.go: EnqueueMoveMessagesBulk, one transaction a chunk, and what it does
-- when a chunk fails.
pub mod Appended
pub mod Compensated
pub mod Reported
use Prim.Native.String.{◌++◌ as append}
use beautiful_aerc.Prelude.{
  ℕ, ◌+◌, String, decimal, List, [], ◌∷◌, ◌++◌, map, Option, none, some, Result, ok, err, Bool, not,
  ◌==◌, nat_eq, length, if◌then◌else◌,
}
use beautiful_aerc.Uerr.{Err, plain, wrapped, error_text, LogLine, store_local}
use beautiful_aerc.Store.{Store, apply_interactive}
use beautiful_aerc.Outbox.Payload.{Json, undo_window}
use beautiful_aerc.Outbox.Row.{Db}
use beautiful_aerc.Outbox.Undo.{undo}
use beautiful_aerc.Outbox.Enqueue.{move_chunk_size, chunks, escaped_ids, enqueue_chunk_tx}

-- The ids and the error that the call returns.
pub record BulkResult : Type 0 where
  pub intent_ids : List ℕ
  pub error : Option Err

abbrev chunk_failure : ℕ → Err → String → Err
chunk_failure seq e suffix =
    wrapped
      (append "outbox: move messages: chunk "
        (append (decimal seq) (append ": " (append (error_text e) suffix))))
      e

abbrev chunk_error : ℕ → Err → String → Option Err
chunk_error seq e suffix = some (chunk_failure seq e suffix)

abbrev rolled_back_text : List ℕ → String
rolled_back_text committed =
    append " (" (append (decimal (length committed)) " earlier chunk(s) rolled back)")

abbrev not_rolled_back_text : List ℕ → Err → String
not_rolled_back_text committed e = append " (rollback of " (
    append (decimal (length committed))
      (append " earlier chunk(s) failed: " (append (error_text e) ")")))

abbrev partly_text : List ℕ → List ℕ → String
partly_text escaped committed = append " (" (
    append (decimal (length escaped)) (
      append " of " (
        append (decimal (length committed))
          " earlier chunk(s) already dispatched, not rolled back)")))

module _ {B : Type 0} where
  -- the end of compensateFailedChunk: which chunks escaped the undo
  report_escaped : List ℕ → List ℕ → ℕ → Err → Store (Db B) → BulkResult × Store (Db B)
  report_escaped [] committed seq e s =
      (record { intent_ids = []; error = chunk_error seq e (rolled_back_text committed) }, s)
  report_escaped (x ∷ xs) committed seq e s =
      let failed : Err = chunk_failure seq e (partly_text (x ∷ xs) committed) in
      let line : LogLine = record {
        op = "outbox.enqueue_move";
        ids = map decimal (x ∷ xs);
        class = store_local;
        cause = failed;
      } in
      (record { intent_ids = x ∷ xs; error = some failed }, record s { log = s.log ++ line ∷ [] })

  -- compensateFailedChunk after its undo
  unfoldable pub compensated :
      List ℕ → ℕ → Err → Result Err (List ℕ) → Store (Db B) → BulkResult × Store (Db B)
  unfolding report_escaped
  compensated committed seq e (err e') s = (
    record {
      intent_ids = committed;
      error = chunk_error seq e (not_rolled_back_text committed e');
    },
    s,
  )
  compensated committed seq e (ok annihilated) s =
      report_escaped (escaped_ids committed annihilated) committed seq e s

  unfoldable pub compensate_failed_chunk :
      List ℕ → ℕ → Err → Store (Db B) → BulkResult × Store (Db B)
  unfolding compensated
  compensate_failed_chunk [] seq e s = (record { intent_ids = []; error = chunk_error seq e "" }, s)
  compensate_failed_chunk (x ∷ xs) seq e s =
      let (r, s') = undo (x ∷ xs) s in compensated (x ∷ xs) seq e r s'

  -- the rest of a round: go on with the id that the transaction gave, or undo what was committed
  unfoldable pub next_round :
      (List ℕ → Store (Db B) → BulkResult × Store (Db B))
      → List ℕ
      → ℕ
      → Result Err ℕ
      → Store (Db B)
      → BulkResult × Store (Db B)
  unfolding compensate_failed_chunk
  next_round rest committed seq (ok id) s = rest (committed ++ id ∷ []) s
  next_round rest committed seq (err e) s = compensate_failed_chunk committed seq e s

-- `others seq` is what the rest of the process commits before chunk `seq`.
module _ {B : Type 0} (json : Json B) (others : ℕ → Store (Db B) → Store (Db B))
    (account_id dest_mailbox_id dest_ref : ℕ) (undo_group : String) (hold_until now : ℕ) where
  unfoldable pub enqueue_chunks :
      List (List ℕ) → ℕ → List ℕ → Store (Db B) → BulkResult × Store (Db B)
  unfolding next_round
  enqueue_chunks [] seq committed s = (record { intent_ids = committed; error = none }, s)
  enqueue_chunks (chunk ∷ cs) seq committed s =
      let tx =
        enqueue_chunk_tx json account_id chunk dest_mailbox_id dest_ref undo_group seq hold_until
          now in
      let (r, s') = apply_interactive tx (others seq s) in
      next_round (enqueue_chunks cs (seq + 1)) committed seq r s'

-- `max_objects` is what the backend reports of itself.
module _ {B : Type 0} (json : Json B) (others : ℕ → Store (Db B) → Store (Db B))
    (max_objects : ℕ) where
  unfoldable pub enqueue_move_messages_bulk :
      ℕ → List ℕ → ℕ → ℕ → Bool → String → ℕ → Store (Db B) → BulkResult × Store (Db B)
  unfolding enqueue_chunks
  enqueue_move_messages_bulk account_id message_ids dest_mailbox_id dest_ref undoable undo_group now
        s =
      let hold_until = now + (if undoable then undo_window else 0) in
      let both_or_neither = if dest_mailbox_id == 0 then dest_ref == 0 else not (dest_ref == 0) in
      let refusal : BulkResult = record {
        intent_ids = [];
        error =
            some (plain "outbox: move messages: exactly one of destMailboxID, destRef must be set");
      } in
      if both_or_neither
      then (refusal, s)
      else enqueue_chunks json others account_id dest_mailbox_id dest_ref undo_group hold_until now
          (chunks message_ids (move_chunk_size max_objects)) 0 [] s
