-- ===== src/Outbox/Enqueue.antt =====
-- internal/outbox/enqueue.go: new intents. `newUndoGroup` draws a random text, which the calls here
-- take as an argument.
pub mod Chunks
use beautiful_aerc.Prelude.{
  ℕ, zero, suc, String, List, [], ◌∷◌, map, Map, Result, ok, and_then, min, length, Bool, true,
  false, not, ◌==◌, nat_eq, if◌then◌else◌, take, drop, filter,
}
use beautiful_aerc.Prelude.Listed.{listed}
use beautiful_aerc.Uerr.{Err}
use beautiful_aerc.Store.{Tx}
use beautiful_aerc.Outbox.Payload.{
  Kind, create_mailbox, rename_mailbox, delete_mailbox, move_messages, Json, MoveMessagesPayload,
}
use beautiful_aerc.Outbox.Row.{Db, insert_row}
use beautiful_aerc.Outbox.Plan.{wire_batch_limit}

abbrev pub move_chunk_messages : ℕ
move_chunk_messages = 250

-- moveChunkSize of a backend that reports `n` objects
unfoldable pub move_chunk_size : ℕ → ℕ
unfolding wire_batch_limit
move_chunk_size n = min move_chunk_messages (wire_batch_limit n)

-- the loop of `chunks`, a chunk a round; `chunks` gives it a round for each id
chunks_loop : ℕ → ℕ → List ℕ → List (List ℕ)
chunks_loop fuel size [] = []
chunks_loop zero size (x ∷ xs) = []
chunks_loop (suc fuel) size (x ∷ xs) =
    take size (x ∷ xs) ∷ chunks_loop fuel size (drop size (x ∷ xs))

unfoldable pub chunks : List ℕ → ℕ → List (List ℕ)
unfolding chunks_loop
chunks ids size = chunks_loop (length ids) size ids

-- escapedIDs
unfoldable pub escaped_ids : List ℕ → List ℕ → List ℕ
escaped_ids committed annihilated = filter (λ id. not (listed id annihilated)) committed

module _ {B : Type 0} (json : Json B) where
  -- insertRow in a transaction
  abbrev pub insert : ℕ → Kind → String → ℕ → ℕ → ℕ → Db B → B → Result Err (ℕ × Db B)
  insert account_id kind undo_group chunk_seq next_attempt_at now db payload =
      let (id, rows) =
        insert_row account_id kind payload undo_group chunk_seq next_attempt_at now db.rows in
      ok (id, record db { rows = rows })

  -- enqueueSingle, for a payload marshalled as `raw`
  unfoldable pub enqueue_single : ℕ → Kind → Result Err B → String → ℕ → Tx (Db B) ℕ
  enqueue_single account_id kind raw undo_group now db =
      and_then raw (insert account_id kind undo_group 0 now now db)

  unfoldable pub enqueue_create_mailbox_tx : ℕ → String → ℕ → ℕ → String → ℕ → Tx (Db B) ℕ
  unfolding enqueue_single
  enqueue_create_mailbox_tx account_id name parent_mailbox_id parent_ref =
      enqueue_single account_id create_mailbox (
        json.marshal_create (record {
          name = name;
          parent_mailbox_id = parent_mailbox_id;
          parent_ref = parent_ref;
          parent_server_id = "";
          resolved_server_id = "";
        }))

  unfoldable pub enqueue_rename_mailbox_tx : ℕ → ℕ → String → String → ℕ → Tx (Db B) ℕ
  unfolding enqueue_single
  enqueue_rename_mailbox_tx account_id mailbox_id name =
      enqueue_single account_id rename_mailbox
        (json.marshal_rename (record { mailbox_id = mailbox_id; name = name }))

  unfoldable pub enqueue_delete_mailbox_tx : ℕ → ℕ → String → ℕ → Tx (Db B) ℕ
  unfolding enqueue_single
  enqueue_delete_mailbox_tx account_id mailbox_id =
      enqueue_single account_id delete_mailbox
        (json.marshal_delete (record { mailbox_id = mailbox_id }))

  -- the loop over the messages of a chunk
  abbrev pub prior_mailboxes : (ℕ → ℕ) → List ℕ → Map ℕ ℕ
  prior_mailboxes current ids = map (λ id. (id, current id)) ids

  abbrev pub chunk_payload : (ℕ → ℕ) → List ℕ → ℕ → ℕ → MoveMessagesPayload
  chunk_payload current message_ids dest_mailbox_id dest_ref = record {
    message_ids = message_ids;
    dest_mailbox_id = dest_mailbox_id;
    dest_ref = dest_ref;
    dest_server_id = "";
    prior_mailbox_ids = prior_mailboxes current message_ids;
  }

  unfoldable pub enqueue_chunk_tx : ℕ → List ℕ → ℕ → ℕ → String → ℕ → ℕ → ℕ → Tx (Db B) ℕ
  enqueue_chunk_tx account_id message_ids dest_mailbox_id dest_ref undo_group seq hold_until now
        db =
      and_then
        (json.marshal_move
          (chunk_payload db.current_mailbox_id message_ids dest_mailbox_id dest_ref))
        (insert account_id move_messages undo_group seq hold_until now db)
