-- ===== src/Tests/Queue.antt =====
-- The enqueueing and undoing of intents at concrete values.
use beautiful_aerc.Prelude.{[], ◌∷◌, map, ◌≡◌, refl, true, All, length, ◌≤◌, ◌<◌, filter}
use beautiful_aerc.Uerr.{plain}
use beautiful_aerc.Store.{clean, statement_failed, apply_interactive}
use beautiful_aerc.Outbox.Row.{Row, queued}
use beautiful_aerc.Outbox.Row.{requeue_dispatching, annihilate, insert_row}
use beautiful_aerc.Outbox.Failure.{backoff}
use beautiful_aerc.Outbox.Failure.Backoff.{delay, backoff-eq-delay}
use beautiful_aerc.Outbox.Plan.{wire_batch_limit}
use beautiful_aerc.Outbox.Undo.{annihilate_all, undo}
use beautiful_aerc.Outbox.Undo.Laws.{stays, annihilate_all-rows, requeue_dispatching_lem}
use beautiful_aerc.Outbox.Enqueue.{
  chunks, move_chunk_size, move_chunk_messages, enqueue_chunk_tx, escaped_ids,
}
use beautiful_aerc.Outbox.Enqueue.Chunks.{flatten, chunks-move_chunk_size}
use beautiful_aerc.Outbox.Bulk.{enqueue_move_messages_bulk}
use beautiful_aerc.Outbox.Bulk.Compensated.{Reported}
use beautiful_aerc.Outbox.Bulk.Reported.{enqueue_move_messages_bulk-Reported}
use beautiful_aerc.Tests.{Wire, wire_json, store, claimed_db}

enqueue_move_messages_bulk-Reported_example :
    Reported
      (store []).db.rows
      (length (chunks (41 ∷ 42 ∷ 43 ∷ []) (move_chunk_size 2)))
      (enqueue_move_messages_bulk wire_json
        (λ _ s. s)
        2
        7
        (41 ∷ 42 ∷ 43 ∷ [])
        5
        0
        true
        "u"
        9
        (store (clean ∷ statement_failed (plain "disk full") ∷ []))).0
      (enqueue_move_messages_bulk wire_json
        (λ _ s. s)
        2
        7
        (41 ∷ 42 ∷ 43 ∷ [])
        5
        0
        true
        "u"
        9
        (store (clean ∷ statement_failed (plain "disk full") ∷ []))).1
enqueue_move_messages_bulk-Reported_example =
    enqueue_move_messages_bulk-Reported wire_json 2 7 (41 ∷ 42 ∷ 43 ∷ []) 5 0 true "u" 9
      (store (clean ∷ statement_failed (plain "disk full") ∷ []))

-- the second chunk fails, and the first is taken back
rolled_back_after :
    map
      (λ (r : Row Wire). r.id)
      (enqueue_move_messages_bulk wire_json
        (λ _ s. s)
        2
        7
        (41 ∷ 42 ∷ 43 ∷ [])
        5
        0
        true
        "u"
        9
        (store (clean ∷ statement_failed (plain "disk full") ∷ []))).1.db.rows
    ≡ 1 ∷ 2 ∷ 3 ∷ []
unfolding enqueue_move_messages_bulk chunks apply_interactive enqueue_chunk_tx move_chunk_size undo
    escaped_ids annihilate insert_row
rolled_back_after = refl

chunks-move_chunk_size_example :
    (flatten (chunks (41 ∷ 42 ∷ 43 ∷ []) (move_chunk_size 2)) ≡ 41 ∷ 42 ∷ 43 ∷ [])
    × All
        (λ c. (0 < length c) × (length c ≤ move_chunk_messages) × (length c ≤ wire_batch_limit 2))
        (chunks (41 ∷ 42 ∷ 43 ∷ []) (move_chunk_size 2))
chunks-move_chunk_size_example = chunks-move_chunk_size 2 (41 ∷ 42 ∷ 43 ∷ [])

annihilate_all-rows_example :
    (annihilate_all (1 ∷ 3 ∷ []) claimed_db.rows).1 ≡ filter (stays (1 ∷ 3 ∷ [])) claimed_db.rows
annihilate_all-rows_example = annihilate_all-rows (1 ∷ 3 ∷ []) claimed_db.rows

requeue_dispatching_lem_example :
    ((requeue_dispatching claimed_db.rows).1
      ≡ map {A = Row Wire} {B = Row Wire} (λ r. record r { state = queued }) claimed_db.rows)
    × ((requeue_dispatching (requeue_dispatching claimed_db.rows).1).0 ≡ 0)
requeue_dispatching_lem_example = requeue_dispatching_lem claimed_db.rows

backoff-eq-delay_example : backoff 70 ≡ delay 70
backoff-eq-delay_example = backoff-eq-delay 70
