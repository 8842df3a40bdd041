-- ===== src/Outbox/Bulk/Reported.antt =====
-- What EnqueueMoveMessagesBulk of internal/outbox/enqueue.go reports, against what it leaves.
use mathlib.Core.List.{append-nil, append_assoc}
use beautiful_aerc.Prelude.{
  ℕ, suc, ◌+◌, max, String, List, [], ◌∷◌, ◌++◌, ◌≡◌, refl, ap, ◌∙◌, sym, arith, Bool, true, Result,
  ok, err, length, length-append, if◌then◌else◌, not, ◌==◌, nat_eq, Bool-cases, inl, inr,
}
use beautiful_aerc.Uerr.{Err}
use beautiful_aerc.Store.{Store, Tx}
use beautiful_aerc.Store.Transactions.{Transacted, committed, rolled_back, transacted}
use beautiful_aerc.Outbox.Payload.{Json, undo_window}
use beautiful_aerc.Outbox.Row.{Row, Db, is_queued, max_id}
use beautiful_aerc.Outbox.Enqueue.{chunks, move_chunk_size, enqueue_chunk_tx}
use beautiful_aerc.Outbox.Bulk.{BulkResult, next_round, enqueue_chunks, enqueue_move_messages_bulk}
use beautiful_aerc.Outbox.Bulk.Appended.{row_ids, Appended, Appended-append, max_id-append}
use beautiful_aerc.Outbox.Bulk.Compensated.{
  ok-eq, Reported, row_ids-append, chunk_row, Reported-failed,
}

module _ {B : Type 0} where
  -- The rows that a chunk's transaction leaves, after those of the earlier chunks.
  another :
      (rows new : List (Row B)) (db db' : Db B) (r : Row B) (ids : List ℕ) (id : ℕ)
      → ids ≡ row_ids new
      → db.rows ≡ rows ++ new
      → Appended (max_id rows) new
      → db'.rows ≡ db.rows ++ r ∷ []
      → id ≡ r.id
      → r.id ≡ max_id db.rows + 1
      → is_queued r.state ≡ true
      → (ids ++ id ∷ [] ≡ row_ids (new ++ r ∷ []))
        × (db'.rows ≡ rows ++ (new ++ r ∷ []))
        × Appended (max_id rows) (new ++ r ∷ [])
  another rows new db db' r ids id h same a more own next q =
      let bound : r.id ≡ max (max_id rows) (max_id new) + 1 =
        next ∙ ap (λ rs. max_id rs + 1) same ∙ ap (λ m. m + 1) (max_id-append rows new) in
      (
        rw (h, own, row_ids-append) refl,
        more ∙ ap (λ rs. rs ++ r ∷ []) same ∙ append_assoc rows new (r ∷ []),
        Appended-append (max_id rows) new r a (omega (arith, bound)) (omega (arith, bound)) q,
      )

  module _ (json : Json B) (account_id dest_mailbox_id dest_ref : ℕ) (undo_group : String)
      (hold_until now : ℕ) (rows : List (Row B)) (n : ℕ) where
    abbrev all_chunks : List (List ℕ) → ℕ → List ℕ → Store (Db B) → BulkResult × Store (Db B)
    all_chunks =
        enqueue_chunks json (λ _ s. s) account_id dest_mailbox_id dest_ref undo_group hold_until now

    abbrev chunk_tx : List ℕ → ℕ → Tx (Db B) ℕ
    chunk_tx c seq =
        enqueue_chunk_tx json account_id c dest_mailbox_id dest_ref undo_group seq hold_until now

    -- what the rounds that are left do after `new`
    abbrev Rest : ℕ → (List ℕ → Store (Db B) → BulkResult × Store (Db B)) → Type 0
    Rest left rest =
        (ids : List ℕ) (new : List (Row B)) (s : Store (Db B))
        → ids ≡ row_ids new
        → s.db.rows ≡ rows ++ new
        → Appended (max_id rows) new
        → length new + left ≡ n
        → Reported rows n (rest ids s).0 (rest ids s).1

    Reported-round :
        (c : List ℕ) (left seq : ℕ) (rest : List ℕ → Store (Db B) → BulkResult × Store (Db B))
        (ids : List ℕ) (new : List (Row B)) (s : Store (Db B)) (r : Result Err ℕ) (t : Store (Db B))
        → Rest left rest
        → Transacted (chunk_tx c seq) s r t
        → ids ≡ row_ids new
        → s.db.rows ≡ rows ++ new
        → Appended (max_id rows) new
        → length new + suc left ≡ n
        → Reported rows n (next_round rest ids seq r t).0 (next_round rest ids seq r t).1
    unfolding next_round
    Reported-round c left seq rest ids new s (ok id) t go (rolled_back e q kept v) h same a l =
        ground arith
    Reported-round c left seq rest ids new s (err e) t go (committed id db ran q kept v) h same a
          l =
        ground arith
    Reported-round c left seq rest ids new s (err e) t go (rolled_back e' q kept v) h same a l =
        Reported-failed rows n ids new seq e t h (ap (λ (db : Db B). db.rows) kept ∙ same) a
    Reported-round c left seq rest ids new s (ok id) t go (committed id' db ran q kept v) h same a
          l =
        let (r, more, own, next, queued) =
          chunk_row json account_id c dest_mailbox_id dest_ref undo_group seq hold_until now s.db db
            id' ran in
        let (h', same', a') =
          another rows new s.db db r ids id h same a more (ok-eq q ∙ own) next queued in
        go (ids ++ id ∷ []) (new ++ r ∷ []) t h' (ap (λ (db : Db B). db.rows) kept ∙ same') a'
          (omega (arith, l, length-append new (r ∷ [])))

    reported_chunks : (cs : List (List ℕ)) (seq : ℕ) → Rest (length cs) (all_chunks cs seq)
    unfolding enqueue_chunks
    reported_chunks [] seq ids new s h same a l = (new, same, h, a, inl (omega (arith, l)))
    reported_chunks (c ∷ cs) seq ids new s h same a l =
        Reported-round c (length cs) seq (all_chunks cs (seq + 1)) ids new s _ _
          (reported_chunks cs (seq + 1)) (transacted (chunk_tx c seq) s) h same a l

  -- Where nothing else writes to the outbox during the call, a bulk move returns exactly the ids of
  -- the intents that it leaves in the table: those are queued and stand after the rows that were
  -- there, which are unchanged. There is one for each chunk of the messages, or an error. This
  -- holds whatever transaction fails, also the one that takes the earlier chunks back.
  pub enqueue_move_messages_bulk-Reported :
      (json : Json B) (max_objects account_id : ℕ) (message_ids : List ℕ)
      (dest_mailbox_id dest_ref : ℕ) (undoable : Bool) (undo_group : String) (now : ℕ)
      (s : Store (Db B))
      → Reported s.db.rows
          (length (chunks message_ids (move_chunk_size max_objects)))
          (enqueue_move_messages_bulk json
            (λ _ s. s)
            max_objects
            account_id
            message_ids
            dest_mailbox_id
            dest_ref
            undoable
            undo_group
            now
            s).0
          (enqueue_move_messages_bulk json
            (λ _ s. s)
            max_objects
            account_id
            message_ids
            dest_mailbox_id
            dest_ref
            undoable
            undo_group
            now
            s).1
  unfolding enqueue_move_messages_bulk
  enqueue_move_messages_bulk-Reported json max_objects account_id message_ids dest_mailbox_id
        dest_ref undoable undo_group now s =
      let hold_until = now + (if undoable then undo_window else 0) in
      let made =
        reported_chunks json account_id dest_mailbox_id dest_ref undo_group hold_until now s.db.rows
          (length (chunks message_ids (move_chunk_size max_objects)))
          (chunks message_ids (move_chunk_size max_objects)) 0 [] [] s refl
          (sym (append-nil s.db.rows)) tt (omega arith) in
      elim (Bool-cases (if dest_mailbox_id == 0 then dest_ref == 0 else not (dest_ref == 0))) [
        | inl refused ↦ rw refused ([], sym (append-nil s.db.rows), refl, tt, inr (_, refl))
        | inr proper ↦ rw proper made
      ]
