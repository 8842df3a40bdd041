-- ===== src/Outbox/Bulk/Compensated.antt =====
-- What compensateFailedChunk of internal/outbox/enqueue.go reports, against what it leaves.
use mathlib.Core.List.{append-nil}
use beautiful_aerc.Prelude.{
  ℕ, ◌+◌, String, List, [], ◌∷◌, ◌++◌, ◌≡◌, refl, ap, ◌∙◌, sym, arith, true, some, Result, ok, err,
  and_then-eq-ok, length, nat_eq, inr, ◌⊎◌,
}
use beautiful_aerc.Uerr.{Err}
use beautiful_aerc.Store.{Store}
use beautiful_aerc.Store.Transactions.{Transacted, committed, rolled_back, transacted}
use beautiful_aerc.Outbox.Payload.{Json, Kind, move_messages}
use beautiful_aerc.Outbox.Row.{Row, Db, is_queued, max_id, insert_row}
use beautiful_aerc.Outbox.Undo.{annihilate_all, undo, undo_tx}
use beautiful_aerc.Outbox.Enqueue.{enqueue_chunk_tx, escaped_ids, insert, chunk_payload}
use beautiful_aerc.Outbox.Bulk.{BulkResult, report_escaped, compensated, compensate_failed_chunk}
use beautiful_aerc.Outbox.Bulk.Appended.{
  row_ids, Appended, annihilate_all-Appended, escaped_ids_self,
}

pub ok-eq : {E A : Type 0} {a a' : A} → ◌≡◌ {A = Result E A} (ok a) (ok a') → a ≡ a'
ok-eq h = cc

module _ {B : Type 0} where
  -- The table is what it was and the intents that the call reports, which are queued; there is one
  -- for each of `n` chunks, or the call reports an error.
  abbrev pub Reported : List (Row B) → ℕ → BulkResult → Store (Db B) → Type 0
  Reported rows n r t =
      (new : List (Row B)) × (t.db.rows ≡ rows ++ new)
      × (r.intent_ids ≡ row_ids new)
      × Appended (max_id rows) new
      × ((length new ≡ n) ⊎ ((e : Err) × (r.error ≡ some e)))

  pub row_ids-append : (rs ss : List (Row B)) → row_ids (rs ++ ss) ≡ row_ids rs ++ row_ids ss
  row_ids-append [] ss = refl
  row_ids-append (r ∷ rs) ss = ap (λ t. r.id ∷ t) (row_ids-append rs ss)

  inserted :
      (account_id : ℕ) (kind : Kind) (b : B) (undo_group : String) (seq at now : ℕ)
      (rows : List (Row B))
      → (r : Row B) × ((insert_row account_id kind b undo_group seq at now rows).1 ≡ rows ++ r ∷ [])
        × ((insert_row account_id kind b undo_group seq at now rows).0 ≡ r.id)
        × (r.id ≡ max_id rows + 1)
        × (is_queued r.state ≡ true)
  unfolding insert_row
  inserted account_id kind b undo_group seq at now rows = (_, refl, refl, refl, refl)

  -- the row that a chunk's transaction adds
  pub chunk_row :
      (json : Json B) (account_id : ℕ) (ids : List ℕ) (dest_mailbox_id dest_ref : ℕ)
      (undo_group : String) (seq hold_until now : ℕ) (db db' : Db B) (id : ℕ)
      → enqueue_chunk_tx json account_id ids dest_mailbox_id dest_ref undo_group seq hold_until now
          db
        ≡ ok (id, db')
      → (r : Row B) × (db'.rows ≡ db.rows ++ r ∷ [])
        × (id ≡ r.id)
        × (r.id ≡ max_id db.rows + 1)
        × (is_queued r.state ≡ true)
  unfolding enqueue_chunk_tx
  chunk_row json account_id ids dest_mailbox_id dest_ref undo_group seq hold_until now db db' id h =
      let (b, _, e) =
        and_then-eq-ok
          (json.marshal_move
            (chunk_payload json db.current_mailbox_id ids dest_mailbox_id dest_ref))
          (insert json account_id move_messages undo_group seq hold_until now db) h in
      let (r, rows, own, next, q) =
        inserted account_id move_messages b undo_group seq hold_until now db.rows in
      (r, ground (arith, e, rows), ground (arith, e, own), next, q)

  undone :
      (ids : List ℕ) (new rows : List (Row B)) (db db' : Db B) (caught : List ℕ)
      → undo_tx ids db ≡ ok (caught, db')
      → ids ≡ row_ids new
      → db.rows ≡ rows ++ new
      → Appended (max_id rows) new
      → (caught ≡ ids) × (db'.rows ≡ rows)
  unfolding undo_tx
  undone ids new rows db db' caught h e same a =
      let all = annihilate_all-Appended rows new (max_id rows) (omega arith) a in
      let got : annihilate_all ids db.rows ≡ (ids, rows) = rw (e, same) all in
      let said : caught ≡ (annihilate_all ids db.rows).0 = ground arith in
      let left : db'.rows ≡ (annihilate_all ids db.rows).1 = ground arith in
      (said ∙ ap (λ p. p.0) got, left ∙ ap (λ p. p.1) got)

  -- the end of a failed call
  module _ (rows : List (Row B)) (n : ℕ) where
    Reported-escaped :
        (new : List (Row B)) (escaped committed' : List ℕ) (seq : ℕ) (e : Err) (t : Store (Db B))
        → escaped ≡ row_ids new
        → t.db.rows ≡ rows ++ new
        → Appended (max_id rows) new
        → Reported rows n
            (report_escaped escaped committed' seq e t).0
            (report_escaped escaped committed' seq e t).1
    unfolding report_escaped
    Reported-escaped new [] committed' seq e t h same a = (new, same, h, a, inr (_, refl))
    Reported-escaped new (x ∷ xs) committed' seq e t h same a = (new, same, h, a, inr (_, refl))

    Reported-compensated :
        (ids : List ℕ) (new : List (Row B)) (seq : ℕ) (e : Err) (s : Store (Db B))
        (r : Result Err (List ℕ)) (t : Store (Db B))
        → Transacted (undo_tx ids) s r t
        → ids ≡ row_ids new
        → s.db.rows ≡ rows ++ new
        → Appended (max_id rows) new
        → Reported rows n (compensated ids seq e r t).0 (compensated ids seq e r t).1
    unfolding compensated
    Reported-compensated ids new seq e s (ok caught) t (rolled_back e' q kept v) h same a =
        ground arith
    Reported-compensated ids new seq e s (err e1) t (committed caught db ran q kept v) h same a =
        ground arith
    Reported-compensated ids new seq e s (err e1) t (rolled_back e' q kept v) h same a =
        (new, ap (λ (db : Db B). db.rows) kept ∙ same, h, a, inr (_, refl))
    Reported-compensated ids new seq e s (ok caught) t (committed caught' db ran q kept v) h same
          a =
        let (none_escaped, back) = undone ids new rows s.db db caught' ran h same a in
        Reported-escaped [] (escaped_ids ids caught) ids seq e t
          (ap (λ c. escaped_ids ids c) (ok-eq q ∙ none_escaped) ∙ escaped_ids_self ids)
          (ap (λ (db : Db B). db.rows) kept ∙ back ∙ sym (append-nil rows)) tt

    pub Reported-failed :
        (ids : List ℕ) (new : List (Row B)) (seq : ℕ) (e : Err) (s : Store (Db B))
        → ids ≡ row_ids new
        → s.db.rows ≡ rows ++ new
        → Appended (max_id rows) new
        → Reported rows n
            (compensate_failed_chunk ids seq e s).0
            (compensate_failed_chunk ids seq e s).1
    unfolding compensate_failed_chunk undo
    Reported-failed [] new seq e s h same a = (new, same, h, a, inr (_, refl))
    Reported-failed (x ∷ xs) new seq e s h same a =
        Reported-compensated (x ∷ xs) new seq e s _ _ (transacted (undo_tx (x ∷ xs)) s) h same a
