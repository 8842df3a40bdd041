-- ===== src/Outbox/Batch/Rows.antt =====
-- What the dispatchBatch of internal/outbox/dispatch.go does to the outbox table.
use beautiful_aerc.Prelude.{Exec, ℕ, String, List, Option, none, some, pure, stop}
use beautiful_aerc.Prelude.Keeps.{
  Keeps-pure, Keeps-stop, Keeps-reading, Keeps-if, Keeps-bind, Keeps-check, Keeps-with_err,
}
use beautiful_aerc.Uerr.{Class, Err, is, mailbox_name_exists}
use beautiful_aerc.Backend.{BatchResult}
use beautiful_aerc.Outbox.Payload.{CreateMailboxPayload}
use beautiful_aerc.Outbox.Row.{Row, update_payload}
use beautiful_aerc.Outbox.Claim.{Claimed}
use beautiful_aerc.Outbox.Outcome.{Outcome, fail_batch, fail_batch_adoption}
use beautiful_aerc.Outbox.World.{Dispatcher, World}
use beautiful_aerc.Outbox.World.Rows.{
  KeepsRows, call-Keeps, on_store-Keeps, note_resolved-Keeps, resolve_dependent_refs-Keeps,
}
use beautiful_aerc.Outbox.Create.{parent_id, adopt_mailbox}
use beautiful_aerc.Outbox.Create.Rows.{adopt_mailbox-Keeps, persist_payload-Keeps}
use beautiful_aerc.Outbox.Batch.{
  Decoded, refiled, created_id, send_batch, send_under_parent, batch_body, dispatch_batch,
}

module _ {B S : Type 0} (J : List (Row B) → Type 0)
    (patch : (id : ℕ) (b : B) (rows : List (Row B)) → J rows → J (update_payload id b rows))
    (d : Dispatcher B S) (create : Claimed B) (moves : List (Claimed B)) where
  abbrev Kept : {E A : Type 0} → Exec (World B S) E A → Type 0
  Kept {E} {A} = KeepsRows J patch {S = S} {E = E} {A = A}

  refiled-Keeps :
      (decoded : List (Decoded B)) (name parent : String) (e : Err)
      → Kept (refiled d create moves decoded name parent e)
  unfolding refiled
  refiled-Keeps decoded name parent e =
      Keeps-bind _ _
        (Keeps-if (is mailbox_name_exists e) _ _
          (Keeps-with_err (fail_batch_adoption create moves) (adopt_mailbox d name parent)
            (adopt_mailbox-Keeps J patch d name parent))
          (Keeps-stop _))
        λ id. Keeps-bind _ _ (Keeps-with_err _ _ (call-Keeps J patch _)) λ res. Keeps-pure _

  created_by :
      (res : BatchResult) (o : Option String)
      → Kept {E = List (Outcome B)} {A = String × BatchResult} (elim o [
        | none ↦ stop (fail_batch create moves Class.server "mailbox create returned no server id")
        | some id ↦ pure (id, res)
      ])
  created_by res none = Keeps-stop _
  created_by res (some id) = Keeps-pure _

  answered :
      (decoded : List (Decoded B)) (name parent : String) (res : BatchResult) (o : Option Err)
      → Kept {E = List (Outcome B)} {A = String × BatchResult} (elim o [
        | some e ↦ refiled d create moves decoded name parent e
        | none ↦ created_id d create moves res
      ])
  unfolding created_id
  answered decoded name parent res (some e) = refiled-Keeps decoded name parent e
  answered decoded name parent res none = created_by res _

  send_batch-Keeps :
      (decoded : List (Decoded B)) (name parent : String)
      → Kept (send_batch d create moves decoded name parent)
  unfolding send_batch
  send_batch-Keeps decoded name parent =
      Keeps-bind _ _ (Keeps-with_err _ _ (call-Keeps J patch _))
        λ res. answered decoded name parent res _

  send_under_parent-Keeps :
      (p : CreateMailboxPayload) (decoded : List (Decoded B))
      → Kept (send_under_parent d create moves p decoded)
  unfolding send_under_parent
  send_under_parent-Keeps p decoded =
      Keeps-reading _ λ w. send_batch-Keeps decoded p.name (parent_id create p w)

  batch_body-Keeps : Kept (batch_body d create moves)
  unfolding batch_body
  batch_body-Keeps = Keeps-bind _ _ (Keeps-check _ _) λ p.
      Keeps-bind _ _ (Keeps-check _ _) λ decoded.
        Keeps-bind _ _ (send_under_parent-Keeps p decoded) λ sent.
          Keeps-bind _ _ (note_resolved-Keeps J patch create.id sent.0) λ _.
            Keeps-bind _ _ (Keeps-check _ _) λ payload.
              Keeps-bind _ _
                (Keeps-with_err _ _ (persist_payload-Keeps J patch d create.id payload))
                λ _.
                  Keeps-bind _ _
                    (Keeps-with_err _ _ (
                      on_store-Keeps J patch _ (
                        resolve_dependent_refs-Keeps J patch d.json d.account_id create.id sent.0)))
                    λ _. Keeps-pure _

  pub dispatch_batch-keeps :
      (w : World B S) → J w.store.db.rows → J (dispatch_batch d create moves w).1.store.db.rows
  unfolding dispatch_batch
  dispatch_batch-keeps = batch_body-Keeps.at
