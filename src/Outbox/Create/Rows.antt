-- ===== src/Outbox/Create/Rows.antt =====
-- What a create, a rename and a delete of internal/outbox/dispatch.go do to the outbox table.
use beautiful_aerc.Prelude.{
  ℕ, String, List, Exec, Result, ok, err, pure, subst, arith, not, ◌==◌, string_eq, none,
}
use beautiful_aerc.Prelude.Keeps.{
  Keeps-pure, Keeps-stop, Keeps-reading, Keeps-if, Keeps-bind, Keeps-check, Keeps-with_err,
  Keeps-attempt,
}
use beautiful_aerc.Uerr.{Err, is, mailbox_name_exists}
use beautiful_aerc.Store.Transactions.{apply_interactive-keeps}
use beautiful_aerc.Outbox.Payload.{CreateMailboxPayload}
use beautiful_aerc.Outbox.Row.{Row, update_payload}
use beautiful_aerc.Outbox.Claim.{Claimed}
use beautiful_aerc.Outbox.Outcome.{Outcome, failed_by, done, adoption_failure}
use beautiful_aerc.Outbox.World.{Dispatcher, World, transact}
use beautiful_aerc.Outbox.World.Rows.{
  KeepsRows, call-Keeps, on_store-Keeps, note_resolved-Keeps, resolve_dependent_refs-Keeps,
}
use beautiful_aerc.Outbox.Create.{
  adopt_mailbox, persist_payload, parent_id, refused, make_mailbox, make_and_persist,
  ensure_created, create_body, rename_body, delete_body, dispatch_create_mailbox,
  dispatch_rename_mailbox, dispatch_delete_mailbox,
}

module _ {B S : Type 0} (J : List (Row B) → Type 0)
    (patch : (id : ℕ) (b : B) (rows : List (Row B)) → J rows → J (update_payload id b rows))
    (d : Dispatcher B S) where
  abbrev Kept : {E A : Type 0} → Exec (World B S) E A → Type 0
  Kept {E} {A} = KeepsRows J patch {S = S} {E = E} {A = A}

  pub adopt_mailbox-Keeps : (name parent : String) → Kept (adopt_mailbox d name parent)
  unfolding adopt_mailbox
  adopt_mailbox-Keeps name parent =
      Keeps-bind _ _ (call-Keeps J patch (d.mail.find_mailboxes name parent)) λ ids. Keeps-check _ _

  pub persist_payload-Keeps : (id : ℕ) (b : B) → Kept (persist_payload d id b)
  unfolding persist_payload transact
  persist_payload-Keeps id b = on_store-Keeps J patch _ (record {
    at = λ s.
        apply_interactive-keeps (λ db. J db.rows) _ s
          (λ a db e j. subst J (ground arith) (patch id b s.db.rows j));
  })

  module _ (c : Claimed B) where
    refused-Keeps : (name parent : String) (e : Err) → Kept (refused d c name parent e)
    unfolding refused
    refused-Keeps name parent e =
        Keeps-if (not (is mailbox_name_exists e)) _ _ (Keeps-stop (failed_by c e))
          (Keeps-with_err (adoption_failure c) _ (adopt_mailbox-Keeps name parent))

    answered :
        (name parent : String) (made : Result Err String)
        → Kept {E = Outcome B} {A = String}
            (elim made [ ok id ↦ pure id | err e ↦ refused d c name parent e ])
    answered name parent (ok id) = Keeps-pure id
    answered name parent (err e) = refused-Keeps name parent e

    make_mailbox-Keeps : (name parent : String) → Kept (make_mailbox d c name parent)
    unfolding make_mailbox
    make_mailbox-Keeps name parent =
        Keeps-bind _ _ (Keeps-attempt _ (call-Keeps J patch (d.mail.create_mailbox name parent)))
          (answered name parent)

    make_and_persist-Keeps :
        (p : CreateMailboxPayload) (parent : String) → Kept (make_and_persist d c p parent)
    unfolding make_and_persist
    make_and_persist-Keeps p parent = Keeps-bind _ _ (make_mailbox-Keeps p.name parent) λ id.
        Keeps-bind _ _ (Keeps-check _ _) λ payload.
          Keeps-bind _ _ (Keeps-with_err _ _ (persist_payload-Keeps c.id payload))
            λ _. Keeps-pure id

    ensure_created-Keeps : (p : CreateMailboxPayload) → Kept (ensure_created d c p)
    unfolding ensure_created
    ensure_created-Keeps p = Keeps-reading _ λ w.
        Keeps-if (p.resolved_server_id == "") _ _ (make_and_persist-Keeps p (parent_id c p w))
          (Keeps-pure p.resolved_server_id)

    create_body-Keeps : Kept (create_body d c)
    unfolding create_body
    create_body-Keeps = Keeps-bind _ _ (Keeps-check _ _) λ p.
        Keeps-bind _ _ (ensure_created-Keeps p) λ id.
          Keeps-bind _ _
            (Keeps-with_err _ _ (
              on_store-Keeps J patch _
                (resolve_dependent_refs-Keeps J patch d.json d.account_id c.id id)))
            λ _. Keeps-bind _ _ (note_resolved-Keeps J patch c.id id) λ _. Keeps-pure (done c none)

    rename_body-Keeps : Kept (rename_body d c)
    unfolding rename_body
    rename_body-Keeps = Keeps-bind _ _ (Keeps-check _ _) λ p.
        Keeps-bind _ _ (Keeps-with_err _ _ (call-Keeps J patch _)) λ _. Keeps-pure (done c none)

    delete_body-Keeps : Kept (delete_body d c)
    unfolding delete_body
    delete_body-Keeps =
        Keeps-bind _ _ (Keeps-with_err _ _ (call-Keeps J patch _)) λ _. Keeps-pure (done c none)

    pub dispatch_create_mailbox-keeps :
        (w : World B S) → J w.store.db.rows → J (dispatch_create_mailbox d c w).1.store.db.rows
    unfolding dispatch_create_mailbox
    dispatch_create_mailbox-keeps = create_body-Keeps.at

    pub dispatch_rename_mailbox-keeps :
        (w : World B S) → J w.store.db.rows → J (dispatch_rename_mailbox d c w).1.store.db.rows
    unfolding dispatch_rename_mailbox
    dispatch_rename_mailbox-keeps = rename_body-Keeps.at

    pub dispatch_delete_mailbox-keeps :
        (w : World B S) → J w.store.db.rows → J (dispatch_delete_mailbox d c w).1.store.db.rows
    unfolding dispatch_delete_mailbox
    dispatch_delete_mailbox-keeps = delete_body-Keeps.at
