-- ===== src/Outbox/Create.antt =====
-- internal/outbox/dispatch.go: a create on its own, a rename, a delete, and the adoption of a
-- mailbox that the server says is already there.
pub mod Subject
pub mod Rows
use Prim.Native.String.{◌++◌ as append}
use beautiful_aerc.Prelude.{
  ℕ, String, decimal, length, List, [], ◌∷◌, none, lookup_or, Result, ok, err, Exec, pure, stop,
  check, ◌>>=◌, ◌>>◌, attempt, with_err, reading, returning, not, ◌&&◌, ◌==◌, nat_eq, string_eq,
  if◌then◌else◌,
}
use beautiful_aerc.Uerr.{
  Class, store_local, mailbox_name_exists, ambiguous_mailbox, Err, sentinel, wrapped, error_text,
  is,
}
use beautiful_aerc.Outbox.Payload.{CreateMailboxPayload}
use beautiful_aerc.Outbox.Row.{update_payload}
use beautiful_aerc.Outbox.Claim.{Claimed}
use beautiful_aerc.Outbox.Outcome.{Outcome, done, failed_outcome, failed_by, adoption_failure}
use beautiful_aerc.Outbox.Dependents.{resolve_dependent_refs}
use beautiful_aerc.Outbox.World.{Dispatcher, World, call, on_store, transact, note_resolved}

abbrev pub ambiguous_text : String
ambiguous_text = "outbox: no single mailbox matches the name the server refused as a duplicate"

abbrev pub ambiguous : Err
ambiguous = sentinel ambiguous_mailbox ambiguous_text

-- `quoted` is the name as `%q` prints it
unfoldable pub single : String → List String → Result Err String
single quoted (id ∷ []) = ok id
single quoted ids = err (
    wrapped
      (append ambiguous_text
        (append ": " (append quoted (append " matched " (decimal (length ids))))))
      ambiguous)

abbrev pub local_outcome : {B : Type 0} → Claimed B → Err → Outcome B
local_outcome c e = failed_outcome c store_local (error_text e)

module _ {B S : Type 0} where
  -- the parent that a create names, by its claim or by a create of this pass
  unfoldable pub parent_id : Claimed B → CreateMailboxPayload → World B S → String
  parent_id c p w =
      if not (p.parent_ref == 0) && c.parent_server_id == ""
      then lookup_or "" p.parent_ref w.resolved
      else c.parent_server_id

  module _ (d : Dispatcher B S) where
    unfoldable pub adopt_mailbox : String → String → Exec (World B S) Err String
    unfolding single
    adopt_mailbox name parent = do
      ids ← call (d.mail.find_mailboxes name parent)
      check (λ e. e) (single (d.quote name) ids)

    unfoldable pub persist_payload : ℕ → B → Exec (World B S) Err (Unit {0})
    unfolding transact
    persist_payload id payload =
        transact λ db. ok (tt, record db { rows = update_payload id payload db.rows })

    -- the answer to a refused create
    refused : Claimed B → String → String → Err → Exec (World B S) (Outcome B) String
    unfolding adopt_mailbox
    refused c name parent e =
        if not (is mailbox_name_exists e)
        then stop (failed_by c e)
        else with_err (adoption_failure c) (adopt_mailbox name parent)

    -- the call of the backend, and the adoption where it is refused
    make_mailbox : Claimed B → String → String → Exec (World B S) (Outcome B) String
    unfolding refused
    make_mailbox c name parent = do
      made ← attempt (call (d.mail.create_mailbox name parent))
      elim made [ ok id ↦ pure id | err e ↦ refused c name parent e ]

    -- `if newID == ""`: make the mailbox and record its id in the intent's own payload
    make_and_persist :
        Claimed B → CreateMailboxPayload → String → Exec (World B S) (Outcome B) String
    unfolding make_mailbox persist_payload
    make_and_persist c p parent = do
      new_id ← make_mailbox c p.name parent
      payload ←
          check (local_outcome c) (d.json.marshal_create (record p { resolved_server_id = new_id }))
      with_err (local_outcome c) (persist_payload c.id payload)
      pure new_id

    ensure_created : Claimed B → CreateMailboxPayload → Exec (World B S) (Outcome B) String
    unfolding make_and_persist parent_id
    ensure_created c p = reading λ w.
        if p.resolved_server_id == ""
        then make_and_persist c p (parent_id c p w)
        else pure p.resolved_server_id

    create_body : Claimed B → Exec (World B S) (Outcome B) (Outcome B)
    unfolding ensure_created
    create_body c = do
      p ←
          check (λ e. failed_outcome c Class.server (error_text e))
            (d.json.unmarshal_create c.payload)
      new_id ← ensure_created c p
      with_err (local_outcome c) (on_store (resolve_dependent_refs d.json d.account_id c.id new_id))
      note_resolved c.id new_id
      pure (done c none)

    unfoldable pub dispatch_create_mailbox : Claimed B → World B S → Outcome B × World B S
    unfolding create_body
    dispatch_create_mailbox c = returning (create_body c)

    rename_body : Claimed B → Exec (World B S) (Outcome B) (Outcome B)
    rename_body c = do
      p ←
          check (λ e. failed_outcome c Class.server (error_text e))
            (d.json.unmarshal_rename c.payload)
      with_err (failed_by c) (call (d.mail.rename_mailbox c.mailbox_server_id p.name))
      pure (done c none)

    unfoldable pub dispatch_rename_mailbox : Claimed B → World B S → Outcome B × World B S
    unfolding rename_body
    dispatch_rename_mailbox c = returning (rename_body c)

    delete_body : Claimed B → Exec (World B S) (Outcome B) (Outcome B)
    delete_body c = do
      with_err (failed_by c) (call (d.mail.delete_mailbox c.mailbox_server_id))
      pure (done c none)

    unfoldable pub dispatch_delete_mailbox : Claimed B → World B S → Outcome B × World B S
    unfolding delete_body
    dispatch_delete_mailbox c = returning (delete_body c)
