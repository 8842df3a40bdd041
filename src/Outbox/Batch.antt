-- ===== src/Outbox/Batch.antt =====
-- internal/outbox/dispatch.go: a create and the moves into the mailbox that it makes, as one
-- request that names the mailbox by its creation id.
pub mod Subject
pub mod Rows
use Prim.Native.String.{◌++◌ as append}
use beautiful_aerc.Prelude.{
  ℕ, String, decimal, List, [], ◌∷◌, ◌++◌, lookup, none, some, Result, ok, and_then, Exec, pure,
  stop, check, ◌>>=◌, ◌>>◌, with_err, reading, returning, string_eq, if◌then◌else◌,
}
use beautiful_aerc.Uerr.{Class, mailbox_name_exists, Err, error_text, is}
use beautiful_aerc.Backend.{Mutation, BatchResult, create, mailbox, mailbox_create}
use beautiful_aerc.Outbox.Payload.{CreateMailboxPayload, MoveMessagesPayload, Json}
use beautiful_aerc.Outbox.Claim.{Claimed}
use beautiful_aerc.Outbox.Outcome.{Outcome, done, fail_batch, fail_batch_by, fail_batch_adoption}
use beautiful_aerc.Outbox.Dependents.{resolve_dependent_refs}
use beautiful_aerc.Outbox.World.{Dispatcher, World, call, on_store, note_resolved}
use beautiful_aerc.Outbox.Create.{parent_id, adopt_mailbox, persist_payload}
use beautiful_aerc.Outbox.Move.{file_into_mailbox, move_outcome}

-- A move of the batch with its decoded payload.
abbrev pub Decoded : Type 0 → Type 0
Decoded B = Claimed B × MoveMessagesPayload

abbrev pub creation_id : ℕ → String
creation_id id = append "c" (decimal id)

abbrev pub create_mutation : String → String → String → Mutation
create_mutation cid name parent = record {
  op = create;
  kind = mailbox;
  id = "";
  creation_id = cid;
  fields = mailbox_create name parent;
}

module _ {B : Type 0} where
  abbrev pub decode_moves : Json B → List (Claimed B) → Result Err (List (Decoded B))
  decode_moves json [] = ok []
  decode_moves json (mv ∷ mvs) =
      and_then (json.unmarshal_move mv.payload)
        λ p. and_then (decode_moves json mvs) λ rest. ok ((mv, p) ∷ rest)

  -- every move's update mutations, in order
  abbrev pub file_all : List (Decoded B) → String → List Mutation
  file_all [] dest = []
  file_all ((mv, p) ∷ mvs) dest = file_into_mailbox mv p.message_ids dest ++ file_all mvs dest

  abbrev pub move_outcomes : List (Decoded B) → BatchResult → List (Outcome B)
  move_outcomes [] res = []
  move_outcomes ((mv, p) ∷ mvs) res = move_outcome mv p res ∷ move_outcomes mvs res

module _ {B S : Type 0} (d : Dispatcher B S) (create : Claimed B) (moves : List (Claimed B)) where
  abbrev Body : Type 0 → Type 0
  Body = Exec (World B S) (List (Outcome B))

  abbrev fail_local : Err → List (Outcome B)
  fail_local e = fail_batch create moves Class.store_local (error_text e)

  -- the refusal of the create: adopt the mailbox, and file the messages again
  refiled : List (Decoded B) → String → String → Err → Body (String × BatchResult)
  refiled decoded name parent e = do
    let adopt = with_err (fail_batch_adoption create moves) (adopt_mailbox d name parent)
    new_id ← if is mailbox_name_exists e then adopt else stop (fail_batch_by create moves e)
    res ←
        with_err (fail_batch_by create moves) (call (d.mail.apply_batch (file_all decoded new_id)))
    pure (new_id, res)

  -- what the request's result says of the create
  created_id : BatchResult → Body (String × BatchResult)
  created_id res = elim (lookup (creation_id create.id) res.created) [
    | none ↦ stop (fail_batch create moves Class.server "mailbox create returned no server id")
    | some id ↦ pure (id, res)
  ]

  send_batch : List (Decoded B) → String → String → Body (String × BatchResult)
  unfolding refiled created_id
  send_batch decoded name parent = do
    let cid = creation_id create.id
    let mutations = create_mutation cid name parent ∷ file_all decoded (append "#" cid)
    res ← with_err (fail_batch_by create moves) (call (d.mail.apply_batch mutations))
    elim (lookup cid res.failed) [ some e ↦ refiled decoded name parent e | none ↦ created_id res ]

  -- the request, its parent resolved
  send_under_parent : CreateMailboxPayload → List (Decoded B) → Body (String × BatchResult)
  unfolding send_batch parent_id
  send_under_parent p decoded = reading λ w. send_batch decoded p.name (parent_id create p w)

  batch_body : Body (List (Outcome B))
  unfolding send_under_parent fail_batch
  batch_body = do
    let fail : Err → List (Outcome B) = λ e. fail_batch create moves Class.server (error_text e)
    p ← check fail (d.json.unmarshal_create create.payload)
    decoded ← check fail (decode_moves d.json moves)
    sent ← send_under_parent p decoded
    note_resolved create.id sent.0
    payload ← check fail_local (d.json.marshal_create (record p { resolved_server_id = sent.0 }))
    with_err fail_local (persist_payload d create.id payload)
    with_err fail_local (on_store (resolve_dependent_refs d.json d.account_id create.id sent.0))
    pure (done create none ∷ move_outcomes decoded sent.1)

  unfoldable pub dispatch_batch : World B S → List (Outcome B) × World B S
  unfolding batch_body
  dispatch_batch = returning batch_body
