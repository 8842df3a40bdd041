-- ===== src/Outbox/Move.antt =====
-- internal/outbox/dispatch.go: a move of messages, on its own or in the batch of a create.
pub mod Subject
pub mod Rows
use beautiful_aerc.Prelude.{
  ℕ, String, List, [], ◌∷◌, map, Map, lookup, lookup_or, Option, none, some, Exec, pure, stop,
  check, ◌>>=◌, with_err, reading, returning, not, ◌&&◌, ◌==◌, nat_eq, string_eq, if◌then◌else◌,
}
use beautiful_aerc.Uerr.{Class, Err, error_text}
use beautiful_aerc.Backend.{Mutation, BatchResult, update, message, message_patch}
use beautiful_aerc.Outbox.Payload.{MoveMessagesPayload}
use beautiful_aerc.Outbox.Claim.{Claimed}
use beautiful_aerc.Outbox.Outcome.{Outcome, done, failed_outcome, failed_by}
use beautiful_aerc.Outbox.World.{Dispatcher, World, call}

-- the first of the ids that the server rejected
abbrev pub first_failed : List String → Map String Err → Option Err
first_failed [] failed = none
first_failed (id ∷ ids) failed = elim (lookup id failed) [
  | some e ↦ some e
  | none ↦ first_failed ids failed
]

module _ {B : Type 0} where
  -- `c.messageServerIDs[id]` for each message of the payload
  abbrev pub server_ids : Claimed B → List ℕ → List String
  server_ids c = map (λ id. lookup_or "" id c.message_server_ids)

  unfoldable pub file_into_mailbox : Claimed B → List ℕ → String → List Mutation
  file_into_mailbox c message_ids dest =
      map
        (λ id.
          let m : Mutation = record {
            op = update;
            kind = message;
            id = id;
            creation_id = "";
            fields = message_patch (dest ∷ []);
          } in
          m)
        (server_ids c message_ids)

  unfoldable pub move_outcome : Claimed B → MoveMessagesPayload → BatchResult → Outcome B
  move_outcome mv p res = elim (first_failed (server_ids mv p.message_ids) res.failed) [
    | some e ↦ failed_by mv e
    | none ↦ done mv (some p)
  ]

module _ {B S : Type 0} where
  -- the mailbox that a move goes to, by its claim or by a create of this pass
  unfoldable pub dest_id : Claimed B → MoveMessagesPayload → World B S → String
  dest_id c p w =
      if not (p.dest_ref == 0) && c.dest_server_id == ""
      then lookup_or "" p.dest_ref w.resolved
      else c.dest_server_id

  module _ (d : Dispatcher B S) where
    send_move : Claimed B → MoveMessagesPayload → String → Exec (World B S) (Outcome B) (Outcome B)
    unfolding file_into_mailbox
    send_move c p dest = do
      let mutations = file_into_mailbox c p.message_ids dest
      res ← with_err (failed_by c) (call (d.mail.apply_batch mutations))
      elim (first_failed (map (λ (m : Mutation). m.id) mutations) res.failed) [
        | some e ↦ stop (failed_by c e)
        | none ↦ pure (done c (some p))
      ]

    move_to : Claimed B → MoveMessagesPayload → Exec (World B S) (Outcome B) (Outcome B)
    unfolding send_move dest_id
    move_to c p = reading λ w.
        if dest_id c p w == ""
        then stop (failed_outcome c Class.not_found "move destination not resolved")
        else send_move c p (dest_id c p w)

    move_body : Claimed B → Exec (World B S) (Outcome B) (Outcome B)
    unfolding move_to
    move_body c = do
      p ←
          check (λ e. failed_outcome c Class.server (error_text e))
            (d.json.unmarshal_move c.payload)
      move_to c p

    unfoldable pub dispatch_move_messages : Claimed B → World B S → Outcome B × World B S
    unfolding move_body
    dispatch_move_messages c = returning (move_body c)
