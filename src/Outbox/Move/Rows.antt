-- ===== src/Outbox/Move/Rows.antt =====
-- What a move of internal/outbox/dispatch.go does to the outbox table.
use beautiful_aerc.Prelude.{Exec, ℕ, String, List, Option, none, some, pure, stop, ◌==◌, string_eq}
use beautiful_aerc.Prelude.Keeps.{
  Keeps-pure, Keeps-stop, Keeps-reading, Keeps-if, Keeps-bind, Keeps-check, Keeps-with_err,
}
use beautiful_aerc.Uerr.{Err}
use beautiful_aerc.Outbox.Payload.{MoveMessagesPayload}
use beautiful_aerc.Outbox.Row.{Row, update_payload}
use beautiful_aerc.Outbox.Claim.{Claimed}
use beautiful_aerc.Outbox.Outcome.{Outcome, failed_by, done}
use beautiful_aerc.Outbox.World.{Dispatcher, World}
use beautiful_aerc.Outbox.World.Rows.{KeepsRows, call-Keeps}
use beautiful_aerc.Outbox.Move.{dest_id, send_move, move_to, move_body, dispatch_move_messages}

module _ {B S : Type 0} (J : List (Row B) → Type 0)
    (patch : (id : ℕ) (b : B) (rows : List (Row B)) → J rows → J (update_payload id b rows))
    (d : Dispatcher B S) (c : Claimed B) where
  abbrev Kept : {E A : Type 0} → Exec (World B S) E A → Type 0
  Kept {E} {A} = KeepsRows J patch {S = S} {E = E} {A = A}

  concluded :
      (p : MoveMessagesPayload) (o : Option Err)
      → Kept {E = Outcome B} {A = Outcome B}
          (elim o [ some e ↦ stop (failed_by c e) | none ↦ pure (done c (some p)) ])
  concluded p none = Keeps-pure _
  concluded p (some e) = Keeps-stop _

  send_move-Keeps : (p : MoveMessagesPayload) (dest : String) → Kept (send_move d c p dest)
  unfolding send_move
  send_move-Keeps p dest =
      Keeps-bind _ _ (Keeps-with_err _ _ (call-Keeps J patch _)) λ res. concluded p _

  move_to-Keeps : (p : MoveMessagesPayload) → Kept (move_to d c p)
  unfolding move_to
  move_to-Keeps p =
      Keeps-reading _
        λ w. Keeps-if (dest_id c p w == "") _ _ (Keeps-stop _) (send_move-Keeps p (dest_id c p w))

  move_body-Keeps : Kept (move_body d c)
  unfolding move_body
  move_body-Keeps = Keeps-bind _ _ (Keeps-check _ _) move_to-Keeps

  pub dispatch_move_messages-keeps :
      (w : World B S) → J w.store.db.rows → J (dispatch_move_messages d c w).1.store.db.rows
  unfolding dispatch_move_messages
  dispatch_move_messages-keeps = move_body-Keeps.at
