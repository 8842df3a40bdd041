-- ===== src/Outbox/Move/Subject.antt =====
-- The intent that a move of internal/outbox/dispatch.go reports on.
use beautiful_aerc.Prelude.{
  String, Option, none, some, refl, pure, stop, ◌==◌, string_eq, Option-cases, inl, inr,
}
use beautiful_aerc.Prelude.Exits.{
  Exits, Exits-pure, Exits-stop, Exits-if, Exits-bind, Exits-check, Exits-with_err, Exits-reading,
  Exits-returning,
}
use beautiful_aerc.Uerr.{Err}
use beautiful_aerc.Backend.{BatchResult}
use beautiful_aerc.Outbox.Payload.{MoveMessagesPayload}
use beautiful_aerc.Outbox.Claim.{Claimed}
use beautiful_aerc.Outbox.Outcome.{done, failed_by}
use beautiful_aerc.Outbox.World.{Dispatcher, World}
use beautiful_aerc.Outbox.Create.Subject.{About, failed_outcome-About}
use beautiful_aerc.Outbox.Move.{
  first_failed, server_ids, move_outcome, dest_id, send_move, move_to, move_body,
  dispatch_move_messages,
}

pub move_outcome-About :
    {B : Type 0} (c : Claimed B) (p : MoveMessagesPayload) (res : BatchResult)
    → About c (move_outcome c p res)
unfolding move_outcome
move_outcome-About c p res =
    elim (Option-cases (first_failed (server_ids c p.message_ids) res.failed)) [
      | inl clean ↦ rw (clean, move_outcome) refl
      | inr (e, bad) ↦ rw (bad, move_outcome) (failed_outcome-About c _ _)
    ]

module _ {B S : Type 0} (d : Dispatcher B S) (c : Claimed B) where
  concluded :
      (p : MoveMessagesPayload) (o : Option Err)
      → Exits {S = World B S}
          (About c)
          (About c)
          (elim o [ some e ↦ stop (failed_by c e) | none ↦ pure (done c (some p)) ])
  concluded p none = Exits-pure _ refl
  concluded p (some e) = Exits-stop _ (failed_outcome-About c _ _)

  send_move-Exits :
      (p : MoveMessagesPayload) (dest : String) → Exits (About c) (About c) (send_move d c p dest)
  unfolding send_move
  send_move-Exits p dest =
      Exits-bind _ _ (Exits-with_err _ _ (λ e. failed_outcome-About c _ _) (λ _. tt))
        λ res _. concluded p _

  move_to-Exits : (p : MoveMessagesPayload) → Exits (About c) (About c) (move_to d c p)
  unfolding move_to
  move_to-Exits p = Exits-reading _ λ w.
      Exits-if (dest_id c p w == "") _ _ (Exits-stop _ (failed_outcome-About c _ _))
        (send_move-Exits p (dest_id c p w))

  move_body-Exits : Exits (About c) (About c) (move_body d c)
  unfolding move_body
  move_body-Exits =
      Exits-bind _ _ (Exits-check _ _ (λ e _. failed_outcome-About c _ _) (λ _ _. tt))
        λ p _. move_to-Exits p

  pub dispatch_move_messages-About : (w : World B S) → About c (dispatch_move_messages d c w).0
  unfolding dispatch_move_messages
  dispatch_move_messages-About = Exits-returning (About c) (move_body d c) move_body-Exits
