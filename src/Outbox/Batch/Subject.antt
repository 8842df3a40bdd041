-- ===== src/Outbox/Batch/Subject.antt =====
-- The intents that dispatchBatch of internal/outbox/dispatch.go reports on.
use beautiful_aerc.Prelude.{
  String, List, [], ◌∷◌, map, Option, none, some, ◌≡◌, refl, ap, ◌∙◌, ok, pure, stop,
  and_then-eq-ok, Bool-cases, inl, inr, arith,
}
use beautiful_aerc.Prelude.Exits.{
  Exits, Exits-pure, Exits-stop, Exits-if, Exits-bind, Exits-check, Exits-with_err, Exits-reading,
  Exits-returning,
}
use beautiful_aerc.Uerr.{Class, Err, ambiguous_mailbox, mailbox_name_exists, is}
use beautiful_aerc.Backend.{BatchResult}
use beautiful_aerc.Outbox.Payload.{CreateMailboxPayload, Json}
use beautiful_aerc.Outbox.Claim.{Claimed}
use beautiful_aerc.Outbox.Outcome.{
  Outcome, terminal, failed_outcome, fail_batch, fail_batch_by, fail_batch_adoption,
}
use beautiful_aerc.Outbox.World.{Dispatcher, World}
use beautiful_aerc.Outbox.Create.{parent_id, adopt_mailbox}
use beautiful_aerc.Outbox.Create.Subject.{Anything, failed_outcome-About, note_resolved-Exits}
use beautiful_aerc.Outbox.Move.Subject.{move_outcome-About}
use beautiful_aerc.Outbox.Batch.{
  Decoded, decode_moves, move_outcomes, refiled, created_id, send_batch, send_under_parent,
  batch_body, dispatch_batch,
}

module _ {B : Type 0} where
  abbrev pub subjects : List (Outcome B) → List (Claimed B)
  subjects = map (λ o. o.c)

  subjects-failed :
      (moves : List (Claimed B)) (k : Class) (s : String)
      → subjects (map (λ mv. failed_outcome mv k s) moves) ≡ moves
  subjects-failed [] k s = refl
  subjects-failed (mv ∷ mvs) k s = rw (failed_outcome-About mv k s, subjects-failed mvs k s)

  subjects-terminal :
      (os : List (Outcome B))
      → subjects (map {A = Outcome B} (λ o. record o { disposition = terminal }) os) ≡ subjects os
  subjects-terminal [] = refl
  subjects-terminal (o ∷ os) = ap (λ t. o.c ∷ t) (subjects-terminal os)

  subjects-move_outcomes :
      (decoded : List (Decoded B)) (res : BatchResult)
      → subjects (move_outcomes decoded res) ≡ map (λ mv. mv.0) decoded
  subjects-move_outcomes [] res = refl
  subjects-move_outcomes ((mv, p) ∷ rest) res =
      rw (move_outcome-About mv p res, subjects-move_outcomes rest res)

  decoded_moves :
      (json : Json B) (moves : List (Claimed B)) (decoded : List (Decoded B))
      → decode_moves json moves ≡ ok decoded
      → map (λ mv. mv.0) decoded ≡ moves
  decoded_moves json [] decoded h = ground arith
  decoded_moves json (mv ∷ mvs) decoded h =
      let (p, _, h1) = and_then-eq-ok (json.unmarshal_move mv.payload) _ h in
      let (rest, below, e) = and_then-eq-ok (decode_moves json mvs) _ h1 in
      ground (arith, decoded_moves json mvs rest below)

module _ {B S : Type 0} (d : Dispatcher B S) (create : Claimed B) (moves : List (Claimed B)) where
  -- the outcomes of the whole batch
  abbrev pub Whole : List (Outcome B) → Type 0
  Whole os = subjects os ≡ create ∷ moves

  abbrev Sent : String × BatchResult → Type 0
  Sent _ = Unit

  fail_batch-Whole : (k : Class) (s : String) → Whole (fail_batch create moves k s)
  unfolding fail_batch
  fail_batch-Whole k s = rw (failed_outcome-About create k s, subjects-failed moves k s)

  fail_batch_adoption-Whole : (e : Err) → Whole (fail_batch_adoption create moves e)
  unfolding fail_batch_adoption
  fail_batch_adoption-Whole e = elim (Bool-cases (is ambiguous_mailbox e)) [
    | inl same ↦ rw (same, subjects-terminal (fail_batch_by create moves e)) (fail_batch-Whole _ _)
    | inr other ↦ rw other (fail_batch-Whole _ _)
  ]

  refiled-Exits :
      (decoded : List (Decoded B)) (name parent : String) (e : Err)
      → Exits Whole Sent (refiled d create moves decoded name parent e)
  unfolding refiled
  refiled-Exits decoded name parent e =
      Exits-bind _ _
        (Exits-if {Q = Anything} (is mailbox_name_exists e) _ _
          (Exits-with_err (fail_batch_adoption create moves) (adopt_mailbox d name parent)
            fail_batch_adoption-Whole (λ _. tt))
          (Exits-stop _ (fail_batch-Whole _ _)))
        λ id _.
          Exits-bind _ _ (Exits-with_err _ _ (λ e'. fail_batch-Whole _ _) (λ _. tt))
            λ res _. Exits-pure _ tt

  created_by :
      (res : BatchResult) (o : Option String)
      → Exits {S = World B S} Whole Sent (elim o [
        | none ↦ stop (fail_batch create moves Class.server "mailbox create returned no server id")
        | some id ↦ pure (id, res)
      ])
  created_by res none = Exits-stop _ (fail_batch-Whole _ _)
  created_by res (some id) = Exits-pure _ tt

  answered :
      (decoded : List (Decoded B)) (name parent : String) (res : BatchResult) (o : Option Err)
      → Exits Whole Sent (elim o [
        | some e ↦ refiled d create moves decoded name parent e
        | none ↦ created_id d create moves res
      ])
  unfolding created_id
  answered decoded name parent res (some e) = refiled-Exits decoded name parent e
  answered decoded name parent res none = created_by res _

  send_batch-Exits :
      (decoded : List (Decoded B)) (name parent : String)
      → Exits Whole Sent (send_batch d create moves decoded name parent)
  unfolding send_batch
  send_batch-Exits decoded name parent =
      Exits-bind _ _ (Exits-with_err _ _ (λ e. fail_batch-Whole _ _) (λ _. tt))
        λ res _. answered decoded name parent res _

  send_under_parent-Exits :
      (p : CreateMailboxPayload) (decoded : List (Decoded B))
      → Exits Whole Sent (send_under_parent d create moves p decoded)
  unfolding send_under_parent
  send_under_parent-Exits p decoded =
      Exits-reading _ λ w. send_batch-Exits decoded p.name (parent_id create p w)

  batch_body-Exits : Exits Whole Whole (batch_body d create moves)
  unfolding batch_body
  batch_body-Exits =
      Exits-bind _ _ (Exits-check _ _ (λ e _. fail_batch-Whole _ _) (λ _ _. tt)) λ p _.
        Exits-bind _ _ (Exits-check _ _ (λ e _. fail_batch-Whole _ _) (decoded_moves d.json moves))
          λ decoded same. Exits-bind _ _ (send_under_parent-Exits p decoded) λ sent _.
            Exits-bind _ _ (note_resolved-Exits d create create.id sent.0) λ _ _.
              Exits-bind _ _ (Exits-check _ _ (λ e _. fail_batch-Whole _ _) (λ _ _. tt))
                λ payload _.
                  Exits-bind _ _ (Exits-with_err _ _ (λ e. fail_batch-Whole _ _) (λ _. tt)) λ _ _.
                    Exits-bind _ _ (Exits-with_err _ _ (λ e. fail_batch-Whole _ _) (λ _. tt)) λ _ _.
                      Exits-pure _
                        (ap (λ t. create ∷ t) (subjects-move_outcomes decoded sent.1 ∙ same))

  -- Whatever the server and the store answer, a batch reports on its create and on each of its
  -- moves, once and in order.
  pub dispatch_batch-Whole : (w : World B S) → Whole (dispatch_batch d create moves w).0
  unfolding dispatch_batch
  dispatch_batch-Whole = Exits-returning Whole (batch_body d create moves) batch_body-Exits
