-- ===== src/Outbox/Create/Subject.antt =====
-- The intent that a create, a rename or a delete of internal/outbox/dispatch.go reports on.
use beautiful_aerc.Prelude.{
  Result, ok, err, pure, ◌==◌, string_eq, Bool-cases, inl, inr, ℕ, String, ◌≡◌, refl, Result, ok,
  err, not, arith, ◌==◌, string_eq, pure, none,
}
use beautiful_aerc.Prelude.Exits.{
  Exits, Exits-pure, Exits-stop, Exits-if, Exits-bind, Exits-check, Exits-with_err, Exits-attempt,
  Exits-reading, Exits-modify, Exits-returning,
}
use beautiful_aerc.Uerr.{Class, Err, mailbox_name_exists, ambiguous_mailbox, is}
use beautiful_aerc.Outbox.Payload.{CreateMailboxPayload}
use beautiful_aerc.Outbox.Claim.{Claimed}
use beautiful_aerc.Outbox.Outcome.{
  Outcome, done, failed_outcome, terminal_outcome, failed_by, adoption_failure,
}
use beautiful_aerc.Outbox.World.{Dispatcher, World, call, note_resolved}
use beautiful_aerc.Outbox.Create.{
  rename_body, delete_body, create_body, make_and_persist, refused, make_mailbox, ensure_created,
  dispatch_create_mailbox, dispatch_rename_mailbox, dispatch_delete_mailbox, adopt_mailbox,
  parent_id,
}

abbrev pub Anything : {A : Type 0} → A → Type 0
Anything _ = Unit

module _ {B : Type 0} (c : Claimed B) where
  -- the outcome is of the intent `c`
  abbrev pub About : Outcome B → Type 0
  About o = o.c ≡ c

  pub failed_outcome-About : (k : Class) (s : String) → About (failed_outcome c k s)
  unfolding failed_outcome
  failed_outcome-About k s = ground arith

  pub adoption_failure-About : (e : Err) → About (adoption_failure c e)
  unfolding adoption_failure terminal_outcome
  adoption_failure-About e = elim (Bool-cases (is ambiguous_mailbox e)) [
    | inl same ↦ rw same
    | inr other ↦ rw other (failed_outcome-About _ _)
  ]

module _ {B S : Type 0} (d : Dispatcher B S) (c : Claimed B) where
  pub note_resolved-Exits :
      {E : Type 0} {P : E → Type 0} (id : ℕ) (server_id : String)
      → Exits P Anything (note_resolved {B = B} {S = S} id server_id)
  unfolding note_resolved
  note_resolved-Exits id server_id = Exits-modify _ tt

  refused-Exits :
      (name parent : String) (e : Err) → Exits (About c) Anything (refused d c name parent e)
  unfolding refused
  refused-Exits name parent e =
      Exits-if (not (is mailbox_name_exists e)) _ _
        (Exits-stop (failed_by c e) (failed_outcome-About c _ _))
        (Exits-with_err (adoption_failure c) (adopt_mailbox d name parent)
          (adoption_failure-About c) (λ _. tt))

  answered :
      (name parent : String) (made : Result Err String)
      → Unit {0}
      → Exits
          (About c)
          Anything
          (elim made [ ok id ↦ pure {S = World B S} id | err e ↦ refused d c name parent e ])
  answered name parent (ok id) _ = Exits-pure id tt
  answered name parent (err e) _ = refused-Exits name parent e

  make_mailbox-Exits :
      (name parent : String) → Exits (About c) Anything (make_mailbox d c name parent)
  unfolding make_mailbox
  make_mailbox-Exits name parent =
      Exits-bind _ _ (Exits-attempt (call (d.mail.create_mailbox name parent)) (λ _. tt))
        (answered name parent)

  make_and_persist-Exits :
      (p : CreateMailboxPayload) (parent : String)
      → Exits (About c) Anything (make_and_persist d c p parent)
  unfolding make_and_persist
  make_and_persist-Exits p parent = Exits-bind _ _ (make_mailbox-Exits p.name parent) λ id _.
      Exits-bind _ _ (Exits-check _ _ (λ e _. failed_outcome-About c _ _) (λ _ _. tt)) λ payload _.
        Exits-bind _ _ (Exits-with_err _ _ (λ e. failed_outcome-About c _ _) (λ _. tt))
          λ _ _. Exits-pure id tt

  ensure_created-Exits :
      (p : CreateMailboxPayload) → Exits (About c) Anything (ensure_created d c p)
  unfolding ensure_created
  ensure_created-Exits p = Exits-reading _ λ w.
      Exits-if (p.resolved_server_id == "") _ _ (make_and_persist-Exits p (parent_id c p w))
        (Exits-pure p.resolved_server_id tt)

  create_body-Exits : Exits (About c) (About c) (create_body d c)
  unfolding create_body
  create_body-Exits =
      Exits-bind _ _ (Exits-check _ _ (λ x _. failed_outcome-About c _ _) (λ a _. tt)) λ p _.
        Exits-bind _ _ (ensure_created-Exits p) λ id _.
          Exits-bind _ _ (Exits-with_err _ _ (λ x. failed_outcome-About c _ _) (λ a. tt))
            λ _ _. Exits-bind _ _ (note_resolved-Exits c.id id) λ _ _. Exits-pure (done c none) refl

  pub dispatch_create_mailbox-About : (w : World B S) → About c (dispatch_create_mailbox d c w).0
  unfolding dispatch_create_mailbox
  dispatch_create_mailbox-About = Exits-returning (About c) (create_body d c) create_body-Exits

  rename_body-Exits : Exits (About c) (About c) (rename_body d c)
  unfolding rename_body
  rename_body-Exits =
      Exits-bind _ _ (Exits-check _ _ (λ x _. failed_outcome-About c _ _) (λ a _. tt)) λ p _.
        Exits-bind _ _ (Exits-with_err _ _ (λ x. failed_outcome-About c _ _) (λ a. tt))
          λ _ _. Exits-pure (done c none) refl

  pub dispatch_rename_mailbox-About : (w : World B S) → About c (dispatch_rename_mailbox d c w).0
  unfolding dispatch_rename_mailbox
  dispatch_rename_mailbox-About = Exits-returning (About c) (rename_body d c) rename_body-Exits

  delete_body-Exits : Exits (About c) (About c) (delete_body d c)
  unfolding delete_body
  delete_body-Exits =
      Exits-bind _ _ (Exits-with_err _ _ (λ x. failed_outcome-About c _ _) (λ a. tt))
        λ _ _. Exits-pure (done c none) refl

  pub dispatch_delete_mailbox-About : (w : World B S) → About c (dispatch_delete_mailbox d c w).0
  unfolding dispatch_delete_mailbox
  dispatch_delete_mailbox-About = Exits-returning (About c) (delete_body d c) delete_body-Exits
