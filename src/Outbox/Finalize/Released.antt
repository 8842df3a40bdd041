-- ===== src/Outbox/Finalize/Released.antt =====
-- What `finalize` of internal/outbox/dispatch.go leaves of the intents that a pass has claimed.
use beautiful_aerc.Prelude.{
  ℕ, ◌+◌, List, [], ◌∷◌, ◌≡◌, refl, sym, subst, ◌⊎◌, inl, inr, Result, ok, err, nat_eq, arith,
}
use beautiful_aerc.Uerr.{Err, joined}
use beautiful_aerc.Store.{Store}
use beautiful_aerc.Store.Transactions.{Transacted, committed, rolled_back, transacted}
use beautiful_aerc.Outbox.Row.{Row, Db}
use beautiful_aerc.Outbox.Row.Accounted.{
  Accounted, AllQueued, Accounted-nil, Accounted-delete_row, Accounted-revert_row,
  Accounted-requeue_row, Accounted-recover_row,
}
use beautiful_aerc.Outbox.Failure.{backoff}
use beautiful_aerc.Outbox.Pass.{FinalizeAction, FinalizeVerb, delete, requeue, revert}
use beautiful_aerc.Outbox.Pass.Coverage.{action_ids}
use beautiful_aerc.Outbox.Finalize.{
  apply_by, apply_action, recover_by, revert_action, each_action, each_action_tx, recovered,
  finalized, finalize,
}

module _ {B : Type 0} where
  Accounted-apply_by :
      (v : FinalizeVerb) (a : FinalizeAction) (ids : List ℕ) (now : ℕ) (rows : List (Row B))
      → Accounted (a.id ∷ ids) rows
      → Accounted ids (apply_by v a now rows)
  unfolding apply_by
  Accounted-apply_by delete a ids now rows = Accounted-delete_row a.id ids rows
  Accounted-apply_by revert a ids now rows = Accounted-revert_row a.id ids rows
  Accounted-apply_by requeue a ids now rows =
      Accounted-requeue_row a.id ids (now + backoff a.attempt) a.class a.detail rows

  Accounted-recover_by :
      (v : FinalizeVerb) (a : FinalizeAction) (ids : List ℕ) (now : ℕ) (rows : List (Row B))
      → Accounted (a.id ∷ ids) rows
      → Accounted ids (recover_by v a now rows)
  unfolding recover_by
  Accounted-recover_by requeue a ids now rows =
      Accounted-recover_row a.id ids (now + backoff a.attempt) a.class rows
  Accounted-recover_by delete a ids now rows = Accounted-revert_row a.id ids rows
  Accounted-recover_by revert a ids now rows = Accounted-revert_row a.id ids rows

  -- The loop of either transaction settles every row that its actions answer for.
  AllQueued-each_action :
      (f : FinalizeAction → ℕ → List (Row B) → List (Row B))
      → ((a : FinalizeAction) (ids : List ℕ) (now : ℕ) (rows : List (Row B))
          → Accounted (a.id ∷ ids) rows
          → Accounted ids (f a now rows))
      → (as' : List FinalizeAction) (now : ℕ) (rows : List (Row B))
      → Accounted (action_ids as') rows
      → AllQueued (each_action f as' now rows)
  unfolding each_action
  AllQueued-each_action f settles [] now rows h = Accounted-nil rows h
  AllQueued-each_action f settles (a ∷ as') now rows h =
      AllQueued-each_action f settles as' now (f a now rows) (settles a (action_ids as') now rows h)

  apply_settles :
      (a : FinalizeAction) (ids : List ℕ) (now : ℕ) (rows : List (Row B))
      → Accounted (a.id ∷ ids) rows
      → Accounted ids (apply_action a now rows)
  unfolding apply_action
  apply_settles a = Accounted-apply_by a.verb a

  revert_settles :
      (a : FinalizeAction) (ids : List ℕ) (now : ℕ) (rows : List (Row B))
      → Accounted (a.id ∷ ids) rows
      → Accounted ids (revert_action a now rows)
  unfolding revert_action
  revert_settles a = Accounted-recover_by a.verb a

  -- nothing is dispatching, or two failed transactions are reported together
  abbrev pub Released : {A : Type 0} → Result Err A → List (Row B) → Type 0
  Released r rows = AllQueued rows ⊎ ((e : Err) × (e' : Err) × (r ≡ err (joined e e')))

  AllQueued-tx :
      (f : FinalizeAction → ℕ → List (Row B) → List (Row B))
      → ((a : FinalizeAction) (ids : List ℕ) (now : ℕ) (rows : List (Row B))
          → Accounted (a.id ∷ ids) rows
          → Accounted ids (f a now rows))
      → (as' : List FinalizeAction) (now : ℕ) (db db' : Db B) (u : Unit {0})
      → each_action_tx f as' now db ≡ ok (u, db')
      → Accounted (action_ids as') db.rows
      → AllQueued db'.rows
  unfolding each_action_tx
  AllQueued-tx f settles as' now db db' u e h =
      subst AllQueued (ground arith) (AllQueued-each_action f settles as' now db.rows h)

  recovered-Released :
      (as' : List FinalizeAction) (now : ℕ) (s : Store (Db B)) (e : Err) (r : Result Err (Unit {0}))
      (t : Store (Db B))
      → Transacted (each_action_tx revert_action as' now) s r t
      → Accounted (action_ids as') s.db.rows
      → Released (recovered e r t).0 (recovered e r t).1.db.rows
  unfolding recovered
  recovered-Released as' now s e (err e') t h a = inr (e, e', refl)
  recovered-Released as' now s e (ok u) t (committed a db ran q same v) h = inl (
      subst (λ d. AllQueued d.rows) (sym same)
        (AllQueued-tx revert_action revert_settles as' now s.db db a ran h))
  recovered-Released as' now s e (ok u) t (rolled_back e' q same v) h = ground arith

  finalized-Released :
      (as' : List FinalizeAction) (now : ℕ) (s : Store (Db B)) (r : Result Err (Unit {0}))
      (t : Store (Db B))
      → Transacted (each_action_tx apply_action as' now) s r t
      → Accounted (action_ids as') s.db.rows
      → Released (finalized as' now r t).0 (finalized as' now r t).1.db.rows
  unfolding finalized
  finalized-Released as' now s (ok u) t (committed a db ran q same v) h = inl (
      subst (λ d. AllQueued d.rows) (sym same)
        (AllQueued-tx apply_action apply_settles as' now s.db db a ran h))
  finalized-Released as' now s (ok u) t (rolled_back e' q same v) h = ground arith
  finalized-Released as' now s (err e) t (committed a db ran q same v) h = ground arith
  finalized-Released as' now s (err e) t (rolled_back e' q same v) h =
      recovered-Released as' now t e _ _ (transacted (each_action_tx revert_action as' now) t)
        (subst (λ d. Accounted (action_ids as') d.rows) (sym same) h)

  -- Where every row is queued or has an action for its id, finalize leaves no row dispatching, or
  -- its transaction and the recovery both failed and the error that it returns joins the two.
  pub finalize-Released :
      (as' : List FinalizeAction) (now : ℕ) (s : Store (Db B))
      → Accounted (action_ids as') s.db.rows
      → Released (finalize as' now s).0 (finalize as' now s).1.db.rows
  unfolding finalize
  finalize-Released as' now s h =
      finalized-Released as' now s _ _ (transacted (each_action_tx apply_action as' now) s) h
