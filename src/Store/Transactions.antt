-- ===== src/Store/Transactions.antt =====
-- The two ends of a transaction of internal/store/writer.go.
use beautiful_aerc.Prelude.{suc, List, ◌≡◌, refl, Result, ok, err, arith, subst, sym}
use beautiful_aerc.Uerr.{Err}
use beautiful_aerc.Store.{
  Store, Tx, Fault, clean, refused, begin_failed, statement_failed, commit_failed, local_err,
  settle, execute, apply_interactive, apply, later_faults, next_fault, op_write, query,
}

module _ {D A : Type 0} where
  -- the two ends of a transaction
  pub data Transacted (fn : Tx D A) (s : Store D) (r : Result Err A) (t : Store D) : Type 0 where
    committed :
        (a : A) (db : D)
        → fn s.db ≡ ok (a, db)
        → r ≡ ok a
        → t.db ≡ db
        → t.revision ≡ suc s.revision
        → Transacted fn s r t
    rolled_back :
        (e : Err) → r ≡ err e → t.db ≡ s.db → t.revision ≡ s.revision → Transacted fn s r t

  Transacted-settle :
      (op : _) (fn : Tx D A) (s : Store D) (x : Result Err (A × D))
      → fn s.db ≡ x
      → Transacted fn s (settle op x s).0 (settle op x s).1
  unfolding settle local_err
  Transacted-settle op fn s (ok (a, db)) e = committed a db e refl refl refl
  Transacted-settle op fn s (err e') e = rolled_back _ refl refl refl

  Transacted-execute :
      (op : _) (f : Fault) (fn : Tx D A) (s : Store D)
      → Transacted fn s (execute op f fn s).0 (execute op f fn s).1
  unfolding execute local_err
  Transacted-execute op clean fn s = Transacted-settle op fn s (fn s.db) refl
  Transacted-execute op (refused e) fn s = rolled_back _ refl refl refl
  Transacted-execute op (begin_failed e) fn s = rolled_back _ refl refl refl
  Transacted-execute op (statement_failed e) fn s = rolled_back _ refl refl refl
  Transacted-execute op (commit_failed e) fn s = rolled_back _ refl refl refl

  of_later :
      (fn : Tx D A) (s : Store D) {fs : List Fault} (r : Result Err A) (t : Store D)
      → Transacted fn (record s { faults = fs }) r t
      → Transacted fn s r t
  of_later fn s r t (committed a db e q p v) = committed a db e q p v
  of_later fn s r t (rolled_back e q p v) = rolled_back e q p v

  -- A transaction on the writer commits the whole of what its closure computed, advancing the
  -- revision by one, or returns an error and leaves the database and the revision as they were.
  pub transacted :
      (fn : Tx D A) (s : Store D)
      → Transacted fn s (apply_interactive fn s).0 (apply_interactive fn s).1
  unfolding apply_interactive
  transacted fn s = of_later fn s _ _ (
      Transacted-execute op_write (next_fault s.faults) fn
        (record s { faults = later_faults s.faults }))

  pub applied : (fn : Tx D A) (s : Store D) → Transacted fn s (apply fn s).0 (apply fn s).1
  unfolding apply
  applied fn s = of_later fn s _ _ (
      Transacted-execute op_write (next_fault s.faults) fn
        (record s { faults = later_faults s.faults }))

  -- what every successful closure keeps of the database, the transaction keeps
  pub apply_interactive-keeps :
      (J : D → Type 0) (fn : Tx D A) (s : Store D)
      → ((a : A) (db : D) → fn s.db ≡ ok (a, db) → J s.db → J db)
      → J s.db
      → J (apply_interactive fn s).1.db
  apply_interactive-keeps J fn s h j = elim (transacted fn s) [
    | committed a db e q p v ↦ subst J (sym p) (h a db e j)
    | rolled_back e q p v ↦ subst J (sym p) j
  ]

  pub query-keeps : (op : _) (f : D → A) (s : Store D) → (query op f s).1.db ≡ s.db
  unfolding query
  query-keeps op f s = ground arith
