-- ===== src/Store.antt =====
-- internal/store/writer.go and internal/store/revision.go: one transaction on the writer.
-- The database itself is SQLite's; here a transaction's closure is a function on the value that
-- the database holds, and a `Fault` says what SQLite or the context answers to one access.
use beautiful_aerc.Prelude.{String, ℕ, suc, List, [], ◌∷◌, ◌++◌, Result, ok, err}
pub mod Transactions
pub mod Mail
pub mod Flags
pub mod Lanes
use beautiful_aerc.Uerr.{Err, LogLine, store_local, new}

pub data Fault : Type 0 where
  clean : Fault
  refused begin_failed statement_failed commit_failed : Err → Fault

pub record Store (D : Type 0) : Type 0 where
  pub db : D
  pub revision : ℕ
  pub log : List LogLine
  pub faults : List Fault

-- The closure that a transaction runs: its error rolls everything back.
abbrev pub Tx : Type 0 → Type 0 → Type 0
Tx D A = D → Result Err (A × D)

abbrev pub op_write : String
op_write = "store.write"

abbrev next_fault : List Fault → Fault
next_fault [] = clean
next_fault (f ∷ fs) = f

abbrev later_faults : List Fault → List Fault
later_faults [] = []
later_faults (f ∷ fs) = fs

module _ {D A : Type 0} where
  -- localErr: a failure of the store, logged by `uerr.New`
  pub local_err : String → Err → Store D → Result Err A × Store D
  local_err op e s = (
    err (new op [] store_local e),
    record s { log = s.log ++ record { op = op; ids = []; class = store_local; cause = e } ∷ [] },
  )

  -- the end of `execute`: the database as it was, which is SQLite's rollback, or commit and advance the
  -- revision
  pub settle : String → Result Err (A × D) → Store D → Result Err A × Store D
  unfolding local_err
  settle op (err e) s = local_err op e s
  settle op (ok (a, d)) s = (ok a, record s { db = d; revision = suc s.revision })

  -- `enqueue` (admission) and `execute`
  pub execute : String → Fault → Tx D A → Store D → Result Err A × Store D
  unfolding settle local_err
  execute op clean fn s = settle op (fn s.db) s
  execute op (refused e) fn s = local_err op e s
  execute op (begin_failed e) fn s = local_err op e s
  execute op (statement_failed e) fn s = local_err op e s
  execute op (commit_failed e) fn s = local_err op e s

  -- ApplyInteractive
  unfoldable pub apply_interactive : Tx D A → Store D → Result Err A × Store D
  unfolding execute
  apply_interactive fn s =
      execute op_write (next_fault s.faults) fn (record s { faults = later_faults s.faults })

  -- Apply: the same, on the bulk lane
  unfoldable pub apply : Tx D A → Store D → Result Err A × Store D
  unfolding execute
  apply fn s =
      execute op_write (next_fault s.faults) fn (record s { faults = later_faults s.faults })

  -- a query on a read connection: it changes nothing, and its failure is local
  unfoldable pub query : String → (D → A) → Store D → Result Err A × Store D
  unfolding execute
  query op f s =
      let t = record s { faults = later_faults s.faults } in
      elim (next_fault s.faults) [
        | clean ↦ (ok (f s.db), t)
        | refused e ↦ local_err op e t
        | begin_failed e ↦ local_err op e t
        | statement_failed e ↦ local_err op e t
        | commit_failed e ↦ local_err op e t
      ]
