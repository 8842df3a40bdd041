-- ===== src/Outbox/Undo.antt =====
-- internal/outbox/undo.go and reclaim.go: taking back intents that no pass has claimed, and
-- returning to the queue what a dead process had claimed.
pub mod Laws
use beautiful_aerc.Prelude.{ℕ, List, [], ◌∷◌, ok, Exec, if◌then◌else◌}
use beautiful_aerc.Uerr.{Err}
use beautiful_aerc.Store.{Store, Tx, apply_interactive}
use beautiful_aerc.Outbox.Row.{Row, Db, annihilate, requeue_dispatching}

module _ {B : Type 0} where
  -- the loop of Undo: the ids that it caught, and the table it leaves
  unfoldable pub annihilate_all : List ℕ → List (Row B) → List ℕ × List (Row B)
  annihilate_all [] rows = ([], rows)
  annihilate_all (id ∷ ids) rows =
      let (hit, rows') = annihilate id rows in
      let (caught, rows'') = annihilate_all ids rows' in
      (if hit then id ∷ caught else caught, rows'')

  unfoldable pub undo_tx : List ℕ → Tx (Db B) (List ℕ)
  unfolding annihilate_all
  undo_tx ids db =
      let (caught, rows) = annihilate_all ids db.rows in ok (caught, record db { rows = rows })

  unfoldable pub undo : List ℕ → Exec (Store (Db B)) Err (List ℕ)
  unfolding undo_tx
  undo ids = apply_interactive (undo_tx ids)

  unfoldable pub reclaim_tx : Tx (Db B) ℕ
  reclaim_tx db = let (n, rows) = requeue_dispatching db.rows in ok (n, record db { rows = rows })

  -- ReclaimOrphaned, with the count that it logs
  unfoldable pub reclaim_orphaned : Exec (Store (Db B)) Err ℕ
  unfolding reclaim_tx
  reclaim_orphaned = apply_interactive reclaim_tx
