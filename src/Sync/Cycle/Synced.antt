-- ===== src/Sync/Cycle/Synced.antt =====
-- SyncKind of internal/sync/sync.go from the watermark that it loads.
use Prim.Native.Char.{Char}
use beautiful_aerc.Prelude.{
  ℕ, String, List, Result, ok, err, ◌≡◌, refl, subst, sym, ◌∙◌, ◌>>=◌, lookup_or, string_eq,
}
use beautiful_aerc.Uerr.{Err}
use beautiful_aerc.Backend.{ObjectKind}
use beautiful_aerc.Sync.Bulk.{SyncDb, state_key_eq, World, Watermark, Halt, failed}
use beautiful_aerc.Sync.Bulk.Chunked.{landed, stopped, applied_bulk}
use beautiful_aerc.Sync.Cycle.{
  Answer, state_key, no_watermark, load_tx, load_watermark, sync_pages, sync_kind,
}
use beautiful_aerc.Sync.Cycle.Progress.{Progress, sync_pages_lem}

module _ (normal : String → List Char) (account : ℕ) (kind : ObjectKind) where
  -- the watermark that the tables hold
  abbrev pub stored : SyncDb → Watermark
  stored s = lookup_or no_watermark (state_key account kind) s.states

  -- the end of a cycle: it does not start, or it progresses from the watermark that is stored
  pub data Synced (w : World) (answers : List Answer) (r : Result Halt Unit) (t : SyncDb)
      : Type 0 where
    unread : (x : Err) → r ≡ err (failed x) → t ≡ w.store.db → Synced w answers r t
    synced :
        Progress normal account kind (stored w.store.db) w.echo answers r w.store.db t
        → Synced w answers r t

  -- Whatever the server answers and whichever transactions fail, a sync cycle is a progress of
  -- whole pages: each page that asks for another is applied completely, less the records that this
  -- client changed itself, and only then is its token stored, one revision on; the page at which the
  -- cycle ends is applied up to a change after which nothing more is written, and the watermark is
  -- that of the page before. A reset leads to the full resync, any other error is returned, and a
  -- page that asks for another under the token it was asked for ends the cycle with nothing written.
  pub sync_kind-Synced :
      (answers : List Answer) (w : World)
      → Synced w answers
          (sync_kind normal account kind answers w).0
          (sync_kind normal account kind answers w).1.store.db
  unfolding sync_kind load_watermark ◌>>=◌
  sync_kind-Synced answers w =
      let v = (load_watermark account kind w).1 in
      elim (applied_bulk (load_tx account kind) (ok tt) w) [
        | landed a db f e p ↦
            let read : (stored w.store.db ≡ a) × (w.store.db ≡ db) = (cc, cc) in
            rw (sync_kind, e)
              (synced (
                subst
                  (λ z.
                    Progress normal account kind z w.echo answers
                      (sync_pages normal account kind answers a v).0 w.store.db
                      (sync_pages normal account kind answers a v).1.store.db)
                  (sym read.0)
                  (subst
                    (λ z.
                      Progress normal account kind a w.echo answers
                        (sync_pages normal account kind answers a v).0 z
                        (sync_pages normal account kind answers a v).1.store.db)
                    (p ∙ sym read.1) (sync_pages_lem normal account kind answers a v))))
        | stopped x e p ↦ rw (sync_kind, e) (unread x refl p)
      ]
