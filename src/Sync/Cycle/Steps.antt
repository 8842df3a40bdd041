-- ===== src/Sync/Cycle/Steps.antt =====
-- applyChangeSet of internal/sync/apply.go: a page as one list of changes.
use Prim.Native.Char.{Char}
use beautiful_aerc.Prelude.{ℕ, String, List, ◌++◌, map, Result, ◌≡◌, refl, ◌⊎◌, inl, inr, ◌>>=◌}
use beautiful_aerc.Prelude.Keeps.{Keeps, Keeps-bind}
use beautiful_aerc.Uerr.{Err}
use beautiful_aerc.Backend.{ObjectKind}
use beautiful_aerc.Store.Mail.{MailDb}
use beautiful_aerc.Sync.Records.{Record}
use beautiful_aerc.Sync.Echo.{Tracker}
use beautiful_aerc.Sync.Bulk.{World, apply_chunked}
use beautiful_aerc.Sync.Bulk.Chunked.{Chunked, chunked_lem, apply_chunked-echo}
use beautiful_aerc.Sync.Bulk.Sequenced.{Chunked-map, Chunked-then}
use beautiful_aerc.Sync.Cycle.{ChangeSet, upsert_unless, destroy_unless, apply_change_set}

-- a record that is written, or an id that is destroyed
abbrev pub Change : Type 0
Change = Record ⊎ String

abbrev pub changes : ChangeSet → List Change
changes cs = map inl cs.created ++ (map inl cs.updated ++ map inr cs.destroyed)

module _ (normal : String → List Char) (account : ℕ) (kind : ObjectKind) (skip : List String) where
  abbrev pub change : Change → MailDb → Result Err MailDb
  change (inl rec) = upsert_unless normal account kind skip rec
  change (inr id) = destroy_unless normal account kind skip id

  upserted :
      (recs : List Record) (w : World)
      → Chunked change
          (map inl recs)
          w.store.db
          (apply_chunked (upsert_unless normal account kind skip) recs w).0
          (apply_chunked (upsert_unless normal account kind skip) recs w).1.store.db
  upserted recs w =
      let up = upsert_unless normal account kind skip in
      Chunked-map up change inl (λ _ _. refl) recs w.store.db _ _ (chunked_lem up recs w)

  destroyed :
      (ids : List String) (w : World)
      → Chunked change
          (map inr ids)
          w.store.db
          (apply_chunked (destroy_unless normal account kind skip) ids w).0
          (apply_chunked (destroy_unless normal account kind skip) ids w).1.store.db
  destroyed ids w =
      let down = destroy_unless normal account kind skip in
      Chunked-map down change inr (λ _ _. refl) ids w.store.db _ _ (chunked_lem down ids w)

  -- the page reaches the store as a whole, or up to a chunk that failed
  pub apply_change_set_lem :
      (cs : ChangeSet) (w : World)
      → Chunked change
          (changes cs)
          w.store.db
          (apply_change_set normal account kind cs skip w).0
          (apply_change_set normal account kind cs skip w).1.store.db
  unfolding apply_change_set
  apply_change_set_lem cs w =
      let up = upsert_unless normal account kind skip in
      let down = destroy_unless normal account kind skip in
      Chunked-then change (map inl cs.created) (map inl cs.updated ++ map inr cs.destroyed)
        (apply_chunked up cs.created)
        (apply_chunked up cs.updated >>= λ _. apply_chunked down cs.destroyed) w
        (upserted cs.created w)
        (λ v.
          Chunked-then change (map inl cs.updated) (map inr cs.destroyed)
            (apply_chunked up cs.updated) (apply_chunked down cs.destroyed) v
            (upserted cs.updated v) (destroyed cs.destroyed))

  pub apply_change_set-echo :
      (e : Tracker) (cs : ChangeSet)
      → Keeps (λ w. w.echo ≡ e) (apply_change_set normal account kind cs skip)
  unfolding apply_change_set
  apply_change_set-echo e cs =
      let up = upsert_unless normal account kind skip in
      let down = destroy_unless normal account kind skip in
      Keeps-bind (apply_chunked up cs.created)
        (λ _. apply_chunked up cs.updated >>= λ _. apply_chunked down cs.destroyed)
        (apply_chunked-echo up e cs.created)
        (λ _.
          Keeps-bind (apply_chunked up cs.updated) (λ _. apply_chunked down cs.destroyed)
            (apply_chunked-echo up e cs.updated) (λ _. apply_chunked-echo down e cs.destroyed))
