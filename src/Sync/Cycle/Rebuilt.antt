-- ===== src/Sync/Cycle/Rebuilt.antt =====
-- fullResync of internal/sync/resync.go: what of the baseline it has written, and of the stale rows
-- deleted, wherever it ends.
use Prim.Native.Char.{Char}
use mathlib.Core.List.{append-nil}
use beautiful_aerc.Prelude.{
  ℕ, zero, suc, String, List, [], ◌++◌, Result, ok, err, ◌==◌, nat_eq, pure, ◌>>=◌, ◌≡◌, refl,
  subst, sym, ap, ◌∙◌, assign, Bool-cases, ◌⊎◌, inl, inr, string_eq,
}
use beautiful_aerc.Uerr.{Err}
use beautiful_aerc.Backend.{ObjectKind}
use beautiful_aerc.Store.Mail.{MailDb}
use beautiful_aerc.Sync.Records.{Record}
use beautiful_aerc.Sync.Bulk.{
  SyncDb, state_key_eq, World, Watermark, Halt, Cycle, failed, run_bulk_chunks, each, apply_chunked,
}
use beautiful_aerc.Sync.Bulk.Chunked.{landed, stopped, bulk, whole, short, chunked_lem, each-append}
use beautiful_aerc.Sync.Cycle.{
  Answer, state_key, scan_tx, scan_fuel, upsert, delete_by_id, save_watermark, save,
  delete_stale_from, delete_stale, pull, full_resync,
}
use beautiful_aerc.Sync.Cycle.Kept.{scan_tx-eq-ok}
use beautiful_aerc.Sync.Cycle.Pulled.{baseline, last_token, record_ids, pulled, halted, pull_lem}

module _ (normal : String → List Char) (account : ℕ) (kind : ObjectKind) where
  abbrev pub up : Record → MailDb → Result Err MailDb
  up = upsert normal account kind

  -- rows deleted by their ids, and nothing else
  pub data Deleted (s : SyncDb) (r : Result Halt Unit) (t : SyncDb) : Type 0 where
    deleted :
        (ids : List ℕ) (m : MailDb)
        → each (delete_by_id kind) ids s.mail ≡ ok m
        → t ≡ record s { mail = m }
        → (r ≡ ok tt) ⊎ ((e : Err) × (r ≡ err (failed e)))
        → Deleted s r t

  after_ids :
      (ids : List ℕ) (s t : SyncDb) (m : MailDb) (r : Result Halt Unit)
      → each (delete_by_id kind) ids s.mail ≡ ok m
      → Deleted (record s { mail = m }) r t
      → Deleted s r t
  after_ids ids s t m r f (deleted more m' g p e) =
      deleted (ids ++ more) m' (each-append (delete_by_id kind) ids more s.mail m f ∙ g) p e

  of_same : {r : Result Halt Unit} {s s' t : SyncDb} → s' ≡ s → Deleted s' r t → Deleted s r t
  of_same {r} {s} {s'} {t} e d = subst (λ z. Deleted z r t) e d

  Deleted-then :
      (stale : List ℕ) (k : Cycle Unit) (v : World)
      → ((u : World) → Deleted u.store.db (k u).0 (k u).1.store.db)
      → (let m = apply_chunked (delete_by_id kind) stale >>= λ _. k in
          Deleted v.store.db (m v).0 (m v).1.store.db)
  unfolding ◌>>=◌
  Deleted-then stale k v h = elim (chunked_lem (delete_by_id kind) stale v) [
    | whole m f e p ↦ rw e (after_ids stale v.store.db _ m _ f (of_same p (h _)))
    | short done rest m x q f e p ↦ rw e (deleted done m f p (inr (x, refl)))
  ]

  Deleted-from :
      (fuel : ℕ) (keep : List String) (after : ℕ) (w : World)
      → Deleted w.store.db
          (delete_stale_from normal account kind fuel keep after w).0
          (delete_stale_from normal account kind fuel keep after w).1.store.db
  unfolding delete_stale_from ◌>>=◌ pure
  Deleted-from zero keep after w = deleted [] w.store.db.mail refl refl (inl refl)
  Deleted-from (suc fuel) keep after w =
      let scan = scan_tx account kind keep after in
      elim (bulk scan w) [
        | landed (stale, cursor) db f e p ↦
            let same =
              p ∙ (scan_tx-eq-ok account kind keep after w.store.db db (stale, cursor) f).1 in
            elim (Bool-cases (cursor == 0)) [
              | inl last ↦
                  rw (delete_stale_from, e, last) (deleted [] w.store.db.mail refl same (inl refl))
              | inr more ↦
                  rw (delete_stale_from, e, more)
                    (of_same same (
                      Deleted-then stale (delete_stale_from normal account kind fuel keep cursor)
                        (run_bulk_chunks scan w).1 (λ u. Deleted-from fuel keep cursor u)))
            ]
        | stopped x e p ↦
            rw (delete_stale_from, e) (deleted [] w.store.db.mail refl p (inr (x, refl)))
      ]

  -- how a full resync leaves the tables, over the answers that it has from the server
  pub data Rebuilt (as' : List Answer) (s : SyncDb) (r : Result Halt Unit) (t : SyncDb)
      : Type 0 where
    interrupted :
        (done rest : List Record) (ids : List ℕ) (m : MailDb) (h : Halt)
        → baseline as' ≡ done ++ rest
        → each up done s.mail ≡ ok m
        → each (delete_by_id kind) ids m ≡ ok t.mail
        → r ≡ err h
        → t.states ≡ s.states
        → Rebuilt as' s r t
    rebuilt :
        (ids : List ℕ) (m : MailDb)
        → each up (baseline as') s.mail ≡ ok m
        → each (delete_by_id kind) ids m ≡ ok t.mail
        → r ≡ ok tt
        → t.states
          ≡ assign
              (state_key account kind)
              (record { server_state_token = last_token as' ""; local_rev = 1 })
              s.states
        → Rebuilt as' s r t

  abbrev wm_after : List Answer → Watermark
  wm_after as' = record { server_state_token = last_token as' ""; local_rev = 1 }

  -- the watermark, once the rows are as they are to be
  marked :
      (as' : List Answer) (s : SyncDb) (ids : List ℕ) (m : MailDb) (v : World)
      → each up (baseline as') s.mail ≡ ok m
      → each (delete_by_id kind) ids m ≡ ok v.store.db.mail
      → v.store.db.states ≡ s.states
      → Rebuilt as' s
          (save normal account kind (wm_after as') v).0
          (save normal account kind (wm_after as') v).1.store.db
  unfolding save save_watermark
  marked as' s ids m v f g q = elim (bulk (save_watermark account kind (wm_after as')) v) [
    | landed a db h e p ↦
        let k : (v.store.db.mail ≡ db.mail)
            × (assign (state_key account kind) (wm_after as') v.store.db.states ≡ db.states) =
          (cc, cc) in
        rebuilt ids m f (g ∙ ap (λ z. ok z) (k.0 ∙ sym (ap (λ z. z.mail) p))) e (
          ap (λ z. z.states) p
          ∙ sym k.1
          ∙ ap (λ z. assign (state_key account kind) (wm_after as') z) q)
    | stopped x e p ↦
        interrupted (baseline as') [] ids m (failed x) (sym (append-nil (baseline as'))) f
          (g ∙ ap (λ z. ok z) (sym (ap (λ z. z.mail) p))) e (ap (λ z. z.states) p ∙ q)
  ]

  swept :
      (as' : List Answer) (s : SyncDb) (keep : List String) (v : World)
      → each up (baseline as') s.mail ≡ ok v.store.db.mail
      → v.store.db.states ≡ s.states
      → (let k = delete_stale normal account kind keep >>= λ _.
            save normal account kind (wm_after as') in
          Rebuilt as' s (k v).0 (k v).1.store.db)
  unfolding ◌>>=◌ delete_stale
  swept as' s keep v f q = elim (Deleted-from (scan_fuel v.store.db) keep 0 v) [
    | deleted ids n g p (inl e) ↦
        rw (delete_stale, e)
          (marked as' s ids v.store.db.mail (delete_stale normal account kind keep v).1 f
            (g ∙ ap (λ z. ok z) (sym (ap (λ z. z.mail) p))) (ap (λ z. z.states) p ∙ q))
    | deleted ids n g p (inr (x, e)) ↦
        rw (delete_stale, e)
          (interrupted (baseline as') [] ids v.store.db.mail (failed x)
            (sym (append-nil (baseline as'))) f (g ∙ ap (λ z. ok z) (sym (ap (λ z. z.mail) p))) refl
            (ap (λ z. z.states) p ∙ q))
  ]

  pub full_resync_lem :
      (as' : List Answer) (w : World)
      → Rebuilt as' w.store.db
          (full_resync normal account kind as' w).0
          (full_resync normal account kind as' w).1.store.db
  unfolding full_resync ◌>>=◌
  full_resync_lem as' w = elim (pull_lem normal account kind as' [] "" w) [
    | pulled m f e p ↦
        rw (full_resync, e)
          (swept as' w.store.db (record_ids (baseline as')) (pull normal account kind as' [] "" w).1
            (f ∙ ap (λ z. ok z) (sym (ap (λ z. z.mail) p))) (ap (λ z. z.states) p))
    | halted done rest m h q f e p ↦
        rw (full_resync, e)
          (interrupted done rest [] m h q f (ap (λ z. ok z) (sym (ap (λ z. z.mail) p))) refl
            (ap (λ z. z.states) p))
  ]
