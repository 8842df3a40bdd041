-- ===== src/Sync/Cycle/Sweep.antt =====
-- deleteStale of internal/sync/resync.go over the messages, with its transactions: where it comes to
-- its end, the pages of Sync.Resync have been deleted.
use Prim.Native.Char.{Char}
use beautiful_aerc.Prelude.{
  true, false, ℕ, zero, suc, String, List, [], ◌∷◌, Result, ok, err, ◌==◌, nat_eq, pure, ◌>>=◌, ◌≡◌,
  refl, subst, sym, ap, ◌∙◌, Bool-cases, ◌⊎◌, inl, inr,
}
use beautiful_aerc.Uerr.{Err}
use beautiful_aerc.Backend.{message}
use beautiful_aerc.Store.Mail.{MailDb}
use beautiful_aerc.Store.Mail.Stale.{stale_message_ids}
use beautiful_aerc.Store.Mail.Message.{delete_message_by_id}
use beautiful_aerc.Sync.Bulk.{SyncDb, World, Halt, failed, run_bulk_chunks, each, apply_chunked}
use beautiful_aerc.Sync.Bulk.Chunked.{landed, stopped, bulk, whole, short, chunked_lem}
use beautiful_aerc.Sync.Cycle.{stale_ids, scan_tx, delete_by_id, delete_stale_from}
use beautiful_aerc.Sync.Cycle.Kept.{scan_tx-eq-ok}
use beautiful_aerc.Sync.Resync.{stale_scan_page, delete_each}
use beautiful_aerc.Sync.Resync

each-delete_by_id :
    (ids : List ℕ) (db m : MailDb)
    → each (delete_by_id message) ids db ≡ ok m
    → m ≡ delete_each ids db
unfolding delete_by_id
each-delete_by_id [] db m h = cc
each-delete_by_id (i ∷ is) db m h = each-delete_by_id is (delete_message_by_id i db) m h

module _ (normal : String → List Char) (account : ℕ) (keep : List String) where
  abbrev swept : ℕ → ℕ → MailDb → MailDb
  swept fuel after db = Resync.delete_stale_from fuel account keep after db

  abbrev page_of : ℕ → MailDb → List ℕ × ℕ
  page_of after db = stale_message_ids account keep after stale_scan_page db.messages

  module _ (fuel after : ℕ) (db : MailDb) where
    swept_last : ((page_of after db).1 == 0) ≡ true → swept (suc fuel) after db ≡ db
    unfolding Resync.delete_stale_from stale_message_ids
    swept_last h = rw h refl

    swept_more :
        ((page_of after db).1 == 0) ≡ false
        → swept (suc fuel) after db
          ≡ swept fuel (page_of after db).1 (delete_each (page_of after db).0 db)
    unfolding Resync.delete_stale_from stale_message_ids
    swept_more h = rw h refl

  abbrev pub Sweeps : MailDb → Result Halt Unit → SyncDb → Type 0
  Sweeps m r t = ((r ≡ ok tt) × (t.mail ≡ m)) ⊎ ((x : Err) × (r ≡ err (failed x)))

  pub delete_stale_from-swept :
      (fuel after : ℕ) (w : World)
      → Sweeps
          (swept fuel after w.store.db.mail)
          (delete_stale_from normal account message fuel keep after w).0
          (delete_stale_from normal account message fuel keep after w).1.store.db
  unfolding delete_stale_from Resync.delete_stale_from stale_ids ◌>>=◌ pure
  delete_stale_from-swept zero after w = inl (refl, refl)
  delete_stale_from-swept (suc fuel) after w =
      let scan = scan_tx account message keep after in
      let v = (run_bulk_chunks scan w).1 in
      elim (bulk scan w) [
        | landed (stale, cursor) db f e p ↦
            let (g, q) = scan_tx-eq-ok account message keep after w.store.db db (stale, cursor) f in
            let page : stale_message_ids account keep after stale_scan_page w.store.db.mail.messages
                ≡ (stale, cursor) =
              cc in
            elim (Bool-cases (cursor == 0)) [
              | inl done ↦
                  rw (delete_stale_from, e, done)
                    (inl (
                      refl,
                      ap (λ z. z.mail) (p ∙ q)
                          ∙ sym (
                              swept_last fuel after w.store.db.mail
                                (ap (λ z. z.1 == 0) page ∙ done)),
                    ))
              | inr more ↦
                  let turn =
                    swept_more fuel after w.store.db.mail (ap (λ z. z.1 == 0) page ∙ more)
                    ∙ ap (λ z. swept fuel z.1 (delete_each z.0 w.store.db.mail)) page in
                  rw (delete_stale_from, e, more, turn)
                    (elim (chunked_lem (delete_by_id message) stale v) [
                      | whole m h x t ↦ rw x (
                          subst
                            (λ z.
                              Sweeps (swept fuel cursor z)
                                (delete_stale_from normal account message fuel keep cursor
                                  (apply_chunked (delete_by_id message) stale v).1).0
                                (delete_stale_from normal account message fuel keep cursor
                                  (apply_chunked (delete_by_id message) stale v).1).1.store.db)
                            (ap (λ z. z.mail) t
                              ∙ each-delete_by_id stale v.store.db.mail m h
                              ∙ ap (λ z. delete_each stale z.mail) (p ∙ q))
                            (delete_stale_from-swept fuel cursor
                              (apply_chunked (delete_by_id message) stale v).1))
                      | short done rest m y c h x t ↦ rw x (inr (y, refl))
                    ])
            ]
        | stopped x e p ↦ rw (delete_stale_from, e) (inr (x, refl))
      ]
