-- ===== src/Sync/Cycle/Kept.antt =====
-- What SyncKind and its full resync, of internal/sync/sync.go and resync.go, keep of the tables.
use Prim.Native.Char.{Char}
use beautiful_aerc.Prelude.{
  ℕ, zero, suc, String, List, [], ◌∷◌, Bool, true, false, Result, ok, err, Result-cases,
  and_then-eq-ok, ◌==◌, nat_eq, if◌then◌else◌, pure, ◌≡◌, subst, sym, assign, inl, inr, string_eq,
}
use beautiful_aerc.Prelude.Keeps.{Keeps-bind, Keeps-pure, Keeps-stop, Keeps-if}
use beautiful_aerc.Uerr.{Err, is, state_reset}
use beautiful_aerc.Backend.{ObjectKind}
use beautiful_aerc.Store.Mail.{MailDb}
use beautiful_aerc.Sync.Bulk.{
  SyncDb, state_key_eq, Watermark, failed, waiting, run_bulk_chunks, apply_chunked,
}
use beautiful_aerc.Sync.Bulk.Kept.{
  Keeping, Kept, run_bulk_chunks-keeps, apply_bulk-keeps, apply_chunked-keeps,
}
use beautiful_aerc.Sync.Cycle.{
  ChangeSet, Answer, skips, scan_tx, scan_fuel, stale_ids, upsert, destroy, upsert_unless,
  destroy_unless, delete_by_id, save_watermark, save, state_key, delete_stale_from, delete_stale,
  pull, full_resync, apply_change_set, check_state_advanced, consume_echo, sync_pages, load_tx,
  load_watermark, sync_kind,
}

unfoldable pub scan_tx-eq-ok :
    (account : ℕ) (kind : ObjectKind) (keep : List String) (after : ℕ) (s t : SyncDb)
    (a : List ℕ × ℕ)
    → scan_tx account kind keep after s ≡ ok (a, t)
    → (stale_ids account kind keep after s.mail ≡ ok a) × (t ≡ s)
scan_tx-eq-ok account kind keep after s t a h =
    let (r, e, f) =
      and_then-eq-ok (stale_ids account kind keep after s.mail) (λ r. ok (r, s)) {b = (a, t)} h in
    let q : r ≡ a = cc in (subst (λ z. stale_ids account kind keep after s.mail ≡ ok z) q e, cc)

module _ (normal : String → List Char) (account : ℕ) (kind : ObjectKind) (J : SyncDb → Type 0) where
  module _ (deletes : Keeping J (delete_by_id kind)) where
    pub delete_stale_from-keeps :
        (fuel : ℕ) (keep : List String) (after : ℕ)
        → Kept J (delete_stale_from normal account kind fuel keep after)
    unfolding delete_stale_from
    delete_stale_from-keeps zero keep after = Keeps-pure tt
    delete_stale_from-keeps (suc fuel) keep after =
        Keeps-bind (run_bulk_chunks (scan_tx account kind keep after)) _
          (run_bulk_chunks-keeps J (scan_tx account kind keep after)
            (λ a s t e j. subst J (sym (scan_tx-eq-ok account kind keep after s t a e).1) j))
          (λ (stale, cursor). Keeps-if (cursor == 0) (pure tt) _ (Keeps-pure tt) (
            Keeps-bind (apply_chunked (delete_by_id kind) stale) _
              (apply_chunked-keeps J (delete_by_id kind) deletes stale)
              (λ _. delete_stale_from-keeps fuel keep cursor)))

    pub delete_stale-keeps : (keep : List String) → Kept J (delete_stale normal account kind keep)
    unfolding delete_stale
    delete_stale-keeps keep = record {
      at = λ w. (delete_stale_from-keeps (scan_fuel w.store.db) keep 0).at w;
    }

  module _ (upserts : Keeping J (upsert normal account kind)) where
    pub pull-keeps :
        (answers : List Answer) (keep : List String) (token : String)
        → Kept J (pull normal account kind answers keep token)
    unfolding pull
    pull-keeps [] keep token = Keeps-stop waiting
    pull-keeps (err e ∷ answers) keep token = Keeps-stop (failed e)
    pull-keeps (ok cs ∷ answers) keep token =
        elim (Result-cases (check_state_advanced kind token cs)) [
          | inl (_, e) ↦
              rw (pull, e)
                (Keeps-bind (apply_chunked (upsert normal account kind) cs.created) _
                  (apply_chunked-keeps J (upsert normal account kind) upserts cs.created)
                  (λ _.
                    Keeps-if cs.has_more _ _ (pull-keeps answers _ cs.new_token) (Keeps-pure _)))
          | inr (_, e) ↦ rw (pull, e) (Keeps-stop _)
        ]

  -- the writing of a watermark
  abbrev pub Saving : Type 0
  Saving =
      (s : SyncDb) (wm : Watermark)
      → J s
      → J (record s { states = assign (state_key account kind) wm s.states })

  save-keeps : Saving → (wm : Watermark) → Kept J (save normal account kind wm)
  unfolding save save_watermark
  save-keeps saves wm = run_bulk_chunks-keeps J (save_watermark account kind wm) (λ a s t e j.
      let q : record s { states = assign (state_key account kind) wm s.states } ≡ t = cc in
      subst J q (saves s wm j))

  unless_at :
      (b : Bool) (r : Result Err MailDb) (s : SyncDb) (m : MailDb)
      → (r ≡ ok m → J s → J (record s { mail = m }))
      → (if b then ok s.mail else r) ≡ ok m
      → J s
      → J (record s { mail = m })
  unless_at true r s m h e j = let q : s.mail ≡ m = cc in subst (λ z. J (record s { mail = z })) q j
  unless_at false r s m h e j = h e j

  unless-keeps :
      {T : Type 0} (b : T → Bool) (fn : T → MailDb → Result Err MailDb)
      → Keeping J fn
      → Keeping J (λ x db. if b x then ok db else fn x db)
  unless-keeps b fn h x s m e j = unless_at (b x) (fn x s.mail) s m (h x s m) e j

  module _ (upserts : Keeping J (upsert normal account kind))
      (destroys : Keeping J (destroy normal account kind)) (deletes : Keeping J (delete_by_id kind))
      (saves : Saving) where
    full_resync-keeps : (answers : List Answer) → Kept J (full_resync normal account kind answers)
    unfolding full_resync
    full_resync-keeps answers =
        Keeps-bind (pull normal account kind answers [] "") _ (pull-keeps upserts answers [] "")
          (λ (keep, token).
            Keeps-bind (delete_stale normal account kind keep) _ (delete_stale-keeps deletes keep)
              (λ _. save-keeps saves _))

    apply_change_set-keeps :
        (cs : ChangeSet) (skip : List String)
        → Kept J (apply_change_set normal account kind cs skip)
    unfolding apply_change_set
    apply_change_set-keeps cs skip =
        let up = upsert_unless normal account kind skip in
        let down = destroy_unless normal account kind skip in
        let ups = unless-keeps (λ r. skips skip r.id) (upsert normal account kind) upserts in
        Keeps-bind (apply_chunked up cs.created) _ (apply_chunked-keeps J up ups cs.created) (λ _.
          Keeps-bind (apply_chunked up cs.updated) _ (apply_chunked-keeps J up ups cs.updated) (λ _.
            apply_chunked-keeps J down
              (unless-keeps (skips skip) (destroy normal account kind) destroys) cs.destroyed))

    sync_pages-keeps :
        (answers : List Answer) (wm : Watermark)
        → Kept J (sync_pages normal account kind answers wm)
    unfolding sync_pages consume_echo
    sync_pages-keeps [] wm = Keeps-stop waiting
    sync_pages-keeps (err e ∷ answers) wm =
        Keeps-if (is state_reset e) _ _ (full_resync-keeps answers) (Keeps-stop (failed e))
    sync_pages-keeps (ok cs ∷ answers) wm =
        let next : Watermark = record {
          server_state_token = cs.new_token;
          local_rev = suc wm.local_rev;
        } in
        elim (Result-cases (check_state_advanced kind wm.server_state_token cs)) [
          | inl (_, e) ↦
              rw (sync_pages, e)
                (Keeps-bind (consume_echo normal account kind cs.new_token) _
                  (record { at = λ w j. j })
                  (λ skip.
                    Keeps-bind (apply_change_set normal account kind cs skip) _
                      (apply_change_set-keeps cs skip)
                      (λ _.
                        Keeps-bind (save normal account kind next) _ (save-keeps saves next) (λ _.
                          Keeps-if cs.has_more _ _ (sync_pages-keeps answers next)
                            (Keeps-pure tt)))))
          | inr (x, e) ↦ rw (sync_pages, e) (Keeps-stop (failed x))
        ]

    pub sync_kind-keeps : (answers : List Answer) → Kept J (sync_kind normal account kind answers)
    unfolding sync_kind load_watermark
    sync_kind-keeps answers =
        Keeps-bind (load_watermark account kind) _
          (apply_bulk-keeps J (load_tx account kind)
            (λ a s t e j. let q : s ≡ t = cc in subst J q j))
          (λ wm. sync_pages-keeps answers wm)
