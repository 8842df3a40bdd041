-- ===== src/Sync/Cycle/Converged.antt =====
-- fullResync of internal/sync/resync.go over the messages, where it comes to its end.
use Prim.Native.Char.{Char}
use beautiful_aerc.Prelude.{
  ℕ, String, List, [], true, not, Result, ok, err, ◌≡◌, refl, subst, sym, ap, ◌∙◌, ◌>>=◌, ◌⊎◌, inl,
  inr, arith, All, assign, filter,
}
use beautiful_aerc.Prelude.Rows.{All-both}
use beautiful_aerc.Backend.{message}
use beautiful_aerc.Store.Mail.{MailDb, MessageRow}
use beautiful_aerc.Store.Mail.Stale.{is_stale_message}
use beautiful_aerc.Sync.Bulk.{SyncDb, state_key_eq, World, Watermark, Halt, failed, each}
use beautiful_aerc.Sync.Bulk.Chunked.{landed, stopped, bulk}
use beautiful_aerc.Sync.Cycle.{
  Answer, state_key, scan_fuel, upsert, save_watermark, save, skips, delete_stale, pull,
  full_resync,
}
use beautiful_aerc.Sync.Cycle.Kept.{delete_stale-keeps}
use beautiful_aerc.Sync.Cycle.Pulled.{baseline, last_token, record_ids, pulled, halted, pull_lem}
use beautiful_aerc.Sync.Cycle.Sweep.{delete_stale_from-swept}
use beautiful_aerc.Sync.Cycle.Present.{present, each-present, each-Ordered, present-swept, skips-of}
use beautiful_aerc.Sync.Resync.Ordered.{Ordered}
use beautiful_aerc.Sync.Resync.Swept.{swept}

module _ (normal : String → List Char) (account : ℕ) where
  abbrev pub kept_of : List String → List MessageRow → List MessageRow
  kept_of keep ms = filter (λ x. not (is_stale_message account keep x)) ms

  -- the rows are those of the baseline: it was written whole, the rows that it does not name are
  -- gone, each of its records has a row, and the watermark is its last token
  abbrev pub Mirrors : List Answer → SyncDb → SyncDb → Type 0
  Mirrors answers s t =
      let listed = baseline answers in
      (m : MailDb) × (each (upsert normal account message) listed s.mail ≡ ok m)
      × (t.mail.messages ≡ kept_of (record_ids listed) m.messages)
      × All (λ r. present account r.id t.mail.messages ≡ true) listed
      × (t.states
          ≡ assign (state_key account message)
              (record { server_state_token = last_token answers ""; local_rev = 1 }) s.states)

  abbrev Outcome : List Answer → SyncDb → Result Halt Unit → SyncDb → Type 0
  Outcome answers s r t = Mirrors answers s t ⊎ ((h : Halt) × (r ≡ err h))

  abbrev RowsAfter : List String → SyncDb → Result Halt Unit → SyncDb → Type 0
  RowsAfter keep s r t =
      ((r ≡ ok tt) × (t.mail.messages ≡ kept_of keep s.mail.messages) × (t.states ≡ s.states))
      ⊎ ((h : Halt) × (r ≡ err h))

  rows_after :
      (keep : List String) (v : World)
      → Ordered v.store.db.mail
      → RowsAfter keep v.store.db
          (delete_stale normal account message keep v).0
          (delete_stale normal account message keep v).1.store.db
  unfolding delete_stale
  rows_after keep v o =
      let fuel = scan_fuel v.store.db in
      let db = v.store.db.mail in
      elim (delete_stale_from-swept normal account keep fuel 0 v) [
        | inl (e, p) ↦ inl (
          e,
          ap (λ z. z.messages) p
              ∙ swept account keep fuel 0 db [] db.messages refl tt o (omega arith),
          (delete_stale-keeps normal account message (λ s. s.states ≡ v.store.db.states)
                (λ x s m f j. j) keep).at
              v refl,
        )
        | inr (x, e) ↦ inr (failed x, e)
      ]

  abbrev wm_after : List Answer → Watermark
  wm_after answers = record { server_state_token = last_token answers ""; local_rev = 1 }

  marked :
      (answers : List Answer) (s : SyncDb) (m : MailDb) (v : World)
      → each (upsert normal account message) (baseline answers) s.mail ≡ ok m
      → v.store.db.mail.messages ≡ kept_of (record_ids (baseline answers)) m.messages
      → v.store.db.states ≡ s.states
      → Outcome answers s
          (save normal account message (wm_after answers) v).0
          (save normal account message (wm_after answers) v).1.store.db
  unfolding save save_watermark
  marked answers s m v f g q =
      let listed = baseline answers in
      let keep = record_ids listed in
      elim (bulk (save_watermark account message (wm_after answers)) v) [
        | landed a db h e p ↦
            let k : (v.store.db.mail ≡ db.mail)
                × (assign (state_key account message) (wm_after answers) v.store.db.states
                    ≡ db.states) =
              (cc, cc) in
            let rows = ap (λ z. z.mail.messages) p ∙ sym (ap (λ z. z.messages) k.0) ∙ g in
            let there : All (λ r. present account r.id (kept_of keep m.messages) ≡ true) listed =
              All-both (λ r. skips keep r.id ≡ true) (λ r. present account r.id m.messages ≡ true)
                (λ r. present account r.id (kept_of keep m.messages) ≡ true) listed
                (λ r i j. present-swept account keep r.id m.messages i j) (skips-of listed)
                (each-present normal account listed s.mail m f) in
            inl (
              m,
              f,
              rows,
              subst (λ z. All (λ r. present account r.id z ≡ true) listed) (sym rows) there,
              ap (λ z. z.states) p
                  ∙ sym k.1
                  ∙ ap (λ z. assign (state_key account message) (wm_after answers) z) q,
            )
        | stopped x e p ↦ inr (failed x, e)
      ]

  swept_and_marked :
      (answers : List Answer) (s : SyncDb) (m : MailDb) (v : World)
      → each (upsert normal account message) (baseline answers) s.mail ≡ ok m
      → v.store.db ≡ record s { mail = m }
      → Ordered m
      → (let k = delete_stale normal account message (record_ids (baseline answers)) >>= λ _.
            save normal account message (wm_after answers) in
          Outcome answers s (k v).0 (k v).1.store.db)
  unfolding ◌>>=◌
  swept_and_marked answers s m v f p o =
      let keep = record_ids (baseline answers) in
      elim (rows_after keep v (subst (λ z. Ordered z.mail) (sym p) o)) [
        | inl (e, g, q) ↦ rw e (
            marked answers s m (delete_stale normal account message keep v).1 f
              (g ∙ ap (λ z. kept_of keep z.mail.messages) p) (q ∙ ap (λ z. z.states) p))
        | inr (h, e) ↦ rw e (inr (h, refl))
      ]

  outcome :
      (answers : List Answer) (w : World)
      → Ordered w.store.db.mail
      → Outcome answers w.store.db
          (full_resync normal account message answers w).0
          (full_resync normal account message answers w).1.store.db
  unfolding full_resync ◌>>=◌
  outcome answers w o = elim (pull_lem normal account message answers [] "" w) [
    | pulled m f e p ↦
        rw (full_resync, e)
          (swept_and_marked answers w.store.db m (pull normal account message answers [] "" w).1 f p
            (each-Ordered normal account (baseline answers) w.store.db.mail m f o))
    | halted done rest m h q f e p ↦ rw (full_resync, e) (inr (h, refl))
  ]

  -- Over messages whose ids rise, a full resync of the messages that returns no error has written
  -- every record of the server's baseline, has deleted exactly the account's rows of server origin
  -- that the baseline does not name, leaves a row for each record that it names, and stores the token
  -- of the baseline's last page under revision 1.
  pub full_resync-converges :
      (answers : List Answer) (w : World)
      → Ordered w.store.db.mail
      → (full_resync normal account message answers w).0 ≡ ok tt
      → Mirrors answers w.store.db (full_resync normal account message answers w).1.store.db
  full_resync-converges answers w o h = elim (outcome answers w o) [
    | inl mirrors ↦ mirrors
    | inr (x, e) ↦ cc
  ]
