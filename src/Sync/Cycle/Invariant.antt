-- ===== src/Sync/Cycle/Invariant.antt =====
-- The mail tables under SyncKind of internal/sync/sync.go, whatever fails.
use Prim.Native.Char.{Char}
use beautiful_aerc.Prelude.{
  pos, ℕ, String, List, [], ◌∷◌, Option, none, some, Result, ok, err, ◌≡◌, refl, subst, sym, ap,
  ◌++◌, ◌==◌, nat_eq, string_eq, false, find, filter, Bool-cases, inl, inr, ◌&&◌,
}
use beautiful_aerc.Backend.{ObjectKind, message, mailbox, event, contact}
use beautiful_aerc.Store.Mail.{MailDb, MailboxRow, MessageRow, is_mailbox_of, new_mailbox_id}
use beautiful_aerc.Store.Mail.Join.{WellFormed}
use beautiful_aerc.Store.Mail.Deletions.{delete-WellFormed}
use beautiful_aerc.Store.Mail.Membership.{sync_message_mailboxes}
use beautiful_aerc.Store.Mail.Message.{MessageUpsert, delete_message_by_id}
use beautiful_aerc.Store.Mail.Mailbox.{
  MailboxUpsert, is_orphan, inserted_mailbox, sync_orphans, repair_mailbox_associations,
  resolve_account_mailbox_roles, upsert_mailbox_at, upsert_mailbox, delete_mailboxes,
  delete_mailbox, delete_mailbox_by_id,
}
use beautiful_aerc.Sync.Records.{
  Record, RecordFields, MessageFields, message_fields, mailbox_fields, other_fields, ApplyError,
  unsupported_fields, wrong_page, unsupported_kind, message_upsert, mailbox_upsert, upsert_record,
  destroy_record,
}
use beautiful_aerc.Sync.Records
use beautiful_aerc.Sync.Records.Applied.{left, upsert-WellFormed, destroy-WellFormed}
use beautiful_aerc.Sync.Bulk.{World}
use beautiful_aerc.Sync.Bulk.Kept.{Keeping}
use beautiful_aerc.Sync.Cycle.{Answer, apply_err, upsert, destroy, delete_by_id, sync_kind}
use beautiful_aerc.Sync.Cycle.Kept.{sync_kind-keeps}
use beautiful_aerc.Sync.Resync.Ordered.{Ordered, upsert_message-Ordered}
use beautiful_aerc.Sync.Resync.Sweep.{Rising}
use beautiful_aerc.Sync.Resync.Swept.{msg_id}

-- well formed, and the messages in the order of their ids
abbrev pub Sound : MailDb → Type 0
Sound db = WellFormed db × Ordered db

messages-sync_orphans :
    (account : ℕ) (os : List MessageRow) (db : MailDb)
    → (sync_orphans account os db).messages ≡ db.messages
unfolding sync_orphans sync_message_mailboxes
messages-sync_orphans account [] db = refl
messages-sync_orphans account (o ∷ os) db = messages-sync_orphans account os _

abbrev no_upsert : MessageUpsert
no_upsert = message_upsert "" (record {
  blob_id = "";
  thread_key = "";
  subject = "";
  sender = [];
  mailbox_ids = [];
  received_at = pos 0;
  size = 0;
  has_attachment = false;
  flags = 0;
})

messages-repair :
    (account id : ℕ) (s : String) (db : MailDb)
    → (repair_mailbox_associations account id s db).messages ≡ db.messages
unfolding repair_mailbox_associations
messages-repair account id s db =
    messages-sync_orphans account (filter (is_orphan account id s db.links) db.messages) db

apply_err-eq-ok : (r : Result ApplyError MailDb) (m : MailDb) → apply_err r ≡ ok m → r ≡ ok m
apply_err-eq-ok (ok a) m h = cc
apply_err-eq-ok (err unsupported_fields) m h = cc
apply_err-eq-ok (err wrong_page) m h = cc
apply_err-eq-ok (err unsupported_kind) m h = cc

module _ (normal : String → List Char) (account : ℕ) where
  messages-upsert_mailbox :
      (o : Option MailboxRow) (m : MailboxUpsert) (db : MailDb)
      → (upsert_mailbox_at normal o account m db).messages ≡ db.messages
  unfolding upsert_mailbox_at resolve_account_mailbox_roles
  messages-upsert_mailbox none m db =
      let id = new_mailbox_id db in
      messages-repair account id m.server_id
        (record db { mailboxes = db.mailboxes ++ inserted_mailbox id account m ∷ [] })
  messages-upsert_mailbox (some r) m db =
      elim (Bool-cases ((m.name == r.name) && (m.role == r.server_role))) [
        | inl same ↦ rw (upsert_mailbox_at, same) refl
        | inr other ↦ rw (upsert_mailbox_at, other) refl
      ]

  -- an upsert keeps the order, on whatever page
  left-Ordered :
      (kind : ObjectKind) (id : String) (f : RecordFields) (db : MailDb)
      → Ordered db
      → Ordered (left db (upsert_record normal account kind (record { id = id; fields = f }) db))
  unfolding upsert_record Records.upsert_message Records.upsert_mailbox upsert_mailbox
  left-Ordered message id (message_fields f) db o =
      (upsert_message-Ordered account 0 "" (message_upsert id f) db o).0
  left-Ordered mailbox id (message_fields f) db o = o
  left-Ordered event id (message_fields f) db o = o
  left-Ordered contact id (message_fields f) db o = o
  left-Ordered mailbox id (mailbox_fields f) db o =
      let m = mailbox_upsert id f in
      subst (Rising msg_id 0)
        (sym (messages-upsert_mailbox (find (is_mailbox_of account id) db.mailboxes) m db)) o
  left-Ordered message id (mailbox_fields f) db o = o
  left-Ordered event id (mailbox_fields f) db o = o
  left-Ordered contact id (mailbox_fields f) db o = o
  left-Ordered kind id other_fields db o = o

  Sound-left :
      (x : Result ApplyError MailDb) (db m : MailDb)
      → apply_err x ≡ ok m
      → Sound (left db x)
      → Sound m
  Sound-left x db m h s = subst Sound (ap (left db) (apply_err-eq-ok x m h)) s

  Sound-upsert : (kind : ObjectKind) → Keeping (λ s. Sound s.mail) (upsert normal account kind)
  unfolding upsert
  Sound-upsert kind rec s m h (w, o) =
      Sound-left (upsert_record normal account kind rec s.mail) s.mail m h (
        upsert-WellFormed normal account rec.id rec.fields kind s.mail w,
        left-Ordered kind rec.id rec.fields s.mail o,
      )

  destroy-Ordered :
      (kind : ObjectKind) (id : String) (db : MailDb)
      → Ordered db
      → Ordered (left db (destroy_record account kind id db))
  unfolding destroy_record delete_mailbox delete_mailboxes
  destroy-Ordered message id db o = (upsert_message-Ordered account 0 id no_upsert db o).1.0
  destroy-Ordered mailbox id db o = o
  destroy-Ordered event id db o = o
  destroy-Ordered contact id db o = o

  Sound-destroy : (kind : ObjectKind) → Keeping (λ s. Sound s.mail) (destroy normal account kind)
  unfolding destroy
  Sound-destroy kind id s m h (w, o) =
      Sound-left (destroy_record account kind id s.mail) s.mail m h
        (destroy-WellFormed account id kind s.mail w, destroy-Ordered kind id s.mail o)

  Sound-delete_by_id : (kind : ObjectKind) → Keeping (λ s. Sound s.mail) (delete_by_id kind)
  unfolding delete_by_id delete_mailbox_by_id delete_mailboxes
  Sound-delete_by_id message id s m h (w, o) =
      let q : delete_message_by_id id s.mail ≡ m = cc in
      subst Sound q (
        (delete-WellFormed account id "" s.mail w).1.0,
        (upsert_message-Ordered account id "" no_upsert s.mail o).1.1,
      )
  Sound-delete_by_id mailbox id s m h (w, o) =
      let q : delete_mailbox_by_id id s.mail ≡ m = cc in
      subst Sound q ((delete-WellFormed account id "" s.mail w).1.1.1, o)
  Sound-delete_by_id event id s m h w = cc
  Sound-delete_by_id contact id s m h w = cc

  -- Whatever the server answers, and whichever of its transactions and waits fail, a sync cycle of a
  -- kind leaves the mail tables well formed and the messages in the order of their ids, where they
  -- were so before.
  pub sync_kind-Sound :
      (kind : ObjectKind) (answers : List Answer) (w : World)
      → Sound w.store.db.mail
      → Sound (sync_kind normal account kind answers w).1.store.db.mail
  sync_kind-Sound kind answers w i =
      (sync_kind-keeps normal account kind (λ s. Sound s.mail) (Sound-upsert kind)
          (Sound-destroy kind) (Sound-delete_by_id kind) (λ s wm j. j) answers).at
        w i
