-- ===== src/Sync/Records/Applied.antt =====
-- upsertRecord and destroyRecord of internal/sync/apply.go over the mail tables.
use Prim.Native.Char.{Char}
use beautiful_aerc.Prelude.{ℕ, String, List, nat_eq, Result, ok, err}
use beautiful_aerc.Backend.{ObjectKind, message, mailbox, event, contact}
use beautiful_aerc.Store.Mail.{MailDb}
use beautiful_aerc.Store.Mail.Join.{WellFormed}
use beautiful_aerc.Store.Mail.Message.Joins.{upsert_message-WellFormed}
use beautiful_aerc.Store.Mail.Mailbox.Joins.{upsert_mailbox-WellFormed}
use beautiful_aerc.Store.Mail.Deletions.{delete-WellFormed}
use beautiful_aerc.Sync.Records.{
  RecordFields, message_fields, mailbox_fields, other_fields, ApplyError, message_upsert,
  mailbox_upsert, upsert_message, upsert_mailbox, upsert_record, destroy_record,
}

-- what a transaction leaves of the tables: an error rolls back
abbrev pub left : MailDb → Result ApplyError MailDb → MailDb
left db (ok db') = db'
left db (err e) = db

pub upsert-WellFormed :
    (normal : String → List Char) (account : ℕ) (id : String) (f : RecordFields) (kind : ObjectKind)
    (db : MailDb)
    → WellFormed db
    → WellFormed (left db (upsert_record normal account kind (record { id = id; fields = f }) db))
unfolding upsert_record upsert_message upsert_mailbox
upsert-WellFormed normal account id (message_fields f) message db w =
    upsert_message-WellFormed account (message_upsert id f) db w
upsert-WellFormed normal account id (message_fields f) mailbox db w = w
upsert-WellFormed normal account id (message_fields f) event db w = w
upsert-WellFormed normal account id (message_fields f) contact db w = w
upsert-WellFormed normal account id (mailbox_fields f) mailbox db w =
    upsert_mailbox-WellFormed normal account (mailbox_upsert id f) db w
upsert-WellFormed normal account id (mailbox_fields f) message db w = w
upsert-WellFormed normal account id (mailbox_fields f) event db w = w
upsert-WellFormed normal account id (mailbox_fields f) contact db w = w
upsert-WellFormed normal account id other_fields kind db w = w

pub destroy-WellFormed :
    (account : ℕ) (id : String) (kind : ObjectKind) (db : MailDb)
    → WellFormed db
    → WellFormed (left db (destroy_record account kind id db))
unfolding destroy_record
destroy-WellFormed account id message db w = (delete-WellFormed account 0 id db w).0
destroy-WellFormed account id mailbox db w = (delete-WellFormed account 0 id db w).1.1.0
destroy-WellFormed account id event db w = w
destroy-WellFormed account id contact db w = w
