-- ===== src/Store/Mail/Message.antt =====
-- internal/store/message_write.go: UpsertMessage and the deletions of messages.
pub mod Joins
use beautiful_aerc.Prelude.{
  ℤ, ℕ, String, List, [], ◌∷◌, ◌++◌, Option, none, some, Bool, true, false, not, ◌&&◌, ◌==◌, nat_eq,
  find, map_where, any, filter, length, take, if◌then◌else◌, ltb,
}
use beautiful_aerc.Prelude.Rows.{has_id}
use beautiful_aerc.Store.Mail.{
  MessageRow, MailDb, Origin, server, local, is_message_of, new_message_id, keep_links,
}
use beautiful_aerc.Store.Mail.Membership.{sync_message_mailboxes}

pub record MessageUpsert : Type 0 where
  pub server_id : String
  pub blob_id : String
  pub thread_key : String
  pub subject : String
  pub from_addr : String
  pub flags : ℕ
  pub size : ℕ
  pub has_attachment : Bool
  pub received_at : ℤ
  pub mailbox_ids : List String
  pub unread : Bool

-- the row of the INSERT
abbrev pub inserted_message : ℕ → ℕ → MessageUpsert → MessageRow
inserted_message id account m = record {
  id = id;
  account_id = account;
  server_id = some m.server_id;
  blob_id = m.blob_id;
  thread_key = m.thread_key;
  received_at = m.received_at;
  subject = m.subject;
  from_addr = m.from_addr;
  flags = m.flags;
  size = m.size;
  has_attachment = m.has_attachment;
  origin = server;
  mailbox_ids = m.mailbox_ids;
}

-- the columns of the UPDATE
abbrev pub updated_message : MessageUpsert → MessageRow → MessageRow
updated_message m r = record r {
  blob_id = m.blob_id;
  thread_key = m.thread_key;
  received_at = m.received_at;
  subject = m.subject;
  from_addr = m.from_addr;
  flags = m.flags;
  size = m.size;
  has_attachment = m.has_attachment;
  mailbox_ids = m.mailbox_ids;
}

-- the row that the statement writes, and its id
unfoldable pub write_message : Option MessageRow → ℕ → MessageUpsert → MailDb → ℕ × MailDb
write_message none account m db =
    let id = new_message_id db in
    (id, record db { messages = db.messages ++ inserted_message id account m ∷ [] })
write_message (some r) account m db =
    (r.id, record db { messages = map_where (λ t. t.id == r.id) (updated_message m) db.messages })

unfoldable pub upsert_message : ℕ → MessageUpsert → MailDb → MailDb
unfolding write_message sync_message_mailboxes
upsert_message account m db =
    let (id, db') =
      write_message (find (is_message_of account m.server_id) db.messages) account m db in
    sync_message_mailboxes account id m.received_at m.unread m.mailbox_ids db'

-- `DELETE FROM message WHERE …`
unfoldable pub delete_messages : (MessageRow → Bool) → MailDb → MailDb
delete_messages p db =
    let gone = filter p db.messages in
    record db {
      messages = filter (λ m. not (p m)) db.messages;
      links = keep_links (λ (i, k). not (has_id (λ m. m.id) i gone)) db.links;
    }

unfoldable pub delete_message : ℕ → String → MailDb → MailDb
unfolding delete_messages
delete_message account s db = delete_messages (is_message_of account s) db

unfoldable pub delete_message_by_id : ℕ → MailDb → MailDb
unfolding delete_messages
delete_message_by_id id db = delete_messages (λ m. m.id == id) db
