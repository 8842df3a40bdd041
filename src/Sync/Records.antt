-- ===== src/Sync/Records.antt =====
-- internal/sync/apply.go: a backend's record as a row of the mail tables.
pub mod Flags
pub mod Applied
use Prim.Native.Char.{Char}
use Prim.Native.String.{◌++◌ as text_append}
use beautiful_aerc.Prelude.{
  ℤ, ℕ, String, List, [], ◌∷◌, Bool, true, false, not, Map, ◌==◌, string_eq, nat_eq, Result, ok,
  err, if◌then◌else◌,
}
use beautiful_aerc.Backend.{ObjectKind, message, mailbox, event, contact}
use beautiful_aerc.Store.Flags.{encode_flags, named_in, has_flag}
use beautiful_aerc.Store.Mail.{MailDb}
use beautiful_aerc.Store.Mail.Message.{
  MessageUpsert, upsert_message as store_upsert_message, delete_message,
}
use beautiful_aerc.Store.Mail.Mailbox.{
  MailboxUpsert, upsert_mailbox as store_upsert_mailbox, delete_mailbox,
}

-- internal/backend/model.go
pub record Address : Type 0 where
  pub name : String
  pub email : String

pub record MessageFields : Type 0 where
  pub blob_id : String
  pub thread_key : String
  pub subject : String
  pub sender : List Address
  pub mailbox_ids : List String
  pub received_at : ℤ
  pub size : ℕ
  pub has_attachment : Bool
  pub flags : ℕ

pub record MailboxFields : Type 0 where
  pub role : String
  pub name : String
  pub sort_order : ℕ
  pub total_count : ℕ
  pub unread_count : ℕ

-- `RecordFields`, with what carries neither
pub data RecordFields : Type 0 where
  message_fields : MessageFields → RecordFields
  mailbox_fields : MailboxFields → RecordFields
  other_fields : RecordFields

pub record Record : Type 0 where
  pub id : String
  pub fields : RecordFields

abbrev pub message_flag_keywords : Map ℕ String
message_flag_keywords =
    (1, "$seen") ∷ (2, "$flagged") ∷ (4, "$answered") ∷ (8, "$draft") ∷ (16, "$forwarded") ∷ []

unfoldable pub store_flags : ℕ → ℕ
unfolding encode_flags
store_flags set = (encode_flags (named_in message_flag_keywords set)).0

unfoldable pub first_address : List Address → String
first_address [] = ""
first_address (a ∷ as') =
    if a.name == ""
    then a.email
    else text_append a.name (text_append " <" (text_append a.email ">"))

-- the failures of this file
pub data ApplyError : Type 0 where
  unsupported_fields : ApplyError
  wrong_page : ApplyError
  unsupported_kind : ApplyError

abbrev pub message_upsert : String → MessageFields → MessageUpsert
message_upsert server_id f = record {
  server_id = server_id;
  blob_id = f.blob_id;
  thread_key = f.thread_key;
  subject = f.subject;
  from_addr = first_address f.sender;
  flags = store_flags f.flags;
  size = f.size;
  has_attachment = f.has_attachment;
  received_at = f.received_at;
  mailbox_ids = f.mailbox_ids;
  unread = not (has_flag 1 f.flags);
}

abbrev pub mailbox_upsert : String → MailboxFields → MailboxUpsert
mailbox_upsert server_id f = record {
  server_id = server_id;
  role = f.role;
  name = f.name;
  sort_order = f.sort_order;
  total_count = f.total_count;
  unread_count = f.unread_count;
}

unfoldable pub upsert_message : ℕ → String → MessageFields → MailDb → MailDb
unfolding store_flags first_address
upsert_message account server_id f = store_upsert_message account (message_upsert server_id f)

module _ (normal : String → List Char) where
  unfoldable pub upsert_mailbox : ℕ → String → MailboxFields → MailDb → MailDb
  upsert_mailbox account server_id f =
      store_upsert_mailbox normal account (mailbox_upsert server_id f)

  unfoldable pub upsert_record : ℕ → ObjectKind → Record → MailDb → Result ApplyError MailDb
  unfolding upsert_message upsert_mailbox
  upsert_record account kind rec db = elim rec.fields [
    | message_fields f ↦ elim kind [
      | message ↦ ok (upsert_message account rec.id f db)
      | _ ↦ err wrong_page
    ]
    | mailbox_fields f ↦ elim kind [
      | mailbox ↦ ok (upsert_mailbox account rec.id f db)
      | _ ↦ err wrong_page
    ]
    | other_fields ↦ err unsupported_fields
  ]

unfoldable pub destroy_record : ℕ → ObjectKind → String → MailDb → Result ApplyError MailDb
destroy_record account message s db = ok (delete_message account s db)
destroy_record account mailbox s db = ok (delete_mailbox account s db)
destroy_record account _ s db = err unsupported_kind
