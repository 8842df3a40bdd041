-- ===== src/Tests/Mailing.antt =====
-- The mail tables at concrete values: two mailboxes, and a message that came before the second.
use Prim.Native.Char.{Char}
use beautiful_aerc.Prelude.{
  pos, String, List, [], ◌∷◌, none, some, true, false, ◌≡◌, refl, lookup, if◌then◌else◌, nat_eq,
  string_eq,
}
use beautiful_aerc.Prelude.Listed.{listed}
use beautiful_aerc.Store.Flags.{encode_flags, decode_flags}
use beautiful_aerc.Store.Flags.Keywords.{holds_keyword, decode_flags-encode_flags}
use beautiful_aerc.Store.Mail.{MailDb, pair_eq}
use beautiful_aerc.Store.Mail.Join.{WellFormed}
use beautiful_aerc.Store.Mail.Membership.{wanted_ids, sync_message_mailboxes}
use beautiful_aerc.Store.Mail.Membership.Linked.{linked, sync_message_mailboxes_lem}
use beautiful_aerc.Store.Mail.Message.{MessageUpsert, upsert_message}
use beautiful_aerc.Store.Mail.Message.Joins.{upsert_message-WellFormed}
use beautiful_aerc.Store.Mail.Mailbox.{MailboxUpsert, upsert_mailbox}
use beautiful_aerc.Store.Mail.Mailbox.Joins.{upsert_mailbox-WellFormed}
use beautiful_aerc.Store.Mail.Role.{resolve_mailbox_roles, classify_mailbox_role}

-- no name is a special one
abbrev normal : String → List Char
normal s = []

abbrev empty : MailDb
empty = record { mailboxes = []; messages = []; links = [] }

abbrev empty-WellFormed : WellFormed empty
empty-WellFormed = record {
  mailbox_ids_distinct = tt;
  message_ids_distinct = tt;
  mailboxes_keyed = tt;
  messages_keyed = tt;
  joins = λ i k. refl;
}

-- a message that names two mailboxes
abbrev letter : MessageUpsert
letter = record {
  server_id = "m1";
  blob_id = "b1";
  thread_key = "t1";
  subject = "Hello";
  from_addr = "ann@example.org";
  flags = 1;
  size = 900;
  has_attachment = false;
  received_at = pos 1700;
  mailbox_ids = "inbox" ∷ "work" ∷ [];
  unread = false;
}

abbrev inbox : MailboxUpsert
inbox = record {
  server_id = "inbox";
  role = "inbox";
  name = "Inbox";
  sort_order = 1;
  total_count = 1;
  unread_count = 0;
}

abbrev work : MailboxUpsert
work = record inbox { server_id = "work"; role = "archive"; name = "Work" }

abbrev with_inbox : MailDb
with_inbox = upsert_mailbox normal 7 inbox empty

abbrev with_letter : MailDb
with_letter = upsert_message 7 letter with_inbox

abbrev with_work : MailDb
with_work = upsert_mailbox normal 7 work with_letter

abbrev with_inbox-WellFormed : WellFormed with_inbox
with_inbox-WellFormed = upsert_mailbox-WellFormed normal 7 inbox empty empty-WellFormed

abbrev with_letter-WellFormed : WellFormed with_letter
with_letter-WellFormed = upsert_message-WellFormed 7 letter with_inbox with_inbox-WellFormed

-- the mailbox that came late has its message
late : linked 1 2 with_work.links ≡ true
unfolding upsert_mailbox upsert_message resolve_mailbox_roles classify_mailbox_role
late = refl

upsert_mailbox-WellFormed_example : WellFormed (upsert_mailbox normal 7 work with_letter)
upsert_mailbox-WellFormed_example =
    upsert_mailbox-WellFormed normal 7 work with_letter with_letter-WellFormed

sync_message_mailboxes_lem_example :
    lookup (1, 1) (sync_message_mailboxes 7 1 (pos 1800) true ("inbox" ∷ []) with_letter).links ≡ (
      if listed 1 (wanted_ids 7 ("inbox" ∷ []) with_letter.mailboxes)
      then some (record { received_at = pos 1800; unread = true })
      else none)
sync_message_mailboxes_lem_example =
    sync_message_mailboxes_lem 7 1 (pos 1800) 1 1 true ("inbox" ∷ []) with_letter

decode_flags-encode_flags_example :
    let (bits, overflow) = encode_flags ("$seen" ∷ "$junk" ∷ []) in
    holds_keyword "$junk" (decode_flags bits overflow)
    ≡ holds_keyword "$junk" ("$seen" ∷ "$junk" ∷ [])
decode_flags-encode_flags_example = decode_flags-encode_flags "$junk" ("$seen" ∷ "$junk" ∷ [])
