-- ===== src/Store/Mail/Membership.antt =====
-- internal/store/message_write.go: SyncMessageMailboxes, over the mailboxes that are there.
pub mod Linked
use beautiful_aerc.Prelude.{
  ℤ, ℕ, String, List, [], ◌∷◌, ◌++◌, Option, none, some, Bool, true, false, not, ◌&&◌, ◌||◌, ◌==◌,
  nat_eq, Map, assign, erase, find, if◌then◌else◌,
}
use beautiful_aerc.Prelude.Listed.{listed}
use beautiful_aerc.Store.Mail.{MailboxRow, Link, pair_eq, MailDb, is_mailbox_of}

-- the set `want`, in the order its members were found
unfoldable pub wanted_ids : ℕ → List String → List MailboxRow → List ℕ
wanted_ids account [] rows = []
wanted_ids account (s ∷ ss) rows =
    let more = wanted_ids account ss rows in
    elim (find (is_mailbox_of account s) rows) [
      | none ↦ more
      | some b ↦ if listed b.id more then more else b.id ∷ more
    ]

unfoldable pub current_mailbox_ids : ℕ → Map (ℕ × ℕ) Link → List ℕ
current_mailbox_ids message [] = []
current_mailbox_ids message (((i, k), l) ∷ ls) =
    let more = current_mailbox_ids message ls in if i == message then k ∷ more else more

-- the loop that drops what is not wanted any more
unfoldable pub drop_unwanted : ℕ → List ℕ → List ℕ → Map (ℕ × ℕ) Link → Map (ℕ × ℕ) Link
drop_unwanted message want [] links = links
drop_unwanted message want (k ∷ ks) links =
    drop_unwanted message want ks (if listed k want then links else erase (message, k) links)

-- the loop that writes what is wanted
unfoldable pub write_wanted : ℕ → Link → List ℕ → Map (ℕ × ℕ) Link → Map (ℕ × ℕ) Link
write_wanted message l [] links = links
write_wanted message l (k ∷ ks) links = write_wanted message l ks (assign (message, k) l links)

unfoldable pub sync_message_mailboxes : ℕ → ℕ → ℤ → Bool → List String → MailDb → MailDb
unfolding wanted_ids current_mailbox_ids drop_unwanted write_wanted
sync_message_mailboxes account message received_at unread mailbox_ids db =
    let want = wanted_ids account mailbox_ids db.mailboxes in
    let current = current_mailbox_ids message db.links in
    let kept = drop_unwanted message want current db.links in
    let l : Link = record { received_at = received_at; unread = unread } in
    record db { links = write_wanted message l want kept }
