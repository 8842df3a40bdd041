-- ===== src/Store/Mail/Mailbox.antt =====
-- internal/store/mailbox_write.go: UpsertMailbox with the repair and the roles, and the deletions.
pub mod Updates
pub mod Repair
pub mod Joins
pub mod Written
pub mod Roles
use Prim.Native.Char.{Char}
use beautiful_aerc.Prelude.{
  ℕ, String, List, [], ◌∷◌, ◌++◌, map, Option, none, some, Bool, true, false, not, ◌&&◌, ◌||◌, ◌==◌,
  nat_eq, string_eq, find, map_where, any, filter, if◌then◌else◌, Map, lookup, ◌%◌,
}
use beautiful_aerc.Prelude.Rows.{has_id}
use beautiful_aerc.Store.Mail.{
  MailboxRow, MailboxRole, MessageRow, MailDb, Link, pair_eq, is_mailbox_of, new_mailbox_id,
  keep_links,
}
use beautiful_aerc.Store.Mail.Membership.{sync_message_mailboxes}
use beautiful_aerc.Store.Mail.Membership.Linked.{linked}
use beautiful_aerc.Store.Mail.Role.{Candidate, resolve_mailbox_roles, same_role}

pub record MailboxUpsert : Type 0 where
  pub server_id : String
  pub role : String
  pub name : String
  pub sort_order : ℕ
  pub total_count : ℕ
  pub unread_count : ℕ

abbrev pub inserted_mailbox : ℕ → ℕ → MailboxUpsert → MailboxRow
inserted_mailbox id account m = record {
  id = id;
  account_id = account;
  server_id = some m.server_id;
  role = none;
  name = m.name;
  sort_order = m.sort_order;
  total_count = m.total_count;
  unread_count = m.unread_count;
  server_role = m.role;
}

abbrev pub updated_mailbox : MailboxUpsert → MailboxRow → MailboxRow
updated_mailbox m r = record r {
  name = m.name;
  sort_order = m.sort_order;
  total_count = m.total_count;
  unread_count = m.unread_count;
  server_role = m.role;
}

-- the messages that RepairMailboxAssociations selects
abbrev pub is_orphan : ℕ → ℕ → String → Map (ℕ × ℕ) Link → MessageRow → Bool
is_orphan account mailbox s links m =
    (m.account_id == account) && any (λ t. t == s) m.mailbox_ids && not (linked m.id mailbox links)

-- the loop over them; FlagSeen is the lowest bit
unfoldable pub sync_orphans : ℕ → List MessageRow → MailDb → MailDb
sync_orphans account [] db = db
sync_orphans account (o ∷ os) db =
    sync_orphans account os
      (sync_message_mailboxes account o.id o.received_at (o.flags % 2 == 0) o.mailbox_ids db)

unfoldable pub repair_mailbox_associations : ℕ → ℕ → String → MailDb → MailDb
unfolding sync_orphans
repair_mailbox_associations account mailbox s db =
    sync_orphans account (filter (is_orphan account mailbox s db.links) db.messages) db

abbrev pub candidates : ℕ → List MailboxRow → List Candidate
candidates account rows =
    map
      (λ b. record { id = b.id; account_id = account; server_role = b.server_role; name = b.name })
      (filter (λ b. b.account_id == account) rows)

-- the loop that writes each role that differs
abbrev pub write_roles : Map ℕ MailboxRole → List Candidate → List MailboxRow → List MailboxRow
write_roles resolved [] rows = rows
write_roles resolved (c ∷ cs) rows =
    let role = lookup c.id resolved in
    write_roles resolved cs (
      map_where (λ b. (b.id == c.id) && not (same_role b.role role)) (λ b. record b { role = role })
        rows)

module _ (normal : String → List Char) where
  unfoldable pub resolve_account_mailbox_roles : ℕ → MailDb → MailDb
  resolve_account_mailbox_roles account db =
      let cs = candidates account db.mailboxes in
      record db { mailboxes = write_roles (resolve_mailbox_roles normal cs) cs db.mailboxes }

  unfoldable pub upsert_mailbox_at : Option MailboxRow → ℕ → MailboxUpsert → MailDb → MailDb
  unfolding repair_mailbox_associations resolve_account_mailbox_roles
  upsert_mailbox_at none account m db =
      let id = new_mailbox_id db in
      let db' = record db { mailboxes = db.mailboxes ++ inserted_mailbox id account m ∷ [] } in
      resolve_account_mailbox_roles account (repair_mailbox_associations account id m.server_id db')
  upsert_mailbox_at (some r) account m db =
      let db' = record db {
        mailboxes = map_where (λ b. b.id == r.id) (updated_mailbox m) db.mailboxes;
      } in
      if (m.name == r.name) && (m.role == r.server_role)
      then db'
      else resolve_account_mailbox_roles account db'

  unfoldable pub upsert_mailbox : ℕ → MailboxUpsert → MailDb → MailDb
  unfolding upsert_mailbox_at
  upsert_mailbox account m db =
      upsert_mailbox_at (find (is_mailbox_of account m.server_id) db.mailboxes) account m db

-- `DELETE FROM mailbox WHERE …`
unfoldable pub delete_mailboxes : (MailboxRow → Bool) → MailDb → MailDb
delete_mailboxes p db =
    let gone = filter p db.mailboxes in
    record db {
      mailboxes = filter (λ b. not (p b)) db.mailboxes;
      links = keep_links (λ (i, k). not (has_id (λ b. b.id) k gone)) db.links;
    }

unfoldable pub delete_mailbox : ℕ → String → MailDb → MailDb
unfolding delete_mailboxes
delete_mailbox account s db = delete_mailboxes (is_mailbox_of account s) db

unfoldable pub delete_mailbox_by_id : ℕ → MailDb → MailDb
unfolding delete_mailboxes
delete_mailbox_by_id id db = delete_mailboxes (λ b. b.id == id) db
