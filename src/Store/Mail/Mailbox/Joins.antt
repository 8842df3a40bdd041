-- ===== src/Store/Mail/Mailbox/Joins.antt =====
-- The writes of internal/store/mailbox_write.go and the tables' associations.
use Prim.Native.Char.{Char}
use beautiful_aerc.Prelude.{
  ℕ, String, List, [], ◌∷◌, ◌++◌, Option, none, some, ◌&&◌, ◌≡◌, refl, ◌==◌, nat_eq, string_eq,
  find, map_where, Bool-cases, inl, inr,
}
use beautiful_aerc.Store.Mail.{MailboxRow, MailDb, pair_eq, is_mailbox_of, new_mailbox_id}
use beautiful_aerc.Store.Mail.Join.{WellFormed}
use beautiful_aerc.Store.Mail.Role.{resolve_mailbox_roles}
use beautiful_aerc.Store.Mail.Mailbox.{
  MailboxUpsert, inserted_mailbox, updated_mailbox, repair_mailbox_associations, candidates,
  resolve_account_mailbox_roles, upsert_mailbox_at, upsert_mailbox,
}
use beautiful_aerc.Store.Mail.Mailbox.Updates.{WellFormed-update, WellFormed-write_roles}
use beautiful_aerc.Store.Mail.Mailbox.Repair.{repair-WellFormed}

resolve-WellFormed :
    (normal : String → List Char) (account : ℕ) (db : MailDb)
    → WellFormed db
    → WellFormed (resolve_account_mailbox_roles normal account db)
unfolding resolve_account_mailbox_roles
resolve-WellFormed normal account db w =
    let cs = candidates account db.mailboxes in
    WellFormed-write_roles (resolve_mailbox_roles normal cs) cs db w

upsert_mailbox_at-WellFormed :
    (normal : String → List Char) (account : ℕ) (m : MailboxUpsert) (db : MailDb)
    (o : Option MailboxRow)
    → find (is_mailbox_of account m.server_id) db.mailboxes ≡ o
    → WellFormed db
    → WellFormed (upsert_mailbox_at normal o account m db)
unfolding upsert_mailbox_at
upsert_mailbox_at-WellFormed normal account m db none e w =
    resolve-WellFormed normal account
      (repair_mailbox_associations account (new_mailbox_id db) m.server_id (record db {
        mailboxes = db.mailboxes ++ inserted_mailbox (new_mailbox_id db) account m ∷ [];
      }))
      (repair-WellFormed account m db e w)
upsert_mailbox_at-WellFormed normal account m db (some r) e w =
    let db' = record db {
      mailboxes = map_where (λ b. b.id == r.id) (updated_mailbox m) db.mailboxes;
    } in
    let written : WellFormed db' =
      WellFormed-update (λ b. b.id == r.id) (updated_mailbox m) (λ b. refl) (λ b. refl) (λ b. refl)
        db w in
    elim (Bool-cases ((m.name == r.name) && (m.role == r.server_role))) [
      | inl unchanged ↦ rw unchanged written
      | inr changed ↦ rw changed (resolve-WellFormed normal account db' written)
    ]

-- UpsertMailbox keeps the mail tables well formed, whether the messages or their mailbox came first:
-- ids and keys stay unique, and each message has an association to exactly those mailboxes of its
-- account that its data names.
pub upsert_mailbox-WellFormed :
    (normal : String → List Char) (account : ℕ) (m : MailboxUpsert) (db : MailDb)
    → WellFormed db
    → WellFormed (upsert_mailbox normal account m db)
unfolding upsert_mailbox
upsert_mailbox-WellFormed normal account m db w =
    upsert_mailbox_at-WellFormed normal account m db
      (find (is_mailbox_of account m.server_id) db.mailboxes) refl w
