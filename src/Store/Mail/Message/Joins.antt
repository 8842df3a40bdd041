-- ===== src/Store/Mail/Message/Joins.antt =====
-- The writes of internal/store/message_write.go and the tables' associations.
use beautiful_aerc.Prelude.{
  ℤ, ℕ, String, List, [], ◌∷◌, ◌++◌, Option, none, some, Bool, true, not, ◌&&◌, ◌||◌, ◌≡◌, refl,
  sym, ◌∙◌, arith, ◌==◌, nat_eq, find, All, map_where, if◌then◌else◌, Option-cases, Bool-cases, inl,
  inr,
}
use beautiful_aerc.Prelude.Rows.{
  any-append, Distinct, has_id, has_id-above, Distinct-insert, Distinct-map_where, find-Distinct,
}
use beautiful_aerc.Store.Mail.{
  MailboxRow, MessageRow, MailDb, pair_eq, is_key, is_message_of, new_message_id,
}
use beautiful_aerc.Store.Mail.Keyed.{Keyed-insert, Keyed-map_where}
use beautiful_aerc.Store.Mail.Membership.{sync_message_mailboxes}
use beautiful_aerc.Store.Mail.Membership.Linked.{linked}
use beautiful_aerc.Store.Mail.Join.{
  wants, joined, KeyedMailboxes, KeyedMessages, WellFormed, joined-absent,
  linked-sync_message_mailboxes,
}
use beautiful_aerc.Store.Mail.Message.{
  MessageUpsert, inserted_message, updated_message, write_message, upsert_message,
}

key_account :
    (account : ℕ) (s : String) (a : ℕ) (x : Option String)
    → is_key account s a x ≡ true
    → a ≡ account
key_account account s a none h = ground arith
key_account account s a (some u) h = ground arith

-- one row rewritten
joined-map_where :
    (i k j account : ℕ) (m : MessageUpsert) (ms : List MessageRow) (mailboxes : List MailboxRow)
    → All (λ t. (not (t.id == j) || is_message_of account m.server_id t) ≡ true) ms
    → joined i k (map_where (λ t. t.id == j) (updated_message m) ms) mailboxes ≡ (
        if j == i
        then has_id (λ t. t.id) j ms && wants account m.mailbox_ids k mailboxes
        else joined i k ms mailboxes)
joined-map_where i k j account m [] mailboxes h = ground arith
joined-map_where i k j account m (t ∷ ms) mailboxes h =
    let rest = joined-map_where i k j account m ms mailboxes h.1 in
    elim (Bool-cases (t.id == j)) [
      | inl hit ↦
          let a : t.account_id ≡ account =
            key_account account m.server_id t.account_id t.server_id (ground arith) in
          rw (hit, rest, a) (ground arith)
      | inr other ↦ rw (other, rest) (ground arith)
    ]

-- a row whose associations are synced, over tables that are otherwise in order
pub sync-WellFormed :
    (account id : ℕ) (received_at : ℤ) (unread : Bool) (ss : List String) (db : MailDb)
    → Distinct (λ b. b.id) db.mailboxes
    → Distinct (λ m. m.id) db.messages
    → KeyedMailboxes db.mailboxes
    → KeyedMessages db.messages
    → ((i k : ℕ)
        → joined i k db.messages db.mailboxes
          ≡ (if id == i then wants account ss k db.mailboxes else linked i k db.links))
    → WellFormed (sync_message_mailboxes account id received_at unread ss db)
unfolding sync_message_mailboxes
sync-WellFormed account id received_at unread ss db p q r s h = record {
  mailbox_ids_distinct = p;
  message_ids_distinct = q;
  mailboxes_keyed = r;
  messages_keyed = s;
  joins =
      λ i k. linked-sync_message_mailboxes account id received_at i k unread ss db r ∙ sym (h i k);
}

module _ (account i k : ℕ) (m : MessageUpsert) (db : MailDb) where
  -- a new row calls for what the update asks for
  joined-insert :
      let id = new_message_id db in
      joined i k (db.messages ++ inserted_message id account m ∷ []) db.mailboxes ≡ (
        if id == i
        then wants account m.mailbox_ids k db.mailboxes
        else joined i k db.messages db.mailboxes)
  joined-insert =
      let id = new_message_id db in
      let absent =
        joined-absent id k db.messages db.mailboxes
          (has_id-above (λ t. t.id) id db.messages (omega arith)) in
      rw
        (any-append (λ t. (t.id == i) && wants t.account_id t.mailbox_ids k db.mailboxes)
          db.messages (inserted_message id account m ∷ []))
        (ground (arith, absent))

  -- as does the row that is there, and no other
  joined-update :
      (r : MessageRow)
      → Distinct (λ t. t.id) db.messages
      → find (is_message_of account m.server_id) db.messages ≡ some r
      → joined i k (map_where (λ t. t.id == r.id) (updated_message m) db.messages) db.mailboxes ≡ (
          if r.id == i
          then wants account m.mailbox_ids k db.mailboxes
          else joined i k db.messages db.mailboxes)
  joined-update r d e =
      let (all, there) =
        find-Distinct (λ t. t.id) (is_message_of account m.server_id) db.messages r d e in
      rw (joined-map_where i k r.id account m db.messages db.mailboxes all, there)

-- UpsertMessage keeps the mail tables well formed: ids and keys stay unique, and each message has
-- an association to exactly those mailboxes of its account that its data names.
pub upsert_message-WellFormed :
    (account : ℕ) (m : MessageUpsert) (db : MailDb)
    → WellFormed db
    → WellFormed (upsert_message account m db)
unfolding upsert_message write_message
upsert_message-WellFormed account m db w =
    elim (Option-cases (find (is_message_of account m.server_id) db.messages)) [
      | inl new ↦
          let id = new_message_id db in
          let row = inserted_message id account m in
          rw new (
            sync-WellFormed account id m.received_at m.unread m.mailbox_ids
              (record db { messages = db.messages ++ row ∷ [] }) w.mailbox_ids_distinct
              (Distinct-insert (λ t. t.id) db.messages row
                (has_id-above (λ t. t.id) id db.messages (omega arith)) w.message_ids_distinct)
              w.mailboxes_keyed
              (Keyed-insert (λ t. t.account_id) (λ t. t.server_id) db.messages row m.server_id refl
                new w.messages_keyed)
              (λ i k. rw (joined-insert account i k m db, w.joins i k)))
      | inr (r, old) ↦ rw old (
          sync-WellFormed account r.id m.received_at m.unread m.mailbox_ids
            (record db { messages = map_where (λ t. t.id == r.id) (updated_message m) db.messages })
            w.mailbox_ids_distinct
            (Distinct-map_where (λ t. t.id) (λ t. t.id == r.id) (updated_message m) db.messages
              (λ t. refl) w.message_ids_distinct)
            w.mailboxes_keyed
            (Keyed-map_where (λ t. t.account_id) (λ t. t.server_id) (λ t. t.id == r.id)
              (updated_message m) db.messages (λ t. refl) (λ t. refl) w.messages_keyed)
            (λ i k. rw (joined-update account i k m db r w.message_ids_distinct old, w.joins i k)))
    ]
