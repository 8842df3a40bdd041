-- ===== src/Store/Mail/Mailbox/Repair.antt =====
-- RepairMailboxAssociations of internal/store/mailbox_write.go, after a mailbox is inserted.
use beautiful_aerc.Prelude.{
  ℕ, String, List, [], ◌∷◌, ◌++◌, none, some, true, false, ◌&&◌, ◌≡◌, refl, ap, sym, subst, ==→≡,
  ◌∙◌, arith, ◌==◌, nat_eq, string_eq, find, any, All, filter, Bool-cases, inl, inr, Map, ◌%◌,
}
use beautiful_aerc.Prelude.Rows.{
  any-append, Distinct, has_id, has_id-above, Distinct-insert, All-filter-true, All-imp,
}
use beautiful_aerc.Store.Mail.{
  MailboxRow, MessageRow, MailDb, Link, pair_eq, is_mailbox_of, new_mailbox_id,
}
use beautiful_aerc.Store.Mail.Keyed.{Keyed-insert}
use beautiful_aerc.Store.Mail.Membership.{sync_message_mailboxes}
use beautiful_aerc.Store.Mail.Membership.Linked.{linked}
use beautiful_aerc.Store.Mail.Join.{
  names, wants, joined, KeyedMailboxes, KeyedMessages, WellFormed, joined-own, joined-no_mailbox,
  linked-sync_message_mailboxes,
}
use beautiful_aerc.Store.Mail.Mailbox.{
  MailboxUpsert, inserted_mailbox, is_orphan, sync_orphans, repair_mailbox_associations,
}

-- every association is right once those of the messages on the list are written
sync_orphans-WellFormed :
    (account : ℕ) (os : List MessageRow) (db : MailDb)
    → Distinct (λ b. b.id) db.mailboxes
    → Distinct (λ m. m.id) db.messages
    → KeyedMailboxes db.mailboxes
    → KeyedMessages db.messages
    → All
        (λ o.
          (k : ℕ)
          → joined o.id k db.messages db.mailboxes ≡ wants account o.mailbox_ids k db.mailboxes)
        os
    → ((i k : ℕ)
        → has_id (λ o. o.id) i os ≡ false
        → linked i k db.links ≡ joined i k db.messages db.mailboxes)
    → WellFormed (sync_orphans account os db)
unfolding sync_orphans sync_message_mailboxes
sync_orphans-WellFormed account [] db p q r s own rest = record {
  mailbox_ids_distinct = p;
  message_ids_distinct = q;
  mailboxes_keyed = r;
  messages_keyed = s;
  joins = λ i k. rest i k refl;
}
sync_orphans-WellFormed account (o ∷ os) db p q r s own rest =
    sync_orphans-WellFormed account os
      (sync_message_mailboxes account o.id o.received_at (o.flags % 2 == 0) o.mailbox_ids db) p q r
      s own.1
      (λ i k absent.
        linked-sync_message_mailboxes account o.id o.received_at i k (o.flags % 2 == 0)
          o.mailbox_ids db r
        ∙ elim (Bool-cases (o.id == i)) [
          | inl same ↦ rw same (
              subst
                (λ j.
                  wants account o.mailbox_ids k db.mailboxes ≡ joined j k db.messages db.mailboxes)
                (==→≡ o.id i same) (sym (own.0 k)))
          | inr other ↦ rw other (rest i k (ground arith))
        ])

-- the messages that are not selected have all they call for
module _ (account : ℕ) (s : String) (b : MailboxRow) (key : b.server_id ≡ some s)
    (same_account : b.account_id ≡ account) where
  names-new : (a : ℕ) (ss : List String) → names a ss b ≡ ((account == a) && any (λ t. t == s) ss)
  names-new a [] = ground arith
  names-new a (t ∷ ss) =
      rw (key, same_account, names-new a ss)
        (ground (arith, string_eq.same_iff s t, string_eq.same_iff t s))

  joined-insert :
      (links : Map (ℕ × ℕ) Link) (i k : ℕ) (ms : List MessageRow) (rows : List MailboxRow)
      → ((j : ℕ) → linked j b.id links ≡ false)
      → has_id (λ o. o.id) i (filter (is_orphan account b.id s links) ms) ≡ false
      → joined i k ms (rows ++ b ∷ []) ≡ joined i k ms rows
  joined-insert links i k [] rows none_yet h = refl
  joined-insert links i k (m ∷ ms) rows none_yet h =
      let rest = joined-insert links i k ms rows none_yet in
      ground (
        arith,
        none_yet m.id,
        names-new m.account_id m.mailbox_ids,
        rest,
        any-append (λ c. (c.id == k) && names m.account_id m.mailbox_ids c) rows (b ∷ []),
      )

is_orphan-account :
    (account id : ℕ) (s : String) (links : Map (ℕ × ℕ) Link) (m : MessageRow)
    → is_orphan account id s links m ≡ true
    → m.account_id ≡ account
is_orphan-account account id s links m h = ground arith

pub repair-WellFormed :
    (account : ℕ) (m : MailboxUpsert) (db : MailDb)
    → find (is_mailbox_of account m.server_id) db.mailboxes ≡ none
    → WellFormed db
    → let id = new_mailbox_id db in
      WellFormed (
        repair_mailbox_associations account id m.server_id
          (record db { mailboxes = db.mailboxes ++ inserted_mailbox id account m ∷ [] }))
unfolding repair_mailbox_associations
repair-WellFormed account m db e w =
    let id = new_mailbox_id db in
    let b = inserted_mailbox id account m in
    let rows = db.mailboxes ++ b ∷ [] in
    let new : has_id (λ c. c.id) id db.mailboxes ≡ false =
      has_id-above (λ c. c.id) id db.mailboxes (omega arith) in
    let orphan = is_orphan account id m.server_id db.links in
    sync_orphans-WellFormed account (filter orphan db.messages) (record db { mailboxes = rows })
      (Distinct-insert (λ c. c.id) db.mailboxes b new w.mailbox_ids_distinct) w.message_ids_distinct
      (Keyed-insert (λ c. c.account_id) (λ c. c.server_id) db.mailboxes b m.server_id refl e
        w.mailboxes_keyed)
      w.messages_keyed
      (All-imp
        (λ o.
          ((k : ℕ) → joined o.id k db.messages rows ≡ wants o.account_id o.mailbox_ids k rows)
          × (orphan o ≡ true))
        (λ o. (k : ℕ) → joined o.id k db.messages rows ≡ wants account o.mailbox_ids k rows)
        (filter orphan db.messages)
        (λ o own k.
          own.0 k
          ∙ ap (λ a. wants a o.mailbox_ids k rows)
              (is_orphan-account account id m.server_id db.links o own.1))
        (All-filter-true
          (λ o. (k : ℕ) → joined o.id k db.messages rows ≡ wants o.account_id o.mailbox_ids k rows)
          orphan db.messages (joined-own db.messages rows w.message_ids_distinct)))
      (λ i k absent.
        w.joins i k
        ∙ sym (
            joined-insert account m.server_id b refl refl db.links i k db.messages db.mailboxes
              (λ j. w.joins j id ∙ joined-no_mailbox j id db.messages db.mailboxes new) absent))
