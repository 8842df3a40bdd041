-- ===== src/Store/Mail/Deletions.antt =====
-- DeleteMessage, DeleteMailbox and the deletions by id of internal/store, with what the foreign keys
-- of message_mailbox delete after them.
use beautiful_aerc.Prelude.{
  ℕ, String, List, [], ◌∷◌, Bool, not, ◌&&◌, ◌≡◌, ap, sym, ◌∙◌, arith, ◌==◌, nat_eq, filter,
  Bool-cases, inl, inr, Map,
}
use beautiful_aerc.Prelude.Rows.{has_id, any-kept, Distinct-filter}
use beautiful_aerc.Store.Mail.{
  MailboxRow, MessageRow, MailDb, Link, pair_eq, same_pair, same_pair_iff, is_message_of,
  is_mailbox_of, keep_links,
}
use beautiful_aerc.Store.Mail.Keyed.{Keyed-filter}
use beautiful_aerc.Store.Mail.Membership.Linked.{linked}
use beautiful_aerc.Store.Mail.Join.{names, wants, joined, WellFormed}
use beautiful_aerc.Store.Mail.Message.{delete_messages, delete_message, delete_message_by_id}
use beautiful_aerc.Store.Mail.Mailbox.{delete_mailboxes, delete_mailbox, delete_mailbox_by_id}

linked-keep_links :
    (p : ℕ × ℕ → Bool) (i k : ℕ) (links : Map (ℕ × ℕ) Link)
    → linked i k (keep_links p links) ≡ (p (i, k) && linked i k links)
linked-keep_links p i k [] = ground arith
linked-keep_links p i k ((j, l) ∷ ls) = elim (Bool-cases (same_pair j (i, k))) [
  | inl here ↦
      ground (arith, here, ap p ((same_pair_iff j (i, k)).0 here), linked-keep_links p i k ls)
  | inr other ↦ ground (arith, other, linked-keep_links p i k ls)
]

-- the message rows that stay, and no others, call for associations
joined-filter_messages :
    (p : MessageRow → Bool) (i k : ℕ) (db : MailDb)
    → WellFormed db
    → joined i k (filter (λ m. not (p m)) db.messages) db.mailboxes
      ≡ (not (has_id (λ m. m.id) i (filter p db.messages)) && joined i k db.messages db.mailboxes)
joined-filter_messages p i k db w =
    any-kept (λ m. m.id) p (λ m. wants m.account_id m.mailbox_ids k db.mailboxes) i db.messages
      w.message_ids_distinct

and-wants :
    (c : Bool) (i k : ℕ) (ms : List MessageRow) (rows all : List MailboxRow)
    → ((account : ℕ) (ss : List String) → wants account ss k rows ≡ (c && wants account ss k all))
    → joined i k ms rows ≡ (c && joined i k ms all)
and-wants c i k [] rows all h = ground arith
and-wants c i k (m ∷ ms) rows all h =
    ground (arith, h m.account_id m.mailbox_ids, and-wants c i k ms rows all h)

delete_messages-WellFormed :
    (p : MessageRow → Bool) (db : MailDb) → WellFormed db → WellFormed (delete_messages p db)
unfolding delete_messages
delete_messages-WellFormed p db w = record {
  mailbox_ids_distinct = w.mailbox_ids_distinct;
  message_ids_distinct =
      Distinct-filter (λ m. m.id) (λ m. not (p m)) db.messages w.message_ids_distinct;
  mailboxes_keyed = w.mailboxes_keyed;
  messages_keyed =
      Keyed-filter (λ m. m.account_id) (λ m. m.server_id) (λ m. not (p m)) db.messages
        w.messages_keyed;
  joins = λ i k.
      linked-keep_links (λ (j, l). not (has_id (λ m. m.id) j (filter p db.messages))) i k db.links
      ∙ ap (λ t. not (has_id (λ m. m.id) i (filter p db.messages)) && t) (w.joins i k)
      ∙ sym (joined-filter_messages p i k db w);
}

delete_mailboxes-WellFormed :
    (p : MailboxRow → Bool) (db : MailDb) → WellFormed db → WellFormed (delete_mailboxes p db)
unfolding delete_mailboxes
delete_mailboxes-WellFormed p db w = record {
  mailbox_ids_distinct =
      Distinct-filter (λ b. b.id) (λ b. not (p b)) db.mailboxes w.mailbox_ids_distinct;
  message_ids_distinct = w.message_ids_distinct;
  mailboxes_keyed =
      Keyed-filter (λ b. b.account_id) (λ b. b.server_id) (λ b. not (p b)) db.mailboxes
        w.mailboxes_keyed;
  messages_keyed = w.messages_keyed;
  joins = λ i k.
      linked-keep_links (λ (j, l). not (has_id (λ b. b.id) l (filter p db.mailboxes))) i k db.links
      ∙ ap (λ t. not (has_id (λ b. b.id) k (filter p db.mailboxes)) && t) (w.joins i k)
      ∙ sym (
          and-wants (not (has_id (λ b. b.id) k (filter p db.mailboxes))) i k db.messages
            (filter (λ b. not (p b)) db.mailboxes) db.mailboxes
            (λ account ss.
              any-kept (λ b. b.id) p (names account ss) k db.mailboxes w.mailbox_ids_distinct));
}

-- The deletions of messages and of mailboxes, by key and by id, keep the mail tables well formed.
pub delete-WellFormed :
    (account id : ℕ) (s : String) (db : MailDb)
    → WellFormed db
    → WellFormed (delete_message account s db)
      × (WellFormed (delete_message_by_id id db)
          × (WellFormed (delete_mailbox account s db) × WellFormed (delete_mailbox_by_id id db)))
unfolding delete_message delete_message_by_id delete_mailbox delete_mailbox_by_id
delete-WellFormed account id s db w = (
  delete_messages-WellFormed (is_message_of account s) db w,
  (
    delete_messages-WellFormed (λ m. m.id == id) db w,
    (
      delete_mailboxes-WellFormed (is_mailbox_of account s) db w,
      delete_mailboxes-WellFormed (λ b. b.id == id) db w,
    ),
  ),
)
