-- ===== src/Store/Mail/Join.antt =====
-- The associations that the rows of internal/store/migrations/0001_initial.sql call for: those of a
-- message and the mailboxes of its account that its data names.
use beautiful_aerc.Prelude.{
  ℤ, ℕ, String, List, [], ◌∷◌, Option, none, some, Bool, false, ◌&&◌, ◌||◌, ◌≡◌, refl, arith, ◌==◌,
  nat_eq, find, any, All, if◌then◌else◌,
}
use beautiful_aerc.Prelude.Listed.{listed}
use beautiful_aerc.Store.Mail.{MailboxRow, MessageRow, MailDb, is_mailbox_of}
use beautiful_aerc.Prelude.Rows.{any-absent, Distinct, has_id, All-both}
use beautiful_aerc.Store.Mail.Keyed.{Keyed, find-any}
use beautiful_aerc.Store.Mail.Membership.{wanted_ids, sync_message_mailboxes}
use beautiful_aerc.Store.Mail.Membership.Linked.{linked, sync_message_mailboxes_lem}

-- these server ids name this mailbox
abbrev pub names : ℕ → List String → MailboxRow → Bool
names account mailbox_ids b = any (λ s. is_mailbox_of account s b) mailbox_ids

abbrev pub wants : ℕ → List String → ℕ → List MailboxRow → Bool
wants account mailbox_ids k rows = any (λ b. (b.id == k) && names account mailbox_ids b) rows

abbrev pub joined : ℕ → ℕ → List MessageRow → List MailboxRow → Bool
joined i k messages mailboxes =
    any (λ m. (m.id == i) && wants m.account_id m.mailbox_ids k mailboxes) messages

-- message_mailbox holds what the rows call for
abbrev pub Joined : MailDb → Type 0
Joined db = (i k : ℕ) → linked i k db.links ≡ joined i k db.messages db.mailboxes

abbrev pub KeyedMailboxes : List MailboxRow → Type 0
KeyedMailboxes = Keyed (λ b. b.account_id) (λ b. b.server_id)

wants-cons :
    (account k : ℕ) (s : String) (ss : List String) (rows : List MailboxRow)
    → wants account (s ∷ ss) k rows
      ≡ (any (λ b. (b.id == k) && is_mailbox_of account s b) rows || wants account ss k rows)
wants-cons account k s ss [] = refl
wants-cons account k s ss (b ∷ rows) = ground (arith, wants-cons account k s ss rows)

wants-nil : (account k : ℕ) (rows : List MailboxRow) → wants account [] k rows ≡ false
wants-nil account k [] = refl
wants-nil account k (b ∷ rows) = ground (arith, wants-nil account k rows)

listed-add :
    (o : Option MailboxRow) (k : ℕ) (more : List ℕ)
    → listed k (elim o [ none ↦ more | some b ↦ if listed b.id more then more else b.id ∷ more ])
      ≡ ((elim o [ none ↦ false | some b ↦ b.id == k ]) || listed k more)
listed-add none k more = refl
listed-add (some b) k more = ground arith

pub listed-wanted_ids :
    (account k : ℕ) (ss : List String) (rows : List MailboxRow)
    → KeyedMailboxes rows
    → listed k (wanted_ids account ss rows) ≡ wants account ss k rows
unfolding wanted_ids
listed-wanted_ids account k [] rows d = rw (wants-nil account k rows)
listed-wanted_ids account k (s ∷ ss) rows d = rw (
  listed-add (find (is_mailbox_of account s) rows) k (wanted_ids account ss rows),
  find-any (λ b. b.account_id) (λ b. b.server_id) (λ b. b.id == k) account s rows d,
  listed-wanted_ids account k ss rows d,
  wants-cons account k s ss rows,
)

-- the associations of one message, and those of the others, after SyncMessageMailboxes
pub linked-sync_message_mailboxes :
    (account message : ℕ) (received_at : ℤ) (i k : ℕ) (unread : Bool) (ss : List String)
    (db : MailDb)
    → KeyedMailboxes db.mailboxes
    → linked i k (sync_message_mailboxes account message received_at unread ss db).links
      ≡ (if message == i then wants account ss k db.mailboxes else linked i k db.links)
linked-sync_message_mailboxes account message received_at i k unread ss db d =
    rw
      (
        sync_message_mailboxes_lem account message received_at i k unread ss db,
        listed-wanted_ids account k ss db.mailboxes d,
      )
      (ground arith)

abbrev pub KeyedMessages : List MessageRow → Type 0
KeyedMessages = Keyed (λ m. m.account_id) (λ m. m.server_id)

-- the tables: ids and keys are unique, and the associations are those that the rows call for
pub record WellFormed (db : MailDb) : Type 0 where
  pub mailbox_ids_distinct : Distinct (λ b. b.id) db.mailboxes
  pub message_ids_distinct : Distinct (λ m. m.id) db.messages
  pub mailboxes_keyed : KeyedMailboxes db.mailboxes
  pub messages_keyed : KeyedMessages db.messages
  pub joins : Joined db

-- a message that is not there has no association
pub joined-absent :
    (i k : ℕ) (messages : List MessageRow) (mailboxes : List MailboxRow)
    → has_id (λ m. m.id) i messages ≡ false
    → joined i k messages mailboxes ≡ false
joined-absent i k [] mailboxes h = refl
joined-absent i k (m ∷ ms) mailboxes h = ground (arith, joined-absent i k ms mailboxes)

-- what a message calls for is its own
pub joined-own :
    (ms : List MessageRow) (mailboxes : List MailboxRow)
    → Distinct (λ m. m.id) ms
    → All
        (λ o. (k : ℕ) → joined o.id k ms mailboxes ≡ wants o.account_id o.mailbox_ids k mailboxes)
        ms
joined-own [] mailboxes d = tt
joined-own (m ∷ ms) mailboxes d = (
  λ k. ground (arith, joined-absent m.id k ms mailboxes d.0),
  All-both
      (λ o. (k : ℕ) → joined o.id k ms mailboxes ≡ wants o.account_id o.mailbox_ids k mailboxes)
      (λ o. (o.id == m.id) ≡ false)
      (λ o.
        (k : ℕ) → joined o.id k (m ∷ ms) mailboxes ≡ wants o.account_id o.mailbox_ids k mailboxes)
      ms (λ o p q k. ground (arith, p k)) (joined-own ms mailboxes d.1) (apart ms d.0),
)
  where
    apart :
        (os : List MessageRow)
        → has_id (λ o. o.id) m.id os ≡ false
        → All (λ o. (o.id == m.id) ≡ false) os
    apart [] h = tt
    apart (o ∷ os) h = (ground arith, apart os (ground arith))

-- a mailbox that is not there is not called for
pub joined-no_mailbox :
    (i k : ℕ) (ms : List MessageRow) (mailboxes : List MailboxRow)
    → has_id (λ b. b.id) k mailboxes ≡ false
    → joined i k ms mailboxes ≡ false
joined-no_mailbox i k [] mailboxes h = refl
joined-no_mailbox i k (m ∷ ms) mailboxes h = ground (
  arith,
  any-absent (λ b. b.id) (names m.account_id m.mailbox_ids) k mailboxes h,
  joined-no_mailbox i k ms mailboxes h,
)

-- tables that call for the same
pub joined-cong :
    (i k : ℕ) (ms : List MessageRow) (before after : List MailboxRow)
    → ((account : ℕ) (ss : List String) → wants account ss k after ≡ wants account ss k before)
    → joined i k ms after ≡ joined i k ms before
joined-cong i k [] before after h = refl
joined-cong i k (m ∷ ms) before after h =
    ground (arith, h m.account_id m.mailbox_ids, joined-cong i k ms before after h)
