-- ===== src/Store/Mail.antt =====
-- The mail tables of internal/store/migrations/0001_initial.sql that message_write.go and
-- mailbox_write.go write. A table is its rows in the order of their ids; message_mailbox is a map
-- from its key. A statement that fails is a matter of the transaction it is in.
pub mod Role
pub mod Keyed
pub mod Membership
pub mod Join
pub mod Message
pub mod Mailbox
pub mod Deletions
pub mod Stale
use beautiful_aerc.Prelude.{
  ℤ, ℕ, suc, String, List, [], ◌∷◌, ◌++◌, Option, none, some, Bool, true, false, not, ◌&&◌, ◌||◌,
  ◌≡◌, refl, ◌↔◌, arith, Map, Eq, ◌==◌, nat_eq, string_eq, any, filter, if◌then◌else◌,
}
use beautiful_aerc.Prelude.Rows.{top_id, has_id}

-- `mailboxRole`, whose empty text is none
pub data MailboxRole : Type 0 where
  role_archive : MailboxRole
  role_drafts : MailboxRole
  role_sent : MailboxRole
  role_junk : MailboxRole
  role_trash : MailboxRole
  role_scheduled : MailboxRole

pub data Origin : Type 0 where
  server : Origin
  local : Origin

-- with mailboxData's one key
pub record MailboxRow : Type 0 where
  pub id : ℕ
  pub account_id : ℕ
  pub server_id : Option String
  pub role : Option MailboxRole
  pub name : String
  pub sort_order : ℕ
  pub total_count : ℕ
  pub unread_count : ℕ
  pub server_role : String

-- with messageData's one key
pub record MessageRow : Type 0 where
  pub id : ℕ
  pub account_id : ℕ
  pub server_id : Option String
  pub blob_id : String
  pub thread_key : String
  pub received_at : ℤ
  pub subject : String
  pub from_addr : String
  pub flags : ℕ
  pub size : ℕ
  pub has_attachment : Bool
  pub origin : Origin
  pub mailbox_ids : List String

pub record Link : Type 0 where
  pub received_at : ℤ
  pub unread : Bool

-- the keys of message_mailbox
abbrev pub same_pair : ℕ × ℕ → ℕ × ℕ → Bool
same_pair (a, b) (c, d) = (a == c) && (b == d)

pub same_pair_iff : (p q : ℕ × ℕ) → (same_pair p q ≡ true) ↔ (p ≡ q)
same_pair_iff (a, b) (c, d) = ground arith

instance abbrev pub pair_eq : Eq (ℕ × ℕ)
pair_eq = record { same = same_pair; same_iff = same_pair_iff }

pub record MailDb : Type 0 where
  pub mailboxes : List MailboxRow
  pub messages : List MessageRow
  pub links : Map (ℕ × ℕ) Link

-- `account_id = ? AND server_id = ?` of a row with these two columns
abbrev pub is_key : ℕ → String → ℕ → Option String → Bool
is_key account s a none = false
is_key account s a (some t) = (a == account) && (t == s)

abbrev pub is_mailbox_of : ℕ → String → MailboxRow → Bool
is_mailbox_of account s b = is_key account s b.account_id b.server_id

abbrev pub is_message_of : ℕ → String → MessageRow → Bool
is_message_of account s m = is_key account s m.account_id m.server_id

-- the id that a new row is given
abbrev pub new_mailbox_id : MailDb → ℕ
new_mailbox_id db = suc (top_id (λ b. b.id) db.mailboxes)

abbrev pub new_message_id : MailDb → ℕ
new_message_id db = suc (top_id (λ m. m.id) db.messages)

-- `ON DELETE CASCADE` of message_mailbox: the keys that stay
abbrev pub keep_links : (ℕ × ℕ → Bool) → Map (ℕ × ℕ) Link → Map (ℕ × ℕ) Link
keep_links p [] = []
keep_links p ((k, l) ∷ ls) = let rest = keep_links p ls in if p k then (k, l) ∷ rest else rest
