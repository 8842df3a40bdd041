-- ===== src/Store/Mail/Membership/Linked.antt =====
-- What SyncMessageMailboxes of internal/store/message_write.go leaves under each key.
use beautiful_aerc.Prelude.{
  ℤ, ℕ, String, List, [], ◌∷◌, Option, none, some, Bool, true, false, not, ◌&&◌, ◌≡◌, refl, arith,
  ◌==◌, nat_eq, Map, lookup, assign, erase, if◌then◌else◌, Bool-cases, inl, inr,
}
use beautiful_aerc.Prelude.MapLaws.{lookup-assign, lookup-erase}
use beautiful_aerc.Prelude.Listed.{listed}
use beautiful_aerc.Store.Mail.{Link, pair_eq, MailDb}
use beautiful_aerc.Store.Mail.Membership.{
  wanted_ids, current_mailbox_ids, drop_unwanted, write_wanted, sync_message_mailboxes,
}

abbrev pub is_some {ℓ} : {A : Type ℓ} → Option A → Bool
is_some none = false
is_some (some a) = true

-- the association of a message and a mailbox is there
abbrev pub linked : ℕ → ℕ → Map (ℕ × ℕ) Link → Bool
linked i k links = is_some (lookup (i, k) links)

lookup-drop_unwanted :
    (message i k : ℕ) (want ks : List ℕ) (links : Map (ℕ × ℕ) Link)
    → lookup (i, k) (drop_unwanted message want ks links) ≡ (
        if (message == i) && (listed k ks && not (listed k want))
        then none
        else lookup (i, k) links)
unfolding drop_unwanted
lookup-drop_unwanted message i k want [] links = ground arith
lookup-drop_unwanted message i k want (j ∷ ks) links = elim (Bool-cases (listed j want)) [
  | inl stays ↦ rw (stays, lookup-drop_unwanted message i k want ks links) (ground (arith, stays))
  | inr goes ↦
      rw
        (
          goes,
          lookup-drop_unwanted message i k want ks (erase (message, j) links),
          lookup-erase (message, j) (i, k) links,
        )
        (ground (arith, goes))
]

lookup-write_wanted :
    (message i k : ℕ) (l : Link) (ks : List ℕ) (links : Map (ℕ × ℕ) Link)
    → lookup (i, k) (write_wanted message l ks links)
      ≡ (if (message == i) && listed k ks then some l else lookup (i, k) links)
unfolding write_wanted
lookup-write_wanted message i k l [] links = ground arith
lookup-write_wanted message i k l (j ∷ ks) links =
    rw
      (
        lookup-write_wanted message i k l ks (assign (message, j) l links),
        lookup-assign (message, j) (i, k) l links,
      )
      (ground arith)

listed-current_mailbox_ids :
    (message k : ℕ) (links : Map (ℕ × ℕ) Link)
    → listed k (current_mailbox_ids message links) ≡ linked message k links
unfolding current_mailbox_ids
listed-current_mailbox_ids message k [] = refl
listed-current_mailbox_ids message k (((i, j), l) ∷ ls) =
    ground (arith, listed-current_mailbox_ids message k ls)

-- SyncMessageMailboxes leaves the message with an association to each wanted mailbox, with the time
-- and the unread mark that it is given, and to no other, and leaves every other message as it was.
pub sync_message_mailboxes_lem :
    (account message : ℕ) (received_at : ℤ) (i k : ℕ) (unread : Bool) (mailbox_ids : List String)
    (db : MailDb)
    → lookup (i, k) (sync_message_mailboxes account message received_at unread mailbox_ids db).links
      ≡ (if message == i
          then (if listed k (wanted_ids account mailbox_ids db.mailboxes)
              then some (record { received_at = received_at; unread = unread })
              else none)
          else lookup (i, k) db.links)
unfolding sync_message_mailboxes
sync_message_mailboxes_lem account message received_at i k unread mailbox_ids db =
    let want = wanted_ids account mailbox_ids db.mailboxes in
    let current = current_mailbox_ids message db.links in
    let l : Link = record { received_at = received_at; unread = unread } in
    rw
      (
        lookup-write_wanted message i k l want (drop_unwanted message want current db.links),
        lookup-drop_unwanted message i k want current db.links,
        listed-current_mailbox_ids message k db.links,
      )
      (ground arith)
