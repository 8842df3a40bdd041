-- ===== src/Store/Mail/Mailbox/Updates.antt =====
-- The UPDATE statements of internal/store/mailbox_write.go and the tables.
use beautiful_aerc.Prelude.{
  ℕ, String, List, [], ◌∷◌, Bool, not, ◌&&◌, ◌≡◌, refl, sym, ◌∙◌, arith, ◌==◌, nat_eq, string_eq,
  map_where, lookup, Map,
}
use beautiful_aerc.Prelude.Rows.{Distinct-map_where}
use beautiful_aerc.Store.Mail.{MailboxRow, MailboxRole, MailDb, pair_eq}
use beautiful_aerc.Store.Mail.Keyed.{Keyed-map_where}
use beautiful_aerc.Store.Mail.Join.{names, wants, WellFormed, joined-cong}
use beautiful_aerc.Store.Mail.Role.{Candidate, same_role}
use beautiful_aerc.Store.Mail.Mailbox.{write_roles}

-- an update that leaves alone what a mailbox is found by
module _ (q : MailboxRow → Bool) (f : MailboxRow → MailboxRow)
    (same_id : (b : MailboxRow) → (f b).id ≡ b.id)
    (same_account : (b : MailboxRow) → (f b).account_id ≡ b.account_id)
    (same_server : (b : MailboxRow) → (f b).server_id ≡ b.server_id) where
  names-update :
      (account : ℕ) (ss : List String) (b : MailboxRow)
      → names account ss (f b) ≡ names account ss b
  names-update account [] b = refl
  names-update account (s ∷ ss) b = rw (same_account b, same_server b, names-update account ss b)

  wants-update :
      (account k : ℕ) (ss : List String) (rows : List MailboxRow)
      → wants account ss k (map_where q f rows) ≡ wants account ss k rows
  wants-update account k ss [] = refl
  wants-update account k ss (b ∷ rows) =
      ground (arith, same_id b, names-update account ss b, wants-update account k ss rows)

  pub WellFormed-update :
      (db : MailDb)
      → WellFormed db
      → WellFormed (record db { mailboxes = map_where q f db.mailboxes })
  WellFormed-update db w = record {
    mailbox_ids_distinct =
        Distinct-map_where (λ b. b.id) q f db.mailboxes same_id w.mailbox_ids_distinct;
    message_ids_distinct = w.message_ids_distinct;
    messages_keyed = w.messages_keyed;
    mailboxes_keyed =
        Keyed-map_where (λ b. b.account_id) (λ b. b.server_id) q f db.mailboxes same_account
          same_server w.mailboxes_keyed;
    joins = λ i k.
        w.joins i k
        ∙ sym (
            joined-cong i k db.messages db.mailboxes (map_where q f db.mailboxes)
              (λ account ss. wants-update account k ss db.mailboxes));
  }

pub WellFormed-write_roles :
    (resolved : Map ℕ MailboxRole) (cs : List Candidate) (db : MailDb)
    → WellFormed db
    → WellFormed (record db { mailboxes = write_roles resolved cs db.mailboxes })
WellFormed-write_roles resolved [] db w = w
WellFormed-write_roles resolved (c ∷ cs) db w =
    let role = lookup c.id resolved in
    let q : MailboxRow → Bool = λ b. (b.id == c.id) && not (same_role b.role role) in
    let f : MailboxRow → MailboxRow = λ b. record b { role = role } in
    WellFormed-write_roles resolved cs (record db { mailboxes = map_where q f db.mailboxes })
      (WellFormed-update q f (λ b. refl) (λ b. refl) (λ b. refl) db w)
