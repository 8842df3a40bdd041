-- ===== src/Store/Mail/Mailbox/Roles.antt =====
-- resolveAccountMailboxRoles of internal/store/mailbox_write.go, against who may hold a role.
use Prim.Native.Char.{Char}
use beautiful_aerc.Prelude.{
  ℕ, String, List, [], ◌∷◌, map, true, false, ◌&&◌, ◌≡◌, refl, ap, ◌∙◌, arith, ◌==◌, nat_eq, lookup,
  All, any, filter, map_where, if◌then◌else◌, Bool-cases, inl, inr,
}
use beautiful_aerc.Prelude.Rows.{Distinct, has_id, any-absent, All-both}
use beautiful_aerc.Store.Mail.{MailboxRow, MailDb}
use beautiful_aerc.Store.Mail.Role.{Candidate, resolve_mailbox_roles}
use beautiful_aerc.Store.Mail.Role.Held.{held, resolve_mailbox_roles-held}
use beautiful_aerc.Store.Mail.Mailbox.{candidates, resolve_account_mailbox_roles}
use beautiful_aerc.Store.Mail.Mailbox.Written.{map_where-ext, set_role, write_roles_lem}

abbrev pub candidate : ℕ → MailboxRow → Candidate
candidate account b = record {
  id = b.id;
  account_id = account;
  server_role = b.server_role;
  name = b.name;
}

-- whether a row's id is among the candidates
has_id-candidates :
    (account i : ℕ) (rows : List MailboxRow)
    → has_id (λ c. c.id) i (candidates account rows)
      ≡ any (λ b. (b.id == i) && (b.account_id == account)) rows
has_id-candidates account i [] = refl
has_id-candidates account i (b ∷ rows) = elim (Bool-cases (b.account_id == account)) [
  | inl own ↦ rw own (ground (arith, own, has_id-candidates account i rows))
  | inr other ↦ rw other (ground (arith, other, has_id-candidates account i rows))
]

own_row :
    (account : ℕ) (rows : List MailboxRow)
    → Distinct (λ b. b.id) rows
    → All
        (λ b.
          any (λ c. (c.id == b.id) && (c.account_id == account)) rows ≡ (b.account_id == account))
        rows
own_row account [] d = tt
own_row account (b ∷ rows) d = (
  ground (arith, any-absent (λ c. c.id) (λ c. c.account_id == account) b.id rows d.0),
  All-both
      (λ c. any (λ e. (e.id == c.id) && (e.account_id == account)) rows ≡ (c.account_id == account))
      (λ c. (c.id == b.id) ≡ false)
      (λ c.
        any (λ e. (e.id == c.id) && (e.account_id == account)) (b ∷ rows)
        ≡ (c.account_id == account))
      rows (λ c h apart. ground arith) (own_row account rows d.1) (apart_from rows d.0),
)
  where
    apart_from :
        (cs : List MailboxRow)
        → has_id (λ c. c.id) b.id cs ≡ false
        → All (λ c. (c.id == b.id) ≡ false) cs
    apart_from [] h = tt
    apart_from (c ∷ cs) h = (ground arith, apart_from cs (ground arith))

absent-candidates :
    (account i : ℕ) (rows : List MailboxRow)
    → has_id (λ b. b.id) i rows ≡ false
    → has_id (λ c. c.id) i (candidates account rows) ≡ false
absent-candidates account i rows h =
    has_id-candidates account i rows
    ∙ any-absent (λ b. b.id) (λ b. b.account_id == account) i rows h

Distinct-candidates :
    (account : ℕ) (rows : List MailboxRow)
    → Distinct (λ b. b.id) rows
    → Distinct (λ c. c.id) (candidates account rows)
Distinct-candidates account [] d = tt
Distinct-candidates account (b ∷ rows) d = elim (Bool-cases (b.account_id == account)) [
  | inl own ↦ rw own (absent-candidates account b.id rows d.0, Distinct-candidates account rows d.1)
  | inr other ↦ rw other (Distinct-candidates account rows d.1)
]

-- what holds of each candidate holds of each row of the account
All-candidates :
    (P : Candidate → Type 0) (account : ℕ) (rows : List MailboxRow)
    → All P (candidates account rows)
    → All (λ b. (b.account_id == account) ≡ true → P (candidate account b)) rows
All-candidates P account [] h = tt
All-candidates P account (b ∷ rows) h =
    elim (b.account_id == account)
        as (λ t.
          (b.account_id == account) ≡ t
          → All P (
              map (candidate account) (
                if t
                then b ∷ filter (λ c. c.account_id == account) rows
                else filter (λ c. c.account_id == account) rows))
          → ((b.account_id == account) ≡ true → P (candidate account b))
            × All (λ c. (c.account_id == account) ≡ true → P (candidate account c)) rows) [
              | true ↦ λ e k. ((λ own. k.0), All-candidates P account rows k.1)
              | false ↦ λ e k. ((λ own. ground arith), All-candidates P account rows k)
            ]
      refl h

-- Where the ids of the mailboxes are unique, resolveAccountMailboxRoles writes for each mailbox of the
-- account the role that it claims, or none where another claimant of the role in the account is
-- before it, and leaves the mailboxes of other accounts as they were.
pub resolve_account_mailbox_roles_lem :
    (normal : String → List Char) (account : ℕ) (db : MailDb)
    → Distinct (λ b. b.id) db.mailboxes
    → (resolve_account_mailbox_roles normal account db).mailboxes
      ≡ map_where
          (λ b. b.account_id == account)
          (λ b. record b {
            role = held normal (candidate account b) (candidates account db.mailboxes);
          })
          db.mailboxes
unfolding resolve_account_mailbox_roles
resolve_account_mailbox_roles_lem normal account db d =
    let rows = db.mailboxes in
    let cs = candidates account rows in
    let resolved = resolve_mailbox_roles normal cs in
    write_roles_lem resolved cs rows
    ∙ map_where-ext (λ b. has_id (λ c. c.id) b.id cs) (λ b. b.account_id == account)
        (set_role resolved) (λ b. record b { role = held normal (candidate account b) cs }) rows
        (All-both
          (λ b.
            any (λ c. (c.id == b.id) && (c.account_id == account)) rows ≡ (b.account_id == account))
          (λ b.
            (b.account_id == account) ≡ true
            → lookup b.id resolved ≡ held normal (candidate account b) cs)
          (λ b. (if has_id (λ c. c.id) b.id cs then set_role resolved b else b) ≡ (
            if b.account_id == account
            then (record b { role = held normal (candidate account b) cs })
            else b))
          rows
          (λ b own given.
            rw (has_id-candidates account b.id rows, own)
              (elim (Bool-cases (b.account_id == account)) [
                | inl mine ↦ rw mine (ap (λ r. record b { role = r }) (given mine))
                | inr other ↦ rw other
              ]))
          (own_row account rows d)
          (All-candidates (λ c. lookup c.id resolved ≡ held normal c cs) account rows
            (resolve_mailbox_roles-held normal cs (Distinct-candidates account rows d))))
