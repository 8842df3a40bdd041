-- ===== src/Tests/Roles.antt =====
-- The roles of mailboxes at concrete values.
use Prim.Native.Char.{Char}
use beautiful_aerc.Prelude.{
  map_where, String, List, [], ◌∷◌, map, none, some, ◌≡◌, refl, lookup, ◌==◌, nat_eq, string_eq,
  if◌then◌else◌, All,
}
use beautiful_aerc.Store.Mail.{MailboxRow, MailDb, role_trash}
use beautiful_aerc.Store.Mail.Mailbox.Roles.{candidate, resolve_account_mailbox_roles_lem}
use beautiful_aerc.Store.Mail.Mailbox.{
  candidates, resolve_account_mailbox_roles, MailboxUpsert, upsert_mailbox, delete_mailbox,
}
use beautiful_aerc.Store.Mail.Role.{Candidate, resolve_mailbox_roles, classify_mailbox_role}
use beautiful_aerc.Store.Mail.Role.Held.{held, resolve_mailbox_roles-held}

-- the runes of the names below, in small letters
abbrev runes : String → List Char
runes s =
    if s == "Papierkorb" then "p" ∷ "a" ∷ "p" ∷ "i" ∷ "e" ∷ "r" ∷ "k" ∷ "o" ∷ "r" ∷ "b" ∷ [] else []

-- one folder by its name, two that declare the role of another
abbrev claimants : List Candidate
claimants =
    record { id = 1; account_id = 7; server_role = ""; name = "Papierkorb" }
    ∷ record { id = 2; account_id = 7; server_role = "trash"; name = "Bin" }
    ∷ record { id = 3; account_id = 7; server_role = "archive"; name = "Old" }
    ∷ []

resolve_mailbox_roles-held_example :
    All
      (λ c. lookup c.id (resolve_mailbox_roles runes claimants) ≡ held runes c claimants)
      claimants
resolve_mailbox_roles-held_example =
    resolve_mailbox_roles-held runes claimants (refl, (refl, (refl, tt)))

-- the declared role wins
declared_wins : lookup 1 (resolve_mailbox_roles runes claimants) ≡ none
unfolding resolve_mailbox_roles classify_mailbox_role
declared_wins = refl

by_name : classify_mailbox_role runes "" "Papierkorb" ≡ some role_trash
unfolding classify_mailbox_role
by_name = refl

abbrev archive : String → MailboxUpsert
archive s = record {
  server_id = s;
  role = "archive";
  name = "Archive";
  sort_order = 1;
  total_count = 0;
  unread_count = 0;
}

-- two folders declare one role, and the one that holds it is deleted
abbrev bereft : MailDb
bereft = delete_mailbox 7 "a" (
    upsert_mailbox runes 7 (archive "b")
      (upsert_mailbox runes 7 (archive "a") (record { mailboxes = []; messages = []; links = [] })))

-- the other does not come to hold it, not even when its counts are refreshed
role_is_lost :
    map
      (λ b. b.role)
      (upsert_mailbox runes 7 (record (archive "b") { total_count = 3 }) bereft).mailboxes
    ≡ none ∷ []
unfolding upsert_mailbox delete_mailbox resolve_mailbox_roles classify_mailbox_role
role_is_lost = refl

-- two rows that hold nothing yet
abbrev unsettled : MailDb
unsettled =
    let row : MailboxRow = record {
      id = 1;
      account_id = 7;
      server_id = some "a";
      role = none;
      name = "Papierkorb";
      sort_order = 1;
      total_count = 0;
      unread_count = 0;
      server_role = "";
    } in
    record {
      mailboxes = row ∷ record row { id = 2; server_id = some "b"; server_role = "trash" } ∷ [];
      messages = [];
      links = [];
    }

resolve_account_mailbox_roles_lem_example :
    (resolve_account_mailbox_roles runes 7 unsettled).mailboxes
    ≡ map_where
        (λ b. b.account_id == 7)
        (λ b. record b { role = held runes (candidate 7 b) (candidates 7 unsettled.mailboxes) })
        unsettled.mailboxes
resolve_account_mailbox_roles_lem_example =
    resolve_account_mailbox_roles_lem runes 7 unsettled (refl, (refl, tt))
