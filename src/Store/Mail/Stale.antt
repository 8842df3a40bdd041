-- ===== src/Store/Mail/Stale.antt =====
-- StaleMessageIDs and StaleMailboxIDs of internal/store/message_write.go and mailbox_write.go. A
-- table's rows stand in the order of their ids.
use beautiful_aerc.Prelude.{
  ℕ, String, List, [], ◌∷◌, map, Option, none, some, Bool, true, false, not, ◌&&◌, ◌==◌, nat_eq,
  string_eq, any, filter, take, ltb,
}
use beautiful_aerc.Store.Mail.{MailboxRow, MessageRow, Origin, server, local}

-- the rows of one page, and the cursor that they leave
module _ {ℓ} {R : Type ℓ} (id : R → ℕ) where
  abbrev pub page_after : ℕ → ℕ → List R → List R
  page_after after limit rows = take limit (filter (λ r. ltb after (id r)) rows)

  abbrev pub cursor_of : List R → ℕ
  cursor_of [] = 0
  cursor_of (r ∷ []) = id r
  cursor_of (r ∷ s ∷ rs) = cursor_of (s ∷ rs)

-- `!serverID.Valid || !keep[serverID.String]`
abbrev pub unkept : List String → Option String → Bool
unkept keep none = true
unkept keep (some s) = not (any (λ t. t == s) keep)

abbrev pub is_server : Origin → Bool
is_server server = true
is_server local = false

abbrev pub is_stale_message : ℕ → List String → MessageRow → Bool
is_stale_message account keep m =
    (m.account_id == account) && is_server m.origin && unkept keep m.server_id

abbrev pub is_stale_mailbox : ℕ → List String → MailboxRow → Bool
is_stale_mailbox account keep b = (b.account_id == account) && unkept keep b.server_id

unfoldable pub stale_message_ids : ℕ → List String → ℕ → ℕ → List MessageRow → List ℕ × ℕ
stale_message_ids account keep after limit rows =
    let page = page_after (λ m. m.id) after limit rows in
    (map (λ m. m.id) (filter (is_stale_message account keep) page), cursor_of (λ m. m.id) page)

unfoldable pub stale_mailbox_ids : ℕ → List String → ℕ → ℕ → List MailboxRow → List ℕ × ℕ
stale_mailbox_ids account keep after limit rows =
    let page = page_after (λ b. b.id) after limit rows in
    (map (λ b. b.id) (filter (is_stale_mailbox account keep) page), cursor_of (λ b. b.id) page)
