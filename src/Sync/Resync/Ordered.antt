-- ===== src/Sync/Resync/Ordered.antt =====
-- The order of the message rows that the scans of internal/sync/resync.go stand on, under the writes
-- of internal/store/message_write.go.
use beautiful_aerc.Prelude.{
  ℕ, ◌≤◌, ◌<◌, String, List, [], ◌∷◌, ◌++◌, Option, none, some, Bool, true, false, not, arith, ◌==◌,
  nat_eq, find, map_where, filter, if◌then◌else◌,
}
use beautiful_aerc.Prelude.Rows.{top_id}
use beautiful_aerc.Store.Mail.{MessageRow, MailDb, is_message_of, new_message_id}
use beautiful_aerc.Store.Mail.Membership.{sync_message_mailboxes}
use beautiful_aerc.Store.Mail.Message.{
  MessageUpsert, inserted_message, updated_message, write_message, upsert_message, delete_messages,
  delete_message, delete_message_by_id,
}
use beautiful_aerc.Sync.Resync.Sweep.{Rising}
use beautiful_aerc.Sync.Resync.Swept.{msg_id}

abbrev pub Ordered : MailDb → Type 0
Ordered db = Rising msg_id 0 db.messages

Rising-lower :
    (lo lo' : ℕ) (ms : List MessageRow) → lo' ≤ lo → Rising msg_id lo ms → Rising msg_id lo' ms
Rising-lower lo lo' [] h a = tt
Rising-lower lo lo' (m ∷ ms) h a = (omega (arith, h, a.0), a.1)

Rising-insert :
    (lo : ℕ) (ms : List MessageRow) (m : MessageRow)
    → lo < m.id
    → top_id msg_id ms < m.id
    → Rising msg_id lo ms
    → Rising msg_id lo (ms ++ m ∷ [])
Rising-insert lo [] m h t a = (h, tt)
Rising-insert lo (n ∷ ms) m h t a =
    (a.0, Rising-insert n.id ms m (omega (arith, t)) (omega (arith, t)) a.1)

Rising-update :
    (lo : ℕ) (p : MessageRow → Bool) (u : MessageUpsert) (ms : List MessageRow)
    → Rising msg_id lo ms
    → Rising msg_id lo (map_where p (updated_message u) ms)
Rising-update lo p u [] a = tt
Rising-update lo p u (m ∷ ms) a =
    elim (p m)
      as (λ b.
        Rising msg_id lo
          ((if b then updated_message u m else m) ∷ map_where p (updated_message u) ms)) [
            | true ↦ (a.0, Rising-update m.id p u ms a.1)
            | false ↦ (a.0, Rising-update m.id p u ms a.1)
          ]

Rising-filter :
    (lo : ℕ) (p : MessageRow → Bool) (ms : List MessageRow)
    → Rising msg_id lo ms
    → Rising msg_id lo (filter p ms)
Rising-filter lo p [] a = tt
Rising-filter lo p (m ∷ ms) a =
    let rest = Rising-filter m.id p ms a.1 in
    elim (p m) as (λ b. Rising msg_id lo (if b then m ∷ filter p ms else filter p ms)) [
      | true ↦ (a.0, rest)
      | false ↦ Rising-lower m.id lo (filter p ms) (omega (arith, a.0)) rest
    ]

write_message-Ordered :
    (o : Option MessageRow) (account : ℕ) (m : MessageUpsert) (db : MailDb)
    → Ordered db
    → Ordered (write_message o account m db).1
unfolding write_message
write_message-Ordered none account m db a =
    let id = new_message_id db in
    Rising-insert 0 db.messages (inserted_message id account m) (omega arith) (omega arith) a
write_message-Ordered (some r) account m db a = Rising-update 0 (λ t. t.id == r.id) m db.messages a

-- UpsertMessage, DeleteMessage and DeleteMessageByID keep the messages in the order of their ids,
-- from 1 on: a new row stands at the end, under an id above all others.
pub upsert_message-Ordered :
    (account id : ℕ) (s : String) (m : MessageUpsert) (db : MailDb)
    → Ordered db
    → Ordered (upsert_message account m db)
      × (Ordered (delete_message account s db) × Ordered (delete_message_by_id id db))
unfolding upsert_message sync_message_mailboxes delete_message delete_message_by_id delete_messages
upsert_message-Ordered account id s m db a = (
  write_message-Ordered (find (is_message_of account m.server_id) db.messages) account m db a,
  (
    Rising-filter 0 (λ t. not (is_message_of account s t)) db.messages a,
    Rising-filter 0 (λ t. not (t.id == id)) db.messages a,
  ),
)
