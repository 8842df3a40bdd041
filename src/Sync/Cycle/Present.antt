-- ===== src/Sync/Cycle/Present.antt =====
-- The upserts of a page of messages, of internal/sync/apply.go, and the rows that they leave.
use Prim.Native.Char.{Char}
use beautiful_aerc.Prelude.{
  ℕ, String, List, [], ◌∷◌, Option, none, some, Bool, true, false, not, ◌&&◌, ok, and_then-eq-ok,
  ◌≡◌, refl, subst, sym, ap, ◌∙◌, arith, ◌==◌, nat_eq, string_eq, All, any, find, map_where, filter,
  Bool-cases, inl, inr,
}
use beautiful_aerc.Prelude.Rows.{any-append, any-filter, any-cong, All-every, All-imp}
use beautiful_aerc.Backend.{message}
use beautiful_aerc.Store.Mail.{MailDb, MessageRow, is_key, is_message_of, new_message_id}
use beautiful_aerc.Store.Mail.Membership.{sync_message_mailboxes}
use beautiful_aerc.Store.Mail.Stale.{unkept, is_stale_message}
use beautiful_aerc.Store.Mail.Message.{
  MessageUpsert, inserted_message, updated_message, write_message, upsert_message,
}
use beautiful_aerc.Sync.Records.{
  Record, RecordFields, MessageFields, message_fields, mailbox_fields, other_fields, message_upsert,
  upsert_record,
}
use beautiful_aerc.Sync.Records
use beautiful_aerc.Sync.Bulk.{each}
use beautiful_aerc.Sync.Cycle.{upsert, skips}
use beautiful_aerc.Sync.Cycle.Pulled.{record_ids}
use beautiful_aerc.Sync.Resync.Ordered.{Ordered, upsert_message-Ordered}

abbrev pub present : ℕ → String → List MessageRow → Bool
present account s ms = any (is_message_of account s) ms

present-update :
    (account : ℕ) (s : String) (q : MessageRow → Bool) (m : MessageUpsert) (rs : List MessageRow)
    → present account s (map_where q (updated_message m) rs) ≡ present account s rs
present-update account s q m [] = refl
present-update account s q m (r ∷ rs) = ground (arith, present-update account s q m rs)

found :
    (p : MessageRow → Bool) (rs : List MessageRow) (r : MessageRow)
    → find p rs ≡ some r
    → any p rs ≡ true
found p [] r h = cc
found p (t ∷ rs) r h = elim (Bool-cases (p t)) [
  | inl here ↦ rw here refl
  | inr later ↦ rw (later, found p rs r (rw later at h)) refl
]

written :
    (o : Option MessageRow) (account : ℕ) (m : MessageUpsert) (db : MailDb)
    → find (is_message_of account m.server_id) db.messages ≡ o
    → present account m.server_id (write_message o account m db).1.messages ≡ true
unfolding write_message
written none account m db h =
    let row = inserted_message (new_message_id db) account m in
    ground (
      arith,
      any-append (is_message_of account m.server_id) db.messages (row ∷ []),
      nat_eq.same_iff account account,
      string_eq.same_iff m.server_id m.server_id,
    )
written (some r) account m db h =
    present-update account m.server_id (λ t. t.id == r.id) m db.messages
    ∙ found (is_message_of account m.server_id) db.messages r h

still :
    (o : Option MessageRow) (account : ℕ) (s : String) (m : MessageUpsert) (db : MailDb)
    → present account s db.messages ≡ true
    → present account s (write_message o account m db).1.messages ≡ true
unfolding write_message
still none account s m db h =
    let row = inserted_message (new_message_id db) account m in
    ground (arith, any-append (is_message_of account s) db.messages (row ∷ []))
still (some r) account s m db h = present-update account s (λ t. t.id == r.id) m db.messages ∙ h

module _ (normal : String → List Char) (account : ℕ) where
  -- what an upsert that a page of messages takes was
  upsert_as :
      (id : String) (f : RecordFields) (db m : MailDb)
      → upsert normal account message (record { id = id; fields = f }) db ≡ ok m
      → (g : MessageFields) × (m ≡ upsert_message account (message_upsert id g) db)
  unfolding upsert upsert_record Records.upsert_message
  upsert_as id (message_fields g) db m h = (g, cc)
  upsert_as id (mailbox_fields g) db m h = cc
  upsert_as id other_fields db m h = cc

  pub upsert-Ordered :
      (rec : Record) (db m : MailDb)
      → upsert normal account message rec db ≡ ok m
      → Ordered db
      → Ordered m
  upsert-Ordered rec db m h o =
      let (g, e) = upsert_as rec.id rec.fields db m h in
      subst Ordered (sym e) (upsert_message-Ordered account 0 "" (message_upsert rec.id g) db o).0

  upsert-present :
      (rec : Record) (db m : MailDb)
      → upsert normal account message rec db ≡ ok m
      → present account rec.id m.messages ≡ true
  unfolding upsert_message sync_message_mailboxes
  upsert-present rec db m h =
      let (g, e) = upsert_as rec.id rec.fields db m h in
      ap (λ z. present account rec.id z.messages) e
      ∙ written (find (is_message_of account rec.id) db.messages) account (message_upsert rec.id g)
          db refl

  upsert-still :
      (rec : Record) (s : String) (db m : MailDb)
      → upsert normal account message rec db ≡ ok m
      → present account s db.messages ≡ true
      → present account s m.messages ≡ true
  unfolding upsert_message sync_message_mailboxes
  upsert-still rec s db m h p =
      let (g, e) = upsert_as rec.id rec.fields db m h in
      ap (λ z. present account s z.messages) e
      ∙ still (find (is_message_of account rec.id) db.messages) account s (message_upsert rec.id g)
          db p

  each-still :
      (recs : List Record) (s : String) (db m : MailDb)
      → each (upsert normal account message) recs db ≡ ok m
      → present account s db.messages ≡ true
      → present account s m.messages ≡ true
  each-still [] s db m h p =
      let q : db ≡ m = cc in subst (λ z. present account s z.messages ≡ true) q p
  each-still (r ∷ rs) s db m h p =
      let up = upsert normal account message in
      let (d, f, g) = and_then-eq-ok (up r db) (each up rs) h in
      each-still rs s d m g (upsert-still r s db d f p)

  -- every record of the pages has its row
  pub each-present :
      (recs : List Record) (db m : MailDb)
      → each (upsert normal account message) recs db ≡ ok m
      → All (λ r. present account r.id m.messages ≡ true) recs
  each-present [] db m h = tt
  each-present (r ∷ rs) db m h =
      let up = upsert normal account message in
      let (d, f, g) = and_then-eq-ok (up r db) (each up rs) h in
      (each-still rs r.id d m g (upsert-present r db d f), each-present rs d m g)

  pub each-Ordered :
      (recs : List Record) (db m : MailDb)
      → each (upsert normal account message) recs db ≡ ok m
      → Ordered db
      → Ordered m
  each-Ordered [] db m h o = let q : db ≡ m = cc in subst Ordered q o
  each-Ordered (r ∷ rs) db m h o =
      let up = upsert normal account message in
      let (d, f, g) = and_then-eq-ok (up r db) (each up rs) h in
      each-Ordered rs d m g (upsert-Ordered r db d f o)

key_kept :
    (account : ℕ) (keep : List String) (s : String) (a : ℕ) (o : Option String)
    → skips keep s ≡ true
    → is_key account s a o ≡ true
    → unkept keep o ≡ false
key_kept account keep s a none h k = cc
key_kept account keep s a (some t) h k =
    let q : t ≡ s = (string_eq.same_iff t s).0 (ground arith) in
    subst (λ z. unkept keep (some z) ≡ false) (sym q) (ap not h)

not_stale :
    (account : ℕ) (keep : List String) (s : String) (m : MessageRow)
    → skips keep s ≡ true
    → (not (is_stale_message account keep m) && is_message_of account s m)
      ≡ is_message_of account s m
not_stale account keep s m h = elim (Bool-cases (is_message_of account s m)) [
  | inl k ↦ ground (arith, k, key_kept account keep s m.account_id m.server_id h k)
  | inr k ↦ ground (arith, k)
]

-- a row that is to be kept is not swept away
pub present-swept :
    (account : ℕ) (keep : List String) (s : String) (rs : List MessageRow)
    → skips keep s ≡ true
    → present account s rs ≡ true
    → present account s (filter (λ m. not (is_stale_message account keep m)) rs) ≡ true
present-swept account keep s rs h p =
    any-filter (is_message_of account s) (λ m. not (is_stale_message account keep m)) rs
    ∙ any-cong (λ m. not (is_stale_message account keep m) && is_message_of account s m)
        (is_message_of account s) rs
        (All-every
          (λ m.
            (not (is_stale_message account keep m) && is_message_of account s m)
            ≡ is_message_of account s m)
          rs (λ m. not_stale account keep s m h))
    ∙ p

pub skips-of : (recs : List Record) → All (λ r. skips (record_ids recs) r.id ≡ true) recs
skips-of [] = tt
skips-of (r ∷ rs) = (
  ground (arith, string_eq.same_iff r.id r.id),
  All-imp (λ x. skips (record_ids rs) x.id ≡ true) (λ x. skips (record_ids (r ∷ rs)) x.id ≡ true) rs
      (λ x h. ground (arith, h)) (skips-of rs),
)
