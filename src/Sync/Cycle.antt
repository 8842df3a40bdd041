-- ===== src/Sync/Cycle.antt =====
-- internal/sync/sync.go, resync.go and apply.go: SyncKind with the full resync that it falls back
-- to. The server is the list of its answers to Changes, in the order of the calls.
pub mod Steps
pub mod Kept
pub mod Pulled
pub mod Rebuilt
pub mod Progress
pub mod Synced
pub mod Invariant
pub mod Sweep
pub mod Present
pub mod Converged
use Prim.Native.Char.{Char}
use beautiful_aerc.Prelude.{
  ℕ, zero, suc, ◌+◌, String, List, [], ◌∷◌, ◌++◌, map, length, Bool, true, false, not, ◌&&◌, any,
  Option, none, some, Result, ok, err, and_then, ◌>>◌, ◌==◌, nat_eq, string_eq, if◌then◌else◌,
  lookup_or, assign, pure, stop, ◌>>=◌,
}
use beautiful_aerc.Uerr.{
  Err, plain, sentinel, wrapped, failure, is, state_reset, state_not_advancing, server,
}
use beautiful_aerc.Backend.{ObjectKind, message, mailbox, event, contact}
use beautiful_aerc.Store.{Tx}
use beautiful_aerc.Store.Mail.{MailDb}
use beautiful_aerc.Store.Mail.Stale.{stale_message_ids, stale_mailbox_ids}
use beautiful_aerc.Store.Mail.Message.{delete_message_by_id}
use beautiful_aerc.Store.Mail.Mailbox.{delete_mailbox_by_id}
use beautiful_aerc.Sync.Kinds.{kind_name}
use beautiful_aerc.Sync.Echo.{consume}
use beautiful_aerc.Sync.Records.{
  Record, ApplyError, unsupported_fields, wrong_page, unsupported_kind, upsert_record,
  destroy_record,
}
use beautiful_aerc.Sync.Resync.{stale_scan_page}
use beautiful_aerc.Sync.Bulk.{
  StateKey, state_key_eq, Watermark, SyncDb, World, Halt, failed, waiting, Cycle, apply_bulk,
  run_bulk_chunks, apply_chunked,
}

-- internal/backend/backend.go
pub record ChangeSet : Type 0 where
  pub created : List Record
  pub updated : List Record
  pub destroyed : List String
  pub new_token : String
  pub has_more : Bool

abbrev pub Answer : Type 0
Answer = Result Err ChangeSet

abbrev pub mail_collection : String
mail_collection = ""

abbrev pub state_key : ℕ → ObjectKind → StateKey
unfolding kind_name
state_key account kind = (account, kind_name kind, mail_collection)

abbrev pub no_watermark : Watermark
no_watermark = record { server_state_token = ""; local_rev = 0 }

abbrev pub load_tx : ℕ → ObjectKind → Tx SyncDb Watermark
load_tx account kind s = ok (lookup_or no_watermark (state_key account kind) s.states, s)

unfoldable pub load_watermark : ℕ → ObjectKind → Cycle Watermark
unfolding apply_bulk
load_watermark account kind = apply_bulk (load_tx account kind)

unfoldable pub save_watermark : ℕ → ObjectKind → Watermark → Tx SyncDb Unit
save_watermark account kind wm s =
    ok (tt, record s { states = assign (state_key account kind) wm s.states })

-- checkStateAdvanced, `none` for nil
unfoldable pub check_state_advanced : ObjectKind → String → ChangeSet → Result Err Unit
unfolding kind_name
check_state_advanced kind requested cs =
    if not cs.has_more
    then ok tt
    else if not (cs.new_token == requested)
    then ok tt
    else err (
        failure server (
          wrapped (kind_name kind) (
            sentinel state_not_advancing
              "sync: the server reported more changes without advancing its state token")))

-- the errors of apply.go, without the record that their text names
abbrev pub apply_err : {A : Type 0} → Result ApplyError A → Result Err A
apply_err (ok a) = ok a
apply_err (err unsupported_fields) = err (plain "sync: apply: unsupported fields")
apply_err (err wrong_page) = err (plain "sync: apply: fields on a page of another kind")
apply_err (err unsupported_kind) = err (plain "sync: destroy: unsupported kind")

abbrev pub unsupported : {A : Type 0} → Result Err A
unsupported = err (plain "sync: resync: unsupported kind")

unfoldable pub stale_ids : ℕ → ObjectKind → List String → ℕ → MailDb → Result Err (List ℕ × ℕ)
unfolding stale_message_ids stale_mailbox_ids
stale_ids account message keep after db =
    ok (stale_message_ids account keep after stale_scan_page db.messages)
stale_ids account mailbox keep after db =
    ok (stale_mailbox_ids account keep after stale_scan_page db.mailboxes)
stale_ids account _ keep after db = unsupported

unfoldable pub delete_by_id : ObjectKind → ℕ → MailDb → Result Err MailDb
unfolding delete_message_by_id delete_mailbox_by_id
delete_by_id message id db = ok (delete_message_by_id id db)
delete_by_id mailbox id db = ok (delete_mailbox_by_id id db)
delete_by_id _ id db = unsupported

abbrev pub scan_tx : ℕ → ObjectKind → List String → ℕ → Tx SyncDb (List ℕ × ℕ)
scan_tx account kind keep after s =
    and_then (stale_ids account kind keep after s.mail) λ r. ok (r, s)

-- skip[id]
abbrev pub skips : List String → String → Bool
skips skip id = any (λ t. t == id) skip

-- How many pages a scan can have: every page but the last moves past a row.
abbrev pub scan_fuel : SyncDb → ℕ
scan_fuel s = suc (length s.mail.messages + length s.mail.mailboxes)

module _ (normal : String → List Char) (account : ℕ) (kind : ObjectKind) where
  unfoldable pub upsert : Record → MailDb → Result Err MailDb
  unfolding upsert_record
  upsert rec db = apply_err (upsert_record normal account kind rec db)

  unfoldable pub destroy : String → MailDb → Result Err MailDb
  unfolding destroy_record
  destroy id db = apply_err (destroy_record account kind id db)

  -- the closures of applyChangeSet
  abbrev pub upsert_unless : List String → Record → MailDb → Result Err MailDb
  upsert_unless skip rec db = if skips skip rec.id then ok db else upsert rec db

  abbrev pub destroy_unless : List String → String → MailDb → Result Err MailDb
  destroy_unless skip id db = if skips skip id then ok db else destroy id db

  unfoldable pub apply_change_set : ChangeSet → List String → Cycle Unit
  unfolding ◌>>=◌ apply_chunked
  apply_change_set cs skip = do
    apply_chunked (upsert_unless skip) cs.created
    apply_chunked (upsert_unless skip) cs.updated
    apply_chunked (destroy_unless skip) cs.destroyed

  unfoldable pub save : Watermark → Cycle Unit
  unfolding save_watermark run_bulk_chunks
  save wm = run_bulk_chunks (save_watermark account kind wm)

  -- the loop of deleteStale
  unfoldable pub delete_stale_from : ℕ → List String → ℕ → Cycle Unit
  unfolding ◌>>=◌ run_bulk_chunks apply_chunked delete_by_id stale_ids
  delete_stale_from zero keep after = pure tt
  delete_stale_from (suc fuel) keep after = do
    (stale, cursor) ← run_bulk_chunks (scan_tx account kind keep after)
    if cursor == 0
        then pure tt
        else (do apply_chunked (delete_by_id kind) stale; delete_stale_from fuel keep cursor)

  unfoldable pub delete_stale : List String → Cycle Unit
  unfolding delete_stale_from
  delete_stale keep w = delete_stale_from (scan_fuel w.store.db) keep 0 w

  -- the loop of fullResync over the pages, which gives the ids to keep and the last token
  unfoldable pub pull : List Answer → List String → String → Cycle (List String × String)
  unfolding ◌>>=◌ apply_chunked check_state_advanced upsert
  pull [] keep token = stop waiting
  pull (err e ∷ answers) keep token = stop (failed e)
  pull (ok cs ∷ answers) keep token =
      let keep' = keep ++ map (λ rec. rec.id) cs.created in
      elim (check_state_advanced kind token cs) [
        | err e ↦ stop (failed e)
        | ok _ ↦ do
          apply_chunked upsert cs.created
          if cs.has_more then pull answers keep' cs.new_token else pure (keep', cs.new_token)
      ]

  unfoldable pub full_resync : List Answer → Cycle Unit
  unfolding ◌>>=◌ pull delete_stale save
  full_resync answers = do
    (keep, token) ← pull answers [] ""
    delete_stale keep
    save (record { server_state_token = token; local_rev = 1 })

  unfoldable pub consume_echo : String → Cycle (List String)
  unfolding consume
  consume_echo token w =
      let (skip, e) = consume kind token w.echo in (ok skip, record w { echo = e })

  -- the loop of SyncKind
  unfoldable pub sync_pages : List Answer → Watermark → Cycle Unit
  unfolding ◌>>=◌ full_resync apply_change_set consume_echo save check_state_advanced is
  sync_pages [] wm = stop waiting
  sync_pages (err e ∷ answers) wm =
      if is state_reset e then full_resync answers else stop (failed e)
  sync_pages (ok cs ∷ answers) wm =
      let next : Watermark = record {
        server_state_token = cs.new_token;
        local_rev = suc wm.local_rev;
      } in
      elim (check_state_advanced kind wm.server_state_token cs) [
        | err e ↦ stop (failed e)
        | ok _ ↦ do
          skip ← consume_echo cs.new_token
          apply_change_set cs skip
          save next
          if cs.has_more then sync_pages answers next else pure tt
      ]

  unfoldable pub sync_kind : List Answer → Cycle Unit
  unfolding ◌>>=◌ load_watermark sync_pages
  sync_kind answers = do wm ← load_watermark account kind; sync_pages answers wm
