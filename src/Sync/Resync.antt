-- ===== src/Sync/Resync.antt =====
-- The walk of deleteStale in internal/sync/resync.go over the pages of messages, as it goes where every
-- transaction of it commits.
pub mod Sweep
pub mod Swept
pub mod Ordered
use beautiful_aerc.Prelude.{
  ℕ, zero, suc, String, List, [], ◌∷◌, length, ◌==◌, nat_eq, if◌then◌else◌,
}
use beautiful_aerc.Store.Mail.{MailDb}
use beautiful_aerc.Store.Mail.Stale.{stale_message_ids}
use beautiful_aerc.Store.Mail.Message.{delete_message_by_id}

abbrev pub stale_scan_page : ℕ
stale_scan_page = 500

-- deleteByID of each id of a page
abbrev pub delete_each : List ℕ → MailDb → MailDb
delete_each [] db = db
delete_each (i ∷ is) db = delete_each is (delete_message_by_id i db)

-- page after page
unfoldable pub delete_stale_from : ℕ → ℕ → List String → ℕ → MailDb → MailDb
unfolding stale_message_ids
delete_stale_from zero account keep after db = db
delete_stale_from (suc fuel) account keep after db =
    let (stale, cursor) = stale_message_ids account keep after stale_scan_page db.messages in
    let rest = delete_stale_from fuel account keep cursor (delete_each stale db) in
    if cursor == 0 then db else rest
