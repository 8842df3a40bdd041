-- ===== src/Sync/Resync/Swept.antt =====
-- deleteStale of internal/sync/resync.go and the messages that it leaves.
use mathlib.Core.List.{append_assoc}
use beautiful_aerc.Prelude.{
  ℕ, zero, suc, ◌≤◌, ◌<◌, String, List, [], ◌∷◌, ◌++◌, Bool, false, not, ◌&&◌, ◌≡◌, refl, ap, sym,
  ◌∙◌, arith, ◌==◌, nat_eq, filter, take, drop, length, Bool-cases, inl, inr, All-append,
}
use beautiful_aerc.Prelude.Rows.{All-filter, All-imp}
use beautiful_aerc.Prelude.Listed.{listed}
use beautiful_aerc.Store.Mail.{MailDb, MessageRow}
use beautiful_aerc.Store.Mail.Message.{delete_message_by_id, delete_messages}
use beautiful_aerc.Store.Mail.Stale.{page_after, cursor_of, is_stale_message, stale_message_ids}
use beautiful_aerc.Sync.Resync.{delete_each, delete_stale_from, stale_scan_page}
use beautiful_aerc.Sync.Resync.Sweep.{
  Rising, Below, page_after-split, take-drop, Below-page, Rising-ahead, Rising-page, filter-kept,
  filter-append, stale_ids,
}

abbrev pub msg_id : MessageRow → ℕ
msg_id m = m.id

filter-filter :
    (p q : MessageRow → Bool) (ms : List MessageRow)
    → filter p (filter q ms) ≡ filter (λ m. q m && p m) ms
filter-filter p q [] = refl
filter-filter p q (m ∷ ms) = elim (Bool-cases (q m)) [
  | inl mine ↦ rw (mine, filter-filter p q ms)
  | inr other ↦ rw (other, filter-filter p q ms)
]

filter_true : (ms : List MessageRow) → filter (λ m. not (listed m.id [])) ms ≡ ms
filter_true [] = refl
filter_true (m ∷ ms) = ap (λ t. m ∷ t) (filter_true ms)

filter_ext :
    (p q : MessageRow → Bool) (ms : List MessageRow)
    → ((m : MessageRow) → p m ≡ q m)
    → filter p ms ≡ filter q ms
filter_ext p q [] h = refl
filter_ext p q (m ∷ ms) h = rw (h m, filter_ext p q ms h)

messages-delete_each :
    (is : List ℕ) (db : MailDb)
    → (delete_each is db).messages ≡ filter (λ m. not (listed m.id is)) db.messages
unfolding delete_message_by_id delete_messages
messages-delete_each [] db = sym (filter_true db.messages)
messages-delete_each (i ∷ is) db =
    messages-delete_each is (delete_message_by_id i db)
    ∙ filter-filter (λ m. not (listed m.id is)) (λ m. not (m.id == i)) db.messages
    ∙ filter_ext (λ m. not (m.id == i) && not (listed m.id is)) (λ m. not (listed m.id (i ∷ is)))
        db.messages (λ m. ground arith)

not_zero : (cursor i after : ℕ) → i ≤ cursor → after < i → (cursor == 0) ≡ false
not_zero cursor i after h k = ground arith

length-drop-le : (n : ℕ) (ms : List MessageRow) → length (drop n ms) ≤ length ms
length-drop-le zero ms = omega arith
length-drop-le (suc n) [] = omega arith
length-drop-le (suc n) (m ∷ ms) = omega (arith, length-drop-le n ms)

module _ (account : ℕ) (keep : List String) where
  abbrev stale : MessageRow → Bool
  stale m = is_stale_message account keep m

  pub swept :
      (fuel after : ℕ) (db : MailDb) (behind ahead : List MessageRow)
      → db.messages ≡ behind ++ ahead
      → Below msg_id after behind
      → Rising msg_id after ahead
      → length ahead < fuel
      → (delete_stale_from fuel account keep after db).messages
        ≡ behind ++ filter (λ m. not (stale m)) ahead
  unfolding delete_stale_from stale_message_ids
  swept zero after db behind ahead e b a f = ground arith
  swept (suc fuel) after db behind [] e b a f =
      let page : page_after msg_id after stale_scan_page db.messages ≡ [] =
        ap (page_after msg_id after stale_scan_page) e
        ∙ page_after-split msg_id after stale_scan_page behind [] b a in
      rw page e
  swept (suc fuel) after db behind (r ∷ rs) e b a f =
      let here = r ∷ take 499 rs in
      let page : page_after msg_id after stale_scan_page db.messages ≡ here =
        ap (page_after msg_id after stale_scan_page) e
        ∙ page_after-split msg_id after stale_scan_page behind (r ∷ rs) b a in
      let ns : MessageRow → Bool = λ m. not (stale m) in
      let more = drop 499 rs in
      let cursor = cursor_of msg_id here in
      let ids = stale_ids msg_id stale here in
      let low = Below-page msg_id 499 after r rs a in
      let high = Rising-ahead msg_id 499 after r rs a in
      let moved : (cursor == 0) ≡ false = not_zero cursor r.id after low.0 a.0 in
      let rows : (delete_each ids db).messages ≡ (behind ++ filter ns here) ++ more =
        messages-delete_each ids db
        ∙ ap (filter (λ m. not (listed m.id ids)))
            (e ∙ ap (λ t. behind ++ t) (sym (take-drop msg_id 500 (r ∷ rs))))
        ∙ filter-kept msg_id stale after behind here more b
            (Rising-page msg_id 500 after (r ∷ rs) a) low high
        ∙ sym (append_assoc behind (filter ns here) more) in
      let passed : Below msg_id cursor (behind ++ filter ns here) =
        All-append (λ m. m.id ≤ cursor) behind (filter ns here)
          (All-imp (λ m. m.id ≤ after) (λ m. m.id ≤ cursor) behind
            (λ m h. omega (arith, h, low.0, a.0)) b)
          (All-filter (λ m. m.id ≤ cursor) ns here low) in
      rw (page, moved)
        (swept fuel cursor (delete_each ids db) (behind ++ filter ns here) more rows passed high
            (omega (arith, f, length-drop-le 499 rs))
          ∙ append_assoc behind (filter ns here) (filter ns more)
          ∙ ap (λ t. behind ++ t)
              (sym (filter-append msg_id ns here more)
                ∙ ap (filter ns) (take-drop msg_id 500 (r ∷ rs))))
