-- ===== src/Sync/Flush/Told.antt =====
-- What a flush of internal/sync/push.go and observe.go tells, over the history of the syncs.
use mathlib.Core.List.{map-append}
use beautiful_aerc.Prelude.{
  List, [], ◌∷◌, ◌++◌, map, Option, none, some, lookup, if◌then◌else◌, ◌≡◌, refl, ◌∙◌, arith, Bool,
  true, false, ◌&&◌,
}
use beautiful_aerc.Uerr.{Class, Err}
use beautiful_aerc.Backend.{ObjectKind, message, mailbox, event, contact}
use beautiful_aerc.Sync.Kinds.{kind_eq}
use beautiful_aerc.Sync.Flush.{Failing, report, synced, syncing, is_empty, flush, run_flush}
use beautiful_aerc.Sync.Flush.Failing.{
  History, shown, News, told, news, Shows, Shows-report, report-news,
}

abbrev pub after_all : History → List (ObjectKind × Option Err) → History
after_all h [] = h
after_all h (o ∷ os) = after_all (o ∷ h) os

abbrev pub all_news : History → List (ObjectKind × Option Err) → List News
all_news h [] = []
all_news h ((kind, r) ∷ os) =
    news kind (shown kind h) (shown kind ((kind, r) ∷ h)) ++ all_news ((kind, r) ∷ h) os

abbrev pub is_sound : Option Class → Bool
is_sound none = true
is_sound (some c) = false

-- no kind fails
abbrev pub all_sound : History → Bool
all_sound h =
    is_sound (shown message h)
    && (is_sound (shown mailbox h) && (is_sound (shown event h) && is_sound (shown contact h)))

sound_by :
    (s : Failing)
    → is_empty s ≡ (
        is_sound (lookup message s)
        && (is_sound (lookup mailbox s)
            && (is_sound (lookup event s) && is_sound (lookup contact s))))
sound_by [] = refl
sound_by ((message, c) ∷ s) = refl
sound_by ((mailbox, c) ∷ s) = ground arith
sound_by ((event, c) ∷ s) = ground arith
sound_by ((contact, c) ∷ s) = ground arith

-- the results of the syncs of a flush, in order
module _ {W : Type 0} (sync : ObjectKind → W → Option Err × W) where
  abbrev pub outcomes : List ObjectKind → W → List (ObjectKind × Option Err)
  outcomes [] w = []
  outcomes (kind ∷ kinds) w = let (r, w') = sync kind w in (kind, r) ∷ outcomes kinds w'

  flush-news :
      (kinds : List ObjectKind) (s : Failing) (w : W) (h : History)
      → Shows s h
      → Shows (flush sync kinds (s, w)).0 (after_all h (outcomes kinds w))
        × (map told (flush sync kinds (s, w)).2 ≡ all_news h (outcomes kinds w))
  unfolding flush
  flush-news [] s w h q = (q, refl)
  flush-news (kind ∷ kinds) s w h q =
      let (r, w') = sync kind w in
      let (q', rest) =
        flush-news kinds (report kind r s).0 w' ((kind, r) ∷ h) (Shows-report kind r s h q) in
      (
        q',
        map-append told (report kind r s).1 (flush sync kinds ((report kind r s).0, w')).2
            ∙ rw (report-news kind r s h q, rest) refl,
      )

  -- Where what is remembered shows each kind under the class of its last result that counts: so it
  -- does after a flush, with the results of the flush among them, and a result counts unless it is
  -- the end of the context; the lines that the flush writes, in the order of its syncs, are a failure
  -- for each kind that comes to be shown under a class that it was not shown under before, and a
  -- recovery for each kind that is sound again; and Synced follows Syncing exactly where no kind is
  -- left failing, those that the flush did not sync among them.
  pub run_flush_lem :
      (kinds : List ObjectKind) (s : Failing) (w : W) (h : History)
      → Shows s h
      → let h' = after_all h (outcomes kinds w) in
        let (s', w', notes, healths) = run_flush sync kinds (s, w) in
        Shows s' h'
        × (map told notes ≡ all_news h (outcomes kinds w))
        × (healths ≡ (if all_sound h' then syncing ∷ synced ∷ [] else syncing ∷ []))
  unfolding run_flush
  run_flush_lem kinds s w h q =
      let (q', told') = flush-news kinds s w h q in
      let s' = (flush sync kinds (s, w)).0 in
      (q', told', rw (sound_by s', q' message, q' mailbox, q' event, q' contact) refl)
