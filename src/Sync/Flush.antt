-- ===== src/Sync/Flush.antt =====
-- internal/sync/push.go and observe.go: syncFlushState, which remembers the kinds that fail to
-- sync, the sync of every kind, and the health that a run shows.
pub mod Failing
pub mod Told
use beautiful_aerc.Prelude.{
  ℕ, List, [], ◌∷◌, ◌++◌, Option, none, some, Map, lookup, assign, erase, Bool, true, false, not,
  if◌then◌else◌,
}
use beautiful_aerc.Uerr.{Class, Err, LogLine, same_class}
use beautiful_aerc.Backend.{ObjectKind}
use beautiful_aerc.Sync.Kinds.{kind_eq}
use beautiful_aerc.Sync.Push.{surfaceable, classify}

abbrev pub Failing : Type 0
Failing = Map ObjectKind Class

-- what `report` writes: the line of a `uerr.New`, and that of slog.Info for a recovery
pub data Note : Type 0 where
  surfaced : LogLine → Note
  recovered : ObjectKind → Note

-- the lines for a failure of a kind that was shown as `prev`
abbrev pub flush_lines : Option Class → Class × Err → List Note
flush_lines prev (class, cause) =
    let line : LogLine = record {
      op = "sync.push.flush";
      ids = [];
      class = class;
      cause = cause;
    } in
    elim prev [
      | none ↦ surfaced line ∷ []
      | some p ↦ if not (same_class p class) then surfaced line ∷ [] else []
    ]

-- `report`; `none` is a nil error
unfoldable pub report : ObjectKind → Option Err → Failing → Failing × List Note
report kind none s = elim (lookup kind s) [
  | none ↦ (s, [])
  | some was ↦ (erase kind s, recovered kind ∷ [])
]
report kind (some e) s =
    let (class, cause) = classify e in
    if not (surfaceable e)
    then (s, [])
    else (assign kind class s, flush_lines (lookup kind s) (class, cause))

pub data Health : Type 0 where
  synced syncing : Health
  backing_off : ℕ → Health

abbrev pub is_empty : Failing → Bool
is_empty [] = true
is_empty (f ∷ fs) = false

-- `flush`: `sync` is SyncKind, which moves the world `W` on
module _ {W : Type 0} (sync : ObjectKind → W → Option Err × W) where
  unfoldable pub flush : List ObjectKind → Failing × W → Failing × W × List Note
  flush [] (s, w) = (s, w, [])
  flush (kind ∷ kinds) (s, w) =
      let (r, w') = sync kind w in
      let (s', lines) = report kind r s in
      let (s'', w'', more) = flush kinds (s', w') in (s'', w'', lines ++ more)

  -- runFlush, with the health that it emits
  unfoldable pub run_flush : List ObjectKind → Failing × W → Failing × W × List Note × List Health
  unfolding flush
  run_flush kinds (s, w) =
      let (s', w', lines) = flush kinds (s, w) in
      (s', w', lines, if is_empty s' then syncing ∷ synced ∷ [] else syncing ∷ [])
