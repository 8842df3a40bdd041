-- ===== src/Sync/Run.antt =====
-- internal/sync/push.go: RunPush with reconnect, over what the transport and the waits answer.
pub mod Settled
use beautiful_aerc.Prelude.{
  ℕ, zero, suc, ◌+◌, List, [], ◌∷◌, ◌++◌, map, Option, none, some, Bool, true, false,
}
use beautiful_aerc.Uerr.{Err, LogLine}
use beautiful_aerc.Sync.Backoff.{backoff_delay}
use beautiful_aerc.Sync.Backoff.Sleep.{Wake, sleep_backoff}
use beautiful_aerc.Sync.Listen.{
  Event, Mark, arrival, flush, proved as proof, Ended, waiting, stream_closed, context_done,
  consume_push,
}
use beautiful_aerc.Sync.Push.{PushState, fresh, fail, stopped, proved}
use beautiful_aerc.Sync.Flush.{Health, synced, backing_off}

-- A call of Listen: refused, or a stream with its events; then the wait before the next call, and
-- whether the context is done where there is nothing to wait for.
pub data Turn : Type 0 where
  refused : Err → Bool → List Wake → Turn
  opened : List Event → Bool → List Wake → Turn

pub data Act : Type 0 where
  mark : Mark → Act
  shown : Health → Act
  logged : LogLine → Act

-- `emitBackoff`, for a delay that is not zero
abbrev pub show_wait : ℕ → List Act
show_wait zero = []
show_wait (suc d) = shown (backing_off (suc d)) ∷ []

-- the ticks of the poll flush too
abbrev pub polled : ℕ → List Act
polled zero = []
polled (suc n) = mark flush ∷ polled n

-- the marks of a stream: each proof resets the state and is shown
unfoldable pub take_marks : List Mark → PushState → PushState × List Act
take_marks [] s = (s, [])
take_marks (proof ∷ ms) s =
    let (s', acts) = take_marks ms (proved s) in (s', mark proof ∷ shown synced ∷ acts)
take_marks (arrival ∷ ms) s = let (s', acts) = take_marks ms s in (s', mark arrival ∷ acts)
take_marks (flush ∷ ms) s = let (s', acts) = take_marks ms s in (s', mark flush ∷ acts)

-- what the next call starts from, none where RunPush returns or still waits
abbrev pub waited : Option Bool → PushState → Option PushState
waited (some true) s = some s
waited _ s = none

abbrev pub then_acts : List Act → Option PushState × List Act → Option PushState × List Act
then_acts before (s, acts) = (s, before ++ acts)

-- the rest of the loop, where it goes on
abbrev pub resume :
    Option PushState × List Act
    → (PushState → Option PushState × List Act)
    → Option PushState × List Act
resume (none, acts) rest = (none, acts)
resume (some s, acts) rest = then_acts acts (rest s)

module _ (draw : ℕ → ℕ) (min_delay max_delay : ℕ) where
  -- the wait between two calls
  unfoldable pub pause : PushState → Bool → List Wake → Option Bool × List Act
  pause s is_done ws =
      let d = backoff_delay draw s.attempt min_delay max_delay in
      let (r, polls) = sleep_backoff d is_done ws in (r, show_wait d ++ polled polls)

  -- after a stream: only one that closed is followed by another call
  unfoldable pub after_stream : Ended → PushState → Bool → List Wake → Option PushState × List Act
  unfolding pause
  after_stream stream_closed s is_done ws =
      let (s', lines) = stopped s in
      let (r, acts) = pause s' is_done ws in (waited r s', map logged lines ++ acts)
  after_stream (waiting b) s is_done ws = (none, [])
  after_stream (context_done b) s is_done ws = (none, [])

  unfoldable pub turn : Turn → PushState → Option PushState × List Act
  unfolding pause take_marks after_stream
  turn (refused e is_done ws) s =
      let (s', lines) = fail e s in
      let (r, acts) = pause s' is_done ws in
      (waited r (record s' { attempt = s'.attempt + 1 }), map logged lines ++ acts)
  turn (opened es is_done ws) s =
      let (ended, marks) = consume_push es in
      let (s', acts) = take_marks marks s in then_acts acts (after_stream ended s' is_done ws)

  -- the loop
  unfoldable pub run_turns : List Turn → PushState → Option PushState × List Act
  unfolding turn
  run_turns [] s = (some s, [])
  run_turns (t ∷ ts) s = resume (turn t s) (run_turns ts)

  unfoldable pub run_push : List Turn → Option PushState × List Act
  unfolding run_turns
  run_push turns = run_turns turns fresh
