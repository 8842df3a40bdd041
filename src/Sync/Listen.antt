-- ===== src/Sync/Listen.antt =====
-- internal/sync/push.go: consumePush, the loop over one push stream. What a `select` takes is an
-- event; a channel that is nil never fires, so its event is left aside.
pub mod Settled
use beautiful_aerc.Prelude.{List, [], ◌∷◌, Bool, true, false}

pub data Event : Type 0 where
  notified : Event
  closed : Event
  coalesced : Event
  proving_over : Event
  cancelled : Event

-- what the loop does, and the notifications that it takes
pub data Mark : Type 0 where
  arrival flush proved : Mark

-- How the loop stands: it waits for its next event, the stream is closed, or the context is done.
-- The Boolean says whether the coalescing timer runs.
pub data Ended : Type 0 where
  waiting : Bool → Ended
  stream_closed : Ended
  context_done : Bool → Ended

-- put a mark before the rest of a run
abbrev pub after : Mark → Ended × List Mark → Ended × List Mark
after m (e, ms) = (e, m ∷ ms)

-- the close of the stream, which flushes what is still coalescing
abbrev pub close : Bool → Ended × List Mark
close true = (stream_closed, flush ∷ [])
close false = (stream_closed, [])

-- The loop: `timer` is `flushC != nil`, `proving` is `provingC != nil`.
unfoldable pub consume : Bool → Bool → List Event → Ended × List Mark
consume timer proving [] = (waiting timer, [])
consume timer proving (notified ∷ es) = after arrival (consume true proving es)
consume timer proving (closed ∷ es) = close timer
consume true proving (coalesced ∷ es) = after flush (consume false proving es)
consume false proving (coalesced ∷ es) = consume false proving es
consume timer true (proving_over ∷ es) = after proved (consume timer false es)
consume timer false (proving_over ∷ es) = consume timer false es
consume timer proving (cancelled ∷ es) = (context_done timer, [])

unfoldable pub consume_push : List Event → Ended × List Mark
unfolding consume
consume_push = consume false true
