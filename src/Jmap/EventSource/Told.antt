-- ===== src/Jmap/EventSource/Told.antt =====
-- What one connection of jmap/eventsource.go calls back and sets, event by event.
pub mod Single
pub mod Connection
use beautiful_aerc.Prelude.{
  ℕ, zero, suc, List, [], ◌∷◌, ◌++◌, map, length, Option, none, some, Result, ok, err, Bool, true,
  false, not, ◌&&◌, ◌||◌, ltb, ◌==◌, nat_eq, if◌then◌else◌, ◌≡◌, refl, sym, ap, ◌∙◌, arith,
  Bool-cases, Result-cases, Option-cases, inl, inr, ◌≤◌,
}
use beautiful_aerc.Uerr.{Err}
use beautiful_aerc.Jmap.Events.{Bytes}
use beautiful_aerc.Jmap.Events.Reader.{
  Event, EventReader, Next, dispatched, event_too_long, ended, same_bytes, next,
}
use beautiful_aerc.Jmap.EventSource.{
  second, max_int64, times, cadence, stall_window, state_event, ping_event, Decoder, EventSource,
  Act, changed, clamped, armed, Pinged, Ending, take_ping, take_event, rearm, consume_from, consume,
}
use beautiful_aerc.Jmap.EventSource.Timer.{Sane, consume-Sane, Next-cases}

-- the three kinds of acts
abbrev pub changes : {C : Type 0} → List (Act C) → List C
changes [] = []
changes (changed c ∷ as') = c ∷ changes as'
changes (clamped f c ∷ as') = changes as'
changes (armed w ∷ as') = changes as'

abbrev pub reports : {C : Type 0} → List (Act C) → List (ℕ × ℕ)
reports [] = []
reports (changed c ∷ as') = reports as'
reports (clamped f c ∷ as') = (f, c) ∷ reports as'
reports (armed w ∷ as') = reports as'

abbrev pub timers : {C : Type 0} → List (Act C) → List ℕ
timers [] = []
timers (changed c ∷ as') = timers as'
timers (clamped f c ∷ as') = timers as'
timers (armed w ∷ as') = w ∷ timers as'

-- the events that the body holds
abbrev pub heard : ℕ → EventReader → List Bytes → List Event
unfolding next
heard zero r lines = []
heard (suc fuel) r lines =
    let (n, r', rest) = next r lines in
    let later = heard fuel r' rest in
    elim n [ ended ↦ [] | event_too_long ↦ [] | dispatched e ↦ e ∷ later ]

-- Of usable pings, each a figure and the cadence held to: those above the cadence whose figure is
-- another than the one before.
abbrev pub new_reports : ℕ → List (Option (ℕ × ℕ)) → List (ℕ × ℕ)
new_reports last [] = []
new_reports last (none ∷ ps) = new_reports last ps
new_reports last (some (f, c) ∷ ps) =
    let new = new_reports f ps in
    let same = new_reports last ps in if ltb c f && not (f == last) then (f, c) ∷ new else same

-- after each event the window of the last usable ping
abbrev pub windows : ℕ → List (Option (ℕ × ℕ)) → List ℕ
unfolding stall_window
windows w [] = []
windows w (none ∷ ps) = w ∷ windows w ps
windows w (some (f, c) ∷ ps) = stall_window c ∷ windows (stall_window c) ps

abbrev pub of_ok : {C : Type 0} → Result Err C → List C
of_ok (ok c) = c ∷ []
of_ok (err x) = []

abbrev pub is_err : {C : Type 0} → Result Err C → Bool
is_err (ok c) = false
is_err (err x) = true

abbrev pub with_figure : ℕ → Option ℕ → Option (ℕ × ℕ)
with_figure interval none = none
with_figure interval (some c) = some (times interval second, c)

abbrev pub ping_figure : ℕ → Result Err ℕ → Option (ℕ × ℕ)
unfolding cadence
ping_figure requested (ok interval) = with_figure interval (cadence interval requested)
ping_figure requested (err x) = none

abbrev pub window_after : ℕ → Option (ℕ × ℕ) → ℕ
unfolding stall_window
window_after w none = w
window_after w (some (f, c)) = stall_window c

module _ {C : Type 0} (decode : Decoder C) (source : EventSource) where
  abbrev pub is_state : Event → Bool
  is_state e = same_bytes e.name state_event

  abbrev pub is_ping : Event → Bool
  is_ping e = same_bytes e.name ping_event

  -- the state change of an event
  abbrev pub change_of : Event → List C
  change_of e = if is_state e then of_ok (decode.state e.payload) else []

  -- the event ends the connection
  abbrev pub ends : Event → Bool
  ends e =
      if is_state e
      then is_err (decode.state e.payload) || source.close_after_state
      else is_ping e && is_err (decode.ping e.payload)

  -- the figure of a usable ping, and the cadence held to
  abbrev pub figure : Event → Option (ℕ × ℕ)
  unfolding ping_figure
  figure e =
      if not (is_state e) && is_ping e
      then ping_figure source.ping (decode.ping e.payload)
      else none

  abbrev pub before_end : List Event → List Event
  before_end [] = []
  before_end (e ∷ es) = if ends e then [] else e ∷ before_end es

  -- those of the event that ends the connection too
  abbrev pub changes_of : List Event → List C
  changes_of [] = []
  changes_of (e ∷ es) = let later = changes_of es in change_of e ++ (if ends e then [] else later)

  abbrev pub figures : List Event → List (Option (ℕ × ℕ))
  unfolding figure
  figures es = map figure (before_end es)

  -- the acts that take a list of events
  abbrev pub take_all : List Event → Pinged → List (Act C)
  unfolding take_event
  take_all [] p = []
  take_all (e ∷ es) p =
      let (q, acts) = take_event decode source e p in
      elim q [ err ending ↦ acts | ok p' ↦ acts ++ (rearm decode source p' ++ take_all es p') ]

  -- what one event does
  abbrev pub Told : Event → Pinged → Result Ending Pinged × List (Act C) → Type 0
  unfolding figure window_after
  Told e p (err ending, acts) =
      (ends e ≡ true) × (changes acts ≡ change_of e) × (reports acts ≡ []) × (timers acts ≡ [])
  Told e p (ok p', acts) =
      (ends e ≡ false)
      × (changes acts ≡ change_of e)
      × (p'.window ≡ window_after p.window (figure e))
      × ((ps : List (Option (ℕ × ℕ)))
          → new_reports p.clamped (figure e ∷ ps) ≡ reports acts ++ new_reports p'.clamped ps)
      × (timers acts ≡ [])
