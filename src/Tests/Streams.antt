-- ===== src/Tests/Streams.antt =====
-- An event stream at concrete bytes: two reads that part a CRLF, an event, and a server that reports a
-- ping interval of 30,000 seconds.
use beautiful_aerc.Prelude.{◌*◌, List, [], ◌∷◌, none, ok, true, false, ◌≡◌, refl, arith}
use beautiful_aerc.Jmap.Events.{Bytes, scan, scan_reads}
use beautiful_aerc.Jmap.Events.Reads.{joined, scan_reads_lem}
use beautiful_aerc.Jmap.Events.Reader.{EventReader, dispatched, no_fields, read_next, next}
use beautiful_aerc.Jmap.Events.Reader.RoundTrip.{event_lines, field_line, next-event_lines}
use beautiful_aerc.Jmap.Events.Reader.Resume.{is_event, last_id-read_next}
use beautiful_aerc.Jmap.EventSource.{
  Decoder, EventSource, clamped, armed, state_event, ping_event, consume, second, stall_window,
}
use beautiful_aerc.Jmap.EventSource.Timer.{Sane}
use beautiful_aerc.Jmap.EventSource.Told.{
  changes, reports, timers, new_reports, windows, changes_of, figures,
}
use beautiful_aerc.Jmap.EventSource.Told.Connection.{body_events, set_timers, consume_lem}

-- "a", CR and LF in two reads, "b", CR
abbrev reads : List Bytes
reads = (97 ∷ 13 ∷ []) ∷ (10 ∷ 98 ∷ 13 ∷ []) ∷ []

scan_reads_lem_example : scan_reads reads [] ≡ (scan (joined reads) true).0
scan_reads_lem_example = scan_reads_lem reads []

two_lines : scan_reads reads [] ≡ (97 ∷ []) ∷ (98 ∷ []) ∷ []
unfolding scan_reads
two_lines = refl

abbrev fresh : EventReader
fresh = record { started = false; id_buffer = []; last_id = [] }

-- id 7, a state event with "{" and "}" on two lines
next-event_lines_example :
    next fresh (event_lines (55 ∷ []) state_event ((123 ∷ []) ∷ (125 ∷ []) ∷ []) []) ≡ (
      dispatched (record { name = state_event; payload = 123 ∷ 10 ∷ 125 ∷ [] }),
      record { started = true; id_buffer = 55 ∷ []; last_id = 55 ∷ [] },
      [],
    )
next-event_lines_example =
    next-event_lines (55 ∷ []) state_event (123 ∷ []) ((125 ∷ []) ∷ []) [] fresh refl refl
      (omega arith)

-- an id whose event never ends
abbrev abandoned : List Bytes
abandoned = field_line (105 ∷ 100 ∷ []) (57 ∷ []) ∷ field_line (100 ∷ 97 ∷ 116 ∷ 97 ∷ []) [] ∷ []

last_id-read_next_example :
    ((read_next no_fields fresh abandoned).1.last_id ≡ [])
    × (is_event (read_next no_fields fresh abandoned).0 ≡ false)
last_id-read_next_example = last_id-read_next abandoned no_fields fresh refl

abbrev decoder : Decoder Bytes
decoder = record { state = λ b. ok b; ping = λ b. ok 30000 }

abbrev source : EventSource
source = record { ping = 60 * second; close_after_state = false }

abbrev pings : List Bytes
pings =
    event_lines (49 ∷ []) ping_event ((123 ∷ []) ∷ [])
      (event_lines (50 ∷ []) ping_event ((123 ∷ []) ∷ []) [])

consume_lem_example :
    let acts = (consume decoder source none [] 0 pings).3 in
    let es = body_events [] pings in
    let window = stall_window source.ping in
    (changes acts ≡ changes_of decoder source es)
    × (reports acts ≡ new_reports 0 (figures decoder source es))
    × (timers acts ≡ set_timers source.ping (window ∷ windows window (figures decoder source es)))
    × Sane source.ping 0 acts
consume_lem_example = consume_lem decoder source none [] 0 pings (omega arith)

-- the report comes once, and the window stays at two minutes
held :
    (consume decoder source none [] 0 pings).3
    ≡ armed (120 * second)
      ∷ clamped (30000 * second) (60 * second)
      ∷ armed (120 * second)
      ∷ armed (120 * second)
      ∷ []
unfolding consume
held = refl
