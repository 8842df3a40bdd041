-- ===== src/Sync/Run/Settled.antt =====
-- The notifications of RunPush in internal/sync/push.go between two streams.
use beautiful_aerc.Prelude.{
  ℕ, zero, suc, List, [], ◌∷◌, ◌++◌, map, Option, none, some, Bool, true, false, ◌≡◌, refl, ap, ◌∙◌,
  arith,
}
use beautiful_aerc.Uerr.{LogLine}
use beautiful_aerc.Sync.Listen.{
  Mark, arrival, flush, proved as proof, Ended, waiting, stream_closed, context_done, consume_push,
}
use beautiful_aerc.Sync.Listen.Settled.{owing, timer_of, consume_push_lem}
use beautiful_aerc.Sync.Backoff.{backoff_delay}
use beautiful_aerc.Sync.Backoff.Sleep.{Wake, sleep_backoff}
use beautiful_aerc.Sync.Push.{PushState, fresh, fail, stopped, proved}
use beautiful_aerc.Sync.Run.{
  Turn, refused, opened, Act, mark, shown, logged, show_wait, polled, take_marks, resume, pause,
  after_stream, turn, run_turns, run_push,
}

abbrev pub marks : List Act → List Mark
marks [] = []
marks (mark m ∷ as') = m ∷ marks as'
marks (shown h ∷ as') = marks as'
marks (logged l ∷ as') = marks as'

marks-append : (as' bs : List Act) → marks (as' ++ bs) ≡ marks as' ++ marks bs
marks-append [] bs = refl
marks-append (mark m ∷ as') bs = ap (λ t. m ∷ t) (marks-append as' bs)
marks-append (shown h ∷ as') bs = marks-append as' bs
marks-append (logged l ∷ as') bs = marks-append as' bs

owing-append : (b : Bool) (ms ns : List Mark) → owing b (ms ++ ns) ≡ owing (owing b ms) ns
owing-append b [] ns = refl
owing-append b (arrival ∷ ms) ns = owing-append true ms ns
owing-append b (flush ∷ ms) ns = owing-append false ms ns
owing-append b (proof ∷ ms) ns = owing-append b ms ns

marks-logged : (ls : List LogLine) → marks (map logged ls) ≡ []
marks-logged [] = refl
marks-logged (l ∷ ls) = marks-logged ls

marks-take_marks : (ms : List Mark) (s : PushState) → marks (take_marks ms s).1 ≡ ms
unfolding take_marks
marks-take_marks [] s = refl
marks-take_marks (proof ∷ ms) s = ap (λ t. proof ∷ t) (marks-take_marks ms (proved s))
marks-take_marks (arrival ∷ ms) s = ap (λ t. arrival ∷ t) (marks-take_marks ms s)
marks-take_marks (flush ∷ ms) s = ap (λ t. flush ∷ t) (marks-take_marks ms s)

owing-polled : (n : ℕ) → owing false (marks (polled n)) ≡ false
owing-polled zero = refl
owing-polled (suc n) = owing-polled n

owing-show_wait : (d n : ℕ) → owing false (marks (show_wait d ++ polled n)) ≡ false
owing-show_wait zero n = owing-polled n
owing-show_wait (suc d) n = owing-polled n

-- nothing is owing after acts that started with nothing owing
Clear : List Act → Type 0
Clear acts = owing false (marks acts) ≡ false

Clear-append : (as' bs : List Act) → Clear as' → Clear bs → Clear (as' ++ bs)
unfolding Clear
Clear-append as' bs p q =
    ap (owing false) (marks-append as' bs)
    ∙ owing-append false (marks as') (marks bs)
    ∙ ap (λ b. owing b (marks bs)) p
    ∙ q

Clear-logged : (ls : List LogLine) → Clear (map logged ls)
unfolding Clear
Clear-logged ls = ap (owing false) (marks-logged ls)

resume-Clear :
    (r : Option PushState × List Act) (rest : PushState → Option PushState × List Act)
    (s' : PushState)
    → ((u : PushState) → r.0 ≡ some u → Clear r.1)
    → ((u : PushState) → (rest u).0 ≡ some s' → Clear (rest u).1)
    → (resume r rest).0 ≡ some s'
    → Clear (resume r rest).1
resume-Clear (none, acts) rest s' f g h = ground arith
resume-Clear (some u, acts) rest s' f g h = Clear-append acts (rest u).1 (f u refl) (g u h)

module _ (draw : ℕ → ℕ) (min_delay max_delay : ℕ) where
  pause-Clear :
      (s : PushState) (is_done : Bool) (ws : List Wake)
      → Clear (pause draw min_delay max_delay s is_done ws).1
  unfolding pause Clear
  pause-Clear s is_done ws =
      let d = backoff_delay draw s.attempt min_delay max_delay in
      owing-show_wait d (sleep_backoff d is_done ws).1

  after_stream-Clear :
      (e : Ended) (s : PushState) (is_done : Bool) (ws : List Wake)
      → Clear (after_stream draw min_delay max_delay e s is_done ws).1
  unfolding after_stream
  after_stream-Clear stream_closed s is_done ws =
      Clear-append (map logged (stopped s).1) _ (Clear-logged (stopped s).1)
        (pause-Clear (stopped s).0 is_done ws)
  after_stream-Clear (waiting b) s is_done ws = unfold Clear in refl
  after_stream-Clear (context_done b) s is_done ws = unfold Clear in refl

  -- a stream that another call follows has been closed
  stream-Clear :
      (e : Ended) (ms : List Mark) (s s' : PushState) (is_done : Bool) (ws : List Wake)
      → owing false ms ≡ timer_of e
      → (after_stream draw min_delay max_delay e s is_done ws).0 ≡ some s'
      → owing false ms ≡ false
  unfolding after_stream
  stream-Clear stream_closed ms s s' is_done ws h k = h
  stream-Clear (waiting b) ms s s' is_done ws h k = ground arith
  stream-Clear (context_done b) ms s s' is_done ws h k = ground arith

  turn-Clear :
      (t : Turn) (s s' : PushState)
      → (turn draw min_delay max_delay t s).0 ≡ some s'
      → Clear (turn draw min_delay max_delay t s).1
  unfolding turn
  turn-Clear (refused e is_done ws) s s' h =
      Clear-append (map logged (fail e s).1) _ (Clear-logged (fail e s).1)
        (pause-Clear (fail e s).0 is_done ws)
  turn-Clear (opened es is_done ws) s s' h =
      let (ended, ms) = consume_push es in
      let (t, acts) = take_marks ms s in
      let settled = stream-Clear ended ms t s' is_done ws (consume_push_lem es).0 h in
      let own : Clear acts = unfold Clear in ap (owing false) (marks-take_marks ms s) ∙ settled in
      Clear-append acts _ own (after_stream-Clear ended t is_done ws)

  run_turns-Clear :
      (ts : List Turn) (s s' : PushState)
      → (run_turns draw min_delay max_delay ts s).0 ≡ some s'
      → Clear (run_turns draw min_delay max_delay ts s).1
  unfolding run_turns
  run_turns-Clear [] s s' h = unfold Clear in refl
  run_turns-Clear (t ∷ ts) s s' h =
      resume-Clear (turn draw min_delay max_delay t s) (run_turns draw min_delay max_delay ts) s'
        (λ u. turn-Clear t s u) (λ u. run_turns-Clear ts u s') h

  -- Wherever RunPush stands before a call of Listen, no notification of an earlier stream is left
  -- without a flush after it, whatever the streams, the refusals and the waits were.
  pub run_push-settled :
      (ts : List Turn) (s : PushState)
      → (run_push draw min_delay max_delay ts).0 ≡ some s
      → owing false (marks (run_push draw min_delay max_delay ts).1) ≡ false
  unfolding run_push Clear
  run_push-settled ts s h = run_turns-Clear ts fresh s h
