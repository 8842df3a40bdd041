-- ===== src/Sync/Listen/Settled.antt =====
-- Which notifications consumePush of internal/sync/push.go has flushed.
use beautiful_aerc.Prelude.{ℕ, suc, ◌+◌, ◌≤◌, List, [], ◌∷◌, Bool, true, false, ◌≡◌, refl, arith}
use beautiful_aerc.Sync.Listen.{
  Event, notified, closed, coalesced, proving_over, cancelled, Mark, arrival, flush, proved, Ended,
  waiting, stream_closed, context_done, consume, consume_push,
}

-- whether a notification came after the last flush
abbrev pub owing : Bool → List Mark → Bool
owing b [] = b
owing b (arrival ∷ ms) = owing true ms
owing b (flush ∷ ms) = owing false ms
owing b (proved ∷ ms) = owing b ms

abbrev pub timer_of : Ended → Bool
timer_of (waiting b) = b
timer_of stream_closed = false
timer_of (context_done b) = b

abbrev pub arrivals : List Mark → ℕ
arrivals [] = 0
arrivals (arrival ∷ ms) = suc (arrivals ms)
arrivals (flush ∷ ms) = arrivals ms
arrivals (proved ∷ ms) = arrivals ms

abbrev pub flushes : List Mark → ℕ
flushes [] = 0
flushes (flush ∷ ms) = suc (flushes ms)
flushes (arrival ∷ ms) = flushes ms
flushes (proved ∷ ms) = flushes ms

abbrev pub proofs : List Mark → ℕ
proofs [] = 0
proofs (proved ∷ ms) = suc (proofs ms)
proofs (arrival ∷ ms) = proofs ms
proofs (flush ∷ ms) = proofs ms

abbrev pub count : Bool → ℕ
count true = 1
count false = 0

owing-consume :
    (timer proving : Bool) (es : List Event)
    → owing timer (consume timer proving es).1 ≡ timer_of (consume timer proving es).0
unfolding consume
owing-consume timer proving [] = refl
owing-consume timer proving (notified ∷ es) = owing-consume true proving es
owing-consume true proving (closed ∷ es) = refl
owing-consume false proving (closed ∷ es) = refl
owing-consume true proving (coalesced ∷ es) = owing-consume false proving es
owing-consume false proving (coalesced ∷ es) = owing-consume false proving es
owing-consume timer true (proving_over ∷ es) = owing-consume timer false es
owing-consume timer false (proving_over ∷ es) = owing-consume timer false es
owing-consume timer proving (cancelled ∷ es) = refl

few-consume :
    (timer proving : Bool) (es : List Event)
    → (flushes (consume timer proving es).1 + count (timer_of (consume timer proving es).0)
        ≤ arrivals (consume timer proving es).1 + count timer)
      × (proofs (consume timer proving es).1 ≤ count proving)
unfolding consume
few-consume timer proving [] = omega arith
few-consume timer proving (notified ∷ es) = ground (arith, few-consume true proving es)
few-consume true proving (closed ∷ es) = omega arith
few-consume false proving (closed ∷ es) = omega arith
few-consume true proving (coalesced ∷ es) = ground (arith, few-consume false proving es)
few-consume false proving (coalesced ∷ es) = few-consume false proving es
few-consume timer true (proving_over ∷ es) = ground (arith, few-consume timer false es)
few-consume timer false (proving_over ∷ es) = few-consume timer false es
few-consume timer proving (cancelled ∷ es) = omega arith

-- Whatever a stream does, a notification is still to be flushed exactly when the coalescing timer
-- runs, so none is when the stream closes; the flushes, with the one that the timer stands for, are
-- no more than the notifications; and the stream is declared healthy at most once.
pub consume_push_lem :
    (es : List Event)
    → (owing false (consume_push es).1 ≡ timer_of (consume_push es).0)
      × (flushes (consume_push es).1 + count (timer_of (consume_push es).0)
          ≤ arrivals (consume_push es).1)
      × (proofs (consume_push es).1 ≤ 1)
unfolding consume_push
consume_push_lem es =
    let (few, once) = few-consume false true es in
    (owing-consume false true es, omega (arith, few), once)
