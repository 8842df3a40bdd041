-- ===== src/Tests/Syncing.antt =====
-- The push loop and its parts at concrete values.
use beautiful_aerc.Prelude.{
  ℕ, ◌+◌, ◌-◌, ◌*◌, ◌^◌, ◌≤◌, ◌<◌, min, List, [], ◌∷◌, false, nat_eq, string_eq, ◌≡◌, refl, ◌⊎◌,
  none, some, Option, map, if◌then◌else◌, arith,
}
use beautiful_aerc.Uerr.{Err, is, classify_err, plain, failure, auth, connection}
use beautiful_aerc.Backend.{ObjectKind, message, mailbox, event, contact}
use beautiful_aerc.Sync.Kinds.{kind_eq}
use beautiful_aerc.Sync.Backoff.{backoff_delay}
use beautiful_aerc.Sync.Backoff.Bounds.{backoff_delay_bounds}
use beautiful_aerc.Sync.Backoff.Sleep.{sleep_backoff, elapsed, poll_tick}
use beautiful_aerc.Sync.Listen.{notified, coalesced, proving_over, closed, consume_push}
use beautiful_aerc.Sync.Listen.Settled.{
  owing, timer_of, arrivals, flushes, proofs, count, consume_push_lem,
}
use beautiful_aerc.Sync.Push.{surfaceable, PushState, fail, stopped, proved}
use beautiful_aerc.Sync.Flush.{report, Failing, run_flush, syncing, synced}
use beautiful_aerc.Sync.Flush.Failing.{History, Shows, told, fails, recovers}
use beautiful_aerc.Sync.Flush.Told.{outcomes, after_all, all_news, all_sound, run_flush_lem}
use beautiful_aerc.Sync.Echo.{note, consume}
use beautiful_aerc.Sync.Echo.Once.{consume-note}
use beautiful_aerc.Sync.Run.{Turn, refused, opened, run_push}
use beautiful_aerc.Sync.Run.Settled.{marks, run_push-settled}

abbrev below : ℕ → ℕ
below n = n - 1

below_lt : (n : ℕ) → 0 < n → below n < n
below_lt n h = omega (arith, h)

-- a refusal, and then a stream with two notifications in one flush and a third at its close
abbrev turns : List Turn
turns =
    refused (failure connection (plain "dial tcp: timeout")) false (poll_tick ∷ elapsed ∷ [])
    ∷ opened (notified ∷ notified ∷ coalesced ∷ proving_over ∷ notified ∷ closed ∷ []) false
        (elapsed ∷ [])
    ∷ []

abbrev after_turns : PushState
after_turns = record {
  failing = false;
  class = connection;
  attempt = 0;
  unproved = 0;
  just_proved = false;
}

run_push-settled_example : owing false (marks (run_push below 1 60 turns).1) ≡ false
unfolding run_push sleep_backoff backoff_delay fail is consume_push stopped proved classify_err
run_push-settled_example = run_push-settled below 1 60 turns after_turns refl

consume_push_lem_example :
    (owing false (consume_push (notified ∷ closed ∷ [])).1
      ≡ timer_of (consume_push (notified ∷ closed ∷ [])).0)
    × (flushes (consume_push (notified ∷ closed ∷ [])).1
          + count (timer_of (consume_push (notified ∷ closed ∷ [])).0)
        ≤ arrivals (consume_push (notified ∷ closed ∷ [])).1)
    × (proofs (consume_push (notified ∷ closed ∷ [])).1 ≤ 1)
consume_push_lem_example = consume_push_lem (notified ∷ closed ∷ [])

-- the messages sync, and the mailboxes are refused
abbrev half_refused : ObjectKind → List ObjectKind → Option Err × List ObjectKind
half_refused message done = (none, message ∷ done)
half_refused kind done = (some (failure auth (plain "401")), kind ∷ done)

abbrev before : History
before = (message, some (failure connection (plain "closed"))) ∷ []

abbrev failing_before : Failing
failing_before = (message, connection) ∷ []

before-Shows : Shows failing_before before
unfolding surfaceable is classify_err
before-Shows message = refl
before-Shows mailbox = refl
before-Shows event = refl
before-Shows contact = refl

run_flush_lem_example :
    let outcome = run_flush half_refused (mailbox ∷ message ∷ []) (failing_before, []) in
    let results = outcomes half_refused (mailbox ∷ message ∷ []) [] in
    Shows outcome.0 (after_all before results)
    × (map told outcome.2 ≡ all_news before results)
    × (outcome.3
        ≡ (if all_sound (after_all before results) then syncing ∷ synced ∷ [] else syncing ∷ []))
run_flush_lem_example =
    run_flush_lem half_refused (mailbox ∷ message ∷ []) failing_before [] before before-Shows

refused_and_recovered :
    map told (run_flush half_refused (mailbox ∷ message ∷ []) (failing_before, [])).2
    ≡ fails auth ∷ recovers message ∷ []
unfolding run_flush report surfaceable is classify_err
refused_and_recovered = refl

consume-note_example :
    ((consume message "s7" (note message "s7" ("m1" ∷ []) [])).0 ≡ "m1" ∷ [])
    × ((consume message "s7" (consume message "s7" (note message "s7" ("m1" ∷ []) [])).1).0 ≡ [])
    × ((consume mailbox "s7" (consume message "s7" (note message "s7" ("m1" ∷ []) [])).1).0
        ≡ (consume mailbox "s7" []).0)
consume-note_example = consume-note message mailbox "s7" "s7" ("m1" ∷ []) []

backoff_delay_bounds_example :
    let range = min (min 2 60 * 2 ^ 3) 60 in
    ((range ≡ 0) × (backoff_delay below 3 2 60 ≡ 0))
    ⊎ ((backoff_delay below 3 2 60 ≡ below range) × (backoff_delay below 3 2 60 < range))
backoff_delay_bounds_example =
    backoff_delay_bounds below below_lt 3 2 60 (omega arith) (omega arith)
