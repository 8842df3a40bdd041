-- ===== src/Jmap/EventSource/Told/Single.antt =====
-- What one event of a connection of jmap/eventsource.go calls back and sets.
use beautiful_aerc.Prelude.{
  ℕ, zero, suc, List, [], ◌∷◌, ◌++◌, Option, not, ◌&&◌, ltb, ◌==◌, nat_eq, ◌≡◌, refl, Bool-cases,
  Result-cases, Option-cases, inl, inr,
}
use beautiful_aerc.Uerr.{Err}
use beautiful_aerc.Jmap.Events.{Bytes}
use beautiful_aerc.Jmap.Events.Reader.{Event, EventReader, next}
use beautiful_aerc.Jmap.EventSource.{
  second, times, cadence, Decoder, EventSource, Act, Pinged, take_ping, take_event, consume_from,
}
use beautiful_aerc.Jmap.EventSource.Timer.{Next-cases}
use beautiful_aerc.Jmap.EventSource.Told.{
  changes, reports, timers, heard, new_reports, with_figure, ping_figure, window_after, Told,
  is_state, is_ping, ends, change_of, figure, take_all,
}

module _ {C : Type 0} (decode : Decoder C) (source : EventSource) where
  pub acts_lem :
      (fuel : ℕ) (broken : Option Err) (p : Pinged) (r : EventReader) (lines : List Bytes)
      → (consume_from decode source fuel broken p r lines).3
        ≡ take_all decode source (heard fuel r lines) p
  unfolding consume_from heard take_all
  acts_lem zero broken p r lines = refl
  acts_lem (suc fuel) broken p r lines = elim (Next-cases (next r lines).0) [
    | inl e ↦ rw (consume_from, heard, e) refl
    | inr (inl e) ↦ rw (consume_from, heard, e) refl
    | inr (inr (ev, e)) ↦ elim (Result-cases (take_event decode source ev p).0) [
      | inr (ending, t) ↦ rw (consume_from, heard, e, take_all, t) refl
      | inl (p', t) ↦
          let later = acts_lem fuel broken p' (next r lines).1 (next r lines).2 in
          rw (consume_from, heard, e, take_all, t, later) refl
    ]
  ]

  abbrev Pings : Event → Pinged → Option (ℕ × ℕ) → Pinged × List (Act C) → Type 0
  unfolding window_after
  Pings e p o (p', acts) =
      (changes acts ≡ [])
      × (p'.window ≡ window_after p.window o)
      × ((ps : List (Option (ℕ × ℕ)))
          → new_reports p.clamped (o ∷ ps) ≡ reports acts ++ new_reports p'.clamped ps)
      × (timers acts ≡ [])

  take_ping-Pings :
      (e : Event) (interval : ℕ) (p : Pinged)
      → Pings e p
          (with_figure interval (cadence interval source.ping))
          (take_ping decode source interval p)
  unfolding take_ping Pings window_after
  take_ping-Pings e interval p = elim (Option-cases (cadence interval source.ping)) [
    | inl useless ↦ rw (take_ping, useless) (refl, refl, (λ ps. refl), refl)
    | inr (c, useful) ↦
        let reported = times interval second in
        elim (Bool-cases (ltb c reported && not (reported == p.clamped))) [
          | inl news ↦ rw (take_ping, useful, news) (refl, refl, (λ ps. refl), refl)
          | inr same ↦ rw (take_ping, useful, same) (refl, refl, (λ ps. refl), refl)
        ]
  ]

  pub Told-take_event :
      (e : Event) (p : Pinged) → Told decode source e p (take_event decode source e p)
  unfolding take_event Told figure window_after ping_figure
  Told-take_event e p = elim (Bool-cases (is_state decode source e)) [
    | inl state ↦ elim (Result-cases (decode.state e.payload)) [
      | inl (c, d) ↦ elim (Bool-cases source.close_after_state) [
        | inl once ↦
            rw (take_event, state, d, once)
              (rw (ends, state, d) refl, rw (change_of, state, d) refl, refl, refl)
        | inr on ↦
            rw (take_event, state, d, on)
              (
                rw (ends, state, d) refl,
                rw (change_of, state, d) refl,
                rw (figure, state) refl,
                (λ ps. rw (figure, state) refl),
                refl,
              )
      ]
      | inr (x, d) ↦
          rw (take_event, state, d)
            (rw (ends, state, d) refl, rw (change_of, state, d) refl, refl, refl)
    ]
    | inr not_state ↦ elim (Bool-cases (is_ping decode source e)) [
      | inl ping ↦ elim (Result-cases (decode.ping e.payload)) [
        | inl (interval, d) ↦
            let (quiet, moved, told, still) = take_ping-Pings e interval p in
            rw (take_event, not_state, ping, d)
              (
                rw (ends, not_state, ping, d) refl,
                rw (change_of, not_state) quiet,
                rw (figure, not_state, ping, d) moved,
                (λ ps. rw (figure, not_state, ping, d) (told ps)),
                still,
              )
        | inr (x, d) ↦
            rw (take_event, not_state, ping, d)
              (rw (ends, not_state, ping, d) refl, rw (change_of, not_state) refl, refl, refl)
      ]
      | inr other ↦
          rw (take_event, not_state, other)
            (
              rw (ends, not_state, other) refl,
              rw (change_of, not_state) refl,
              rw (figure, not_state, other) refl,
              (λ ps. rw (figure, not_state, other) refl),
              refl,
            )
    ]
  ]
