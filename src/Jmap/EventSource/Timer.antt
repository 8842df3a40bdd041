-- ===== src/Jmap/EventSource/Timer.antt =====
-- The stall timer and the reports of clamped pings of jmap/eventsource.go.
use beautiful_aerc.Prelude.{
  ℕ, zero, suc, ◌≤◌, ◌<◌, List, [], ◌∷◌, ◌++◌, length, Option, none, some, Result, ok, err, false,
  not, ◌&&◌, ltb, ◌==◌, nat_eq, if◌then◌else◌, ◌≡◌, refl, sym, arith, Bool-cases, Result-cases,
  subst, ◌⊎◌, inl, inr,
}
use beautiful_aerc.Uerr.{Err}
use beautiful_aerc.Jmap.Events.{Bytes}
use beautiful_aerc.Jmap.Events.Reader.{
  Event, EventReader, Next, dispatched, event_too_long, ended, same_bytes, next,
}
use beautiful_aerc.Jmap.EventSource.{
  second, max_int64, times, cadence, stall_window, state_event, ping_event, Decoder, EventSource,
  Act, changed, clamped, armed, Pinged, Ending, take_ping, take_event, rearm, consume_from, consume,
}
use beautiful_aerc.Jmap.EventSource.Window.{slowest, limit, Usable, Usable-cadence, stall_window-le}

pub Next-cases :
    (n : Next) → (n ≡ ended) ⊎ (n ≡ event_too_long) ⊎ ((e : Event) × (n ≡ dispatched e))
Next-cases ended = inl refl
Next-cases event_too_long = inr (inl refl)
Next-cases (dispatched e) = inr (inr (e, refl))

module _ {C : Type 0} where
  -- each timer is set above zero and within the limit; each report is of a figure other than the one
  -- reported before it, and above the cadence that is held to
  pub Sane : ℕ → ℕ → List (Act C) → Type 0
  Sane ping last [] = Unit
  Sane ping last (changed c ∷ as') = Sane ping last as'
  Sane ping last (armed w ∷ as') = (0 < w) × (w ≤ limit ping) × Sane ping last as'
  Sane ping last (clamped reported c ∷ as') =
      ((reported == last) ≡ false) × (c < reported) × (c ≤ slowest ping) × Sane ping reported as'

module _ {C : Type 0} (decode : Decoder C) (source : EventSource)
    (h : source.ping ≤ max_int64) where
  -- where there is a timer at all, the window is one that it can be set to
  abbrev Good : Pinged → Type 0
  Good p = (stall_window source.ping == 0) ≡ false → (0 < p.window) × (p.window ≤ limit source.ping)

  -- what is sane after these acts is sane with them
  abbrev Extends : Pinged → List (Act C) → Pinged → Type 0
  Extends p acts p' =
      (more : List (Act C))
      → Sane source.ping p'.clamped more
      → Sane source.ping p.clamped (acts ++ more)

  taken_ping :
      (interval : ℕ) (p : Pinged)
      → Good p
      → (let (p', acts) = take_ping decode source interval p in Extends p acts p' × Good p')
  unfolding take_ping Sane
  taken_ping interval p g =
      pinged (cadence interval source.ping) (Usable-cadence interval source.ping)
    where
      pinged :
          (o : Option ℕ)
          → Usable source.ping o
          → (let t : Pinged × List (Act C) = elim o [
            | none ↦ (p, [])
            | some c ↦
                let reported = times interval second in
                if ltb c reported && not (reported == p.clamped)
                then (
                  record { window = stall_window c; clamped = reported },
                  clamped reported c ∷ [],
                )
                else (record p { window = stall_window c }, [])
          ] in
              Extends p t.1 t.0 × Good t.0)
      pinged none u = (λ more s. s, g)
      pinged (some c) (pos, low, fits) =
          let reported = times interval second in
          let (up, down) = stall_window-le c source.ping pos low fits in
          elim (Bool-cases (ltb c reported && not (reported == p.clamped))) [
            | inl news ↦
                rw news
                  (λ more s. (ground (arith, news), ground (arith, news), low, s), λ on. (up, down))
            | inr same ↦ rw same (λ more s. s, λ on. (up, down))
          ]

  abbrev Taken : Pinged → Result Ending Pinged × List (Act C) → Type 0
  Taken p (ok p', acts) = Extends p acts p' × Good p'
  Taken p (err ending, acts) = Sane source.ping p.clamped acts

  Taken-take_event : (e : Event) (p : Pinged) → Good p → Taken p (take_event decode source e p)
  unfolding take_event Sane
  Taken-take_event e p g = elim (Bool-cases (same_bytes e.name state_event)) [
    | inl is_state ↦ elim (Result-cases (decode.state e.payload)) [
      | inl (c, d) ↦ elim (Bool-cases source.close_after_state) [
        | inl once ↦ rw (take_event, is_state, d, once) tt
        | inr on ↦ rw (take_event, is_state, d, on) (λ more s. s, g)
      ]
      | inr (x, d) ↦ rw (take_event, is_state, d) tt
    ]
    | inr not_state ↦ elim (Bool-cases (same_bytes e.name ping_event)) [
      | inl is_ping ↦ elim (Result-cases (decode.ping e.payload)) [
        | inl (interval, d) ↦ rw (take_event, not_state, is_ping, d) (taken_ping interval p g)
        | inr (x, d) ↦ rw (take_event, not_state, is_ping, d) tt
      ]
      | inr other ↦ rw (take_event, not_state, other) (λ more s. s, g)
    ]
  ]

  rearmed :
      (p : Pinged) (more : List (Act C))
      → Good p
      → Sane source.ping p.clamped more
      → Sane source.ping p.clamped (rearm decode source p ++ more)
  unfolding Sane
  rearmed p more g s = elim (Bool-cases (stall_window source.ping == 0)) [
    | inl off ↦ rw off s
    | inr on ↦ rw on ((g on).0, (g on).1, s)
  ]

  -- an event's acts, the timer, and the rest
  Sane-rearm :
      (t : Result Ending Pinged × List (Act C)) (p p' : Pinged) (more : List (Act C))
      → t.0 ≡ ok p'
      → Taken p t
      → (Good p' → Sane source.ping p'.clamped more)
      → Sane source.ping p.clamped (t.1 ++ (rearm decode source p' ++ more))
  Sane-rearm (ok q, acts) p p' more e (ext, g) k =
      let same : q ≡ p' = cc in
      subst
        (λ z.
          Extends p acts z × Good z
          → Sane source.ping p.clamped (acts ++ (rearm decode source p' ++ more)))
        (sym same) (λ (ext', g'). ext' (rearm decode source p' ++ more) (rearmed p' more g' (k g')))
        (ext, g)
  Sane-rearm (err ending, acts) p p' more e s k = cc

  -- an event that ends the connection
  Sane-take_event :
      (t : Result Ending Pinged × List (Act C)) (p : Pinged) (ending : Ending)
      → t.0 ≡ err ending
      → Taken p t
      → Sane source.ping p.clamped t.1
  Sane-take_event (ok q, acts) p ending e (ext, g) = cc
  Sane-take_event (err x, acts) p ending e s = s

  asked : (stall_window source.ping == 0) ≡ false → 0 < source.ping
  unfolding stall_window
  asked on = ground (arith, on)

  Sane-consume_from :
      (fuel : ℕ) (broken : Option Err) (p : Pinged) (r : EventReader) (lines : List Bytes)
      → Good p
      → Sane source.ping p.clamped (consume_from decode source fuel broken p r lines).3
  unfolding consume_from Sane
  Sane-consume_from zero broken p r lines g = tt
  Sane-consume_from (suc fuel) broken p r lines g = elim (Next-cases (next r lines).0) [
    | inl e ↦ rw (consume_from, e) tt
    | inr (inl e) ↦ rw (consume_from, e) tt
    | inr (inr (ev, e)) ↦ elim (Result-cases (take_event decode source ev p).0) [
      | inl (p', t) ↦
          rw (consume_from, e, t)
            (Sane-rearm (take_event decode source ev p) p p' _ t (Taken-take_event ev p g)
              (λ g'. Sane-consume_from fuel broken p' (next r lines).1 (next r lines).2 g'))
      | inr (ending, t) ↦
          rw (consume_from, e, t)
            (Sane-take_event (take_event decode source ev p) p ending t (Taken-take_event ev p g))
    ]
  ]

  -- Over any connection, whatever its events hold: the stall timer, where one was asked for, is only
  -- ever set to a window above zero and at most twice the cadence that was asked for or 30 seconds,
  -- however large a figure a ping reports and without wrapping; and a figure that is reported is above
  -- the cadence held to and is not the one reported last, on this connection or an earlier one.
  pub consume-Sane :
      (broken : Option Err) (last_id : Bytes) (reported : ℕ) (lines : List Bytes)
      → Sane source.ping reported (consume decode source broken last_id reported lines).3
  unfolding consume
  consume-Sane broken last_id reported lines =
      let p : Pinged = record { window = stall_window source.ping; clamped = reported } in
      let g : Good p = λ on. stall_window-le source.ping source.ping (asked on) (omega arith) h in
      rearmed p _ g (Sane-consume_from (suc (length lines)) broken p _ lines g)
