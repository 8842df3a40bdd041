-- ===== src/Jmap/EventSource/Fuel.antt =====
-- The loop of `consume` in jmap/eventsource.go comes to the end of what the body holds.
use beautiful_aerc.Prelude.{
  ℕ, zero, suc, ◌+◌, ◌<◌, List, [], ◌∷◌, ◌++◌, length, Option, true, false, ◌&&◌, ltb, ◌≡◌, refl,
  ap, arith, Bool-cases, Result-cases, inl, inr,
}
use beautiful_aerc.Uerr.{Err}
use beautiful_aerc.Jmap.Events.{Bytes}
use beautiful_aerc.Jmap.Events.Reader.{
  max_event_bytes, EventReader, Fields, no_fields, is_empty, is_data, commit, line_of, take_field,
  read_next, next,
}
use beautiful_aerc.Jmap.Events.Reader.Resume.{is_event}
use beautiful_aerc.Jmap.EventSource.{Decoder, EventSource, Pinged, take_event, rearm, consume_from}
use beautiful_aerc.Jmap.EventSource.Timer.{Next-cases}

-- an event takes a line at least
rest-lt :
    (lines : List Bytes) (f : Fields) (r : EventReader)
    → is_event (read_next f r lines).0 ≡ true
    → length (read_next f r lines).2 < length lines
unfolding read_next
rest-lt [] f r h = cc
rest-lt (raw ∷ lines) f r h =
    let line = line_of r raw in
    let begun : EventReader = record r { started = true } in
    let t = take_field line f begun in
    elim (Bool-cases (is_empty line)) [
      | inl blank ↦ elim (Bool-cases (is_empty f.payload)) [
        | inl none' ↦
            rw (read_next, blank, none')
              (omega
                (arith, rest-lt lines no_fields (commit begun) (rw (read_next, blank, none') at h)))
        | inr some' ↦ rw (read_next, blank, some') (omega arith)
      ]
      | inr full ↦ elim (Bool-cases (is_data line && ltb max_event_bytes (length t.0.payload))) [
        | inl over ↦ let no' : false ≡ true = rw (read_next, full, over) at h in cc
        | inr fits ↦
            rw (read_next, full, fits)
              (omega (arith, rest-lt lines t.0 t.1 (rw (read_next, full, fits) at h)))
      ]
    ]

module _ {C : Type 0} (decode : Decoder C) (source : EventSource) where
  fuel_free :
      (f g : ℕ) (broken : Option Err) (p : Pinged) (r : EventReader) (lines : List Bytes)
      → length lines < f
      → length lines < g
      → consume_from decode source f broken p r lines
        ≡ consume_from decode source g broken p r lines
  unfolding consume_from next
  fuel_free zero g broken p r lines h k = ground arith
  fuel_free (suc f) zero broken p r lines h k = ground arith
  fuel_free (suc f) (suc g) broken p r lines h k = elim (Next-cases (next r lines).0) [
    | inl e ↦ rw (consume_from, e) refl
    | inr (inl e) ↦ rw (consume_from, e) refl
    | inr (inr (ev, e)) ↦ elim (Result-cases (take_event decode source ev p).0) [
      | inr (ending, t) ↦ rw (consume_from, e, t) refl
      | inl (p', t) ↦
          let less = rest-lt lines no_fields r (ap is_event e) in
          let same =
            fuel_free f g broken p' (next r lines).1 (next r lines).2 (omega (arith, less, h))
              (omega (arith, less, k)) in
          rw (consume_from, e, t)
            (ap
              (λ z. (
                z.0,
                z.1,
                z.2,
                (take_event decode source ev p).1 ++ (rearm decode source p' ++ z.3),
              ))
              same)
    ]
  ]

  -- The loop of consume comes to an end within one turn more than the body has lines: with any further
  -- number of turns it returns the same, calls back the same and leaves the listener the same.
  consume_from-fuel :
      (more : ℕ) (broken : Option Err) (p : Pinged) (r : EventReader) (lines : List Bytes)
      → consume_from decode source (suc (length lines) + more) broken p r lines
        ≡ consume_from decode source (suc (length lines)) broken p r lines
  consume_from-fuel more broken p r lines =
      fuel_free (suc (length lines) + more) (suc (length lines)) broken p r lines (omega arith)
        (omega arith)
