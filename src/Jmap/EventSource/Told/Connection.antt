-- ===== src/Jmap/EventSource/Told/Connection.antt =====
-- What a whole connection of jmap/eventsource.go calls back and sets.
use mathlib.Core.List.{append-nil}
use beautiful_aerc.Prelude.{
  Result-cases, subst, ℕ, suc, List, [], ◌∷◌, ◌++◌, length, Option, none, some, ok, err, true,
  false, ◌==◌, nat_eq, if◌then◌else◌, ◌≡◌, refl, sym, ap, ◌∙◌, arith, Bool-cases, inl, inr, ◌≤◌,
}
use beautiful_aerc.Uerr.{Err}
use beautiful_aerc.Jmap.Events.{Bytes}
use beautiful_aerc.Jmap.Events.Reader.{Event, EventReader}
use beautiful_aerc.Jmap.EventSource.{
  max_int64, stall_window, Decoder, EventSource, Act, changed, clamped, armed, Pinged, Ending,
  take_event, rearm, consume_from, consume,
}
use beautiful_aerc.Jmap.EventSource.Timer.{Sane, consume-Sane}
use beautiful_aerc.Jmap.EventSource.Told.Single.{acts_lem, Told-take_event}
use beautiful_aerc.Jmap.EventSource.Told.{
  Told, changes, reports, timers, heard, new_reports, windows, changes_of, figures, ends, change_of,
  figure, before_end, take_all, window_after,
}

changes-append :
    {C : Type 0} (as' bs : List (Act C)) → changes (as' ++ bs) ≡ changes as' ++ changes bs
changes-append [] bs = refl
changes-append (changed c ∷ as') bs = ap (λ z. c ∷ z) (changes-append as' bs)
changes-append (clamped f c ∷ as') bs = changes-append as' bs
changes-append (armed w ∷ as') bs = changes-append as' bs

reports-append :
    {C : Type 0} (as' bs : List (Act C)) → reports (as' ++ bs) ≡ reports as' ++ reports bs
reports-append [] bs = refl
reports-append (changed c ∷ as') bs = reports-append as' bs
reports-append (clamped f c ∷ as') bs = ap (λ z. (f, c) ∷ z) (reports-append as' bs)
reports-append (armed w ∷ as') bs = reports-append as' bs

timers-append : {C : Type 0} (as' bs : List (Act C)) → timers (as' ++ bs) ≡ timers as' ++ timers bs
timers-append [] bs = refl
timers-append (changed c ∷ as') bs = timers-append as' bs
timers-append (clamped f c ∷ as') bs = timers-append as' bs
timers-append (armed w ∷ as') bs = ap (λ z. w ∷ z) (timers-append as' bs)

windows_step :
    (w : ℕ) (o : Option (ℕ × ℕ)) (ps : List (Option (ℕ × ℕ)))
    → windows w (o ∷ ps) ≡ window_after w o ∷ windows (window_after w o) ps
unfolding windows window_after
windows_step w none ps = refl
windows_step w (some (f, c)) ps = refl

-- the timer, where one is asked for
abbrev pub set_timers : ℕ → List ℕ → List ℕ
unfolding stall_window
set_timers requested ws = if stall_window requested == 0 then [] else ws

abbrev pub body_events : Bytes → List Bytes → List Event
unfolding heard
body_events last_id lines =
    heard (suc (length lines)) (record { started = false; id_buffer = last_id; last_id = last_id })
      lines

module _ {C : Type 0} (decode : Decoder C) (source : EventSource) where
  abbrev Account : List Event → Pinged → List (Act C) → Type 0
  unfolding figures windows
  Account es p acts =
      (changes acts ≡ changes_of decode source es)
      × (reports acts ≡ new_reports p.clamped (figures decode source es))
      × (timers acts ≡ set_timers source.ping (windows p.window (figures decode source es)))

  rearmed :
      (p : Pinged) (more : List (Act C))
      → (changes (rearm decode source p ++ more) ≡ changes more)
        × (reports (rearm decode source p ++ more) ≡ reports more)
        × (timers (rearm decode source p ++ more)
            ≡ set_timers source.ping (p.window ∷ []) ++ timers more)
  unfolding set_timers
  rearmed p more = elim (Bool-cases (stall_window source.ping == 0)) [
    | inl off ↦ rw off (refl, refl, refl)
    | inr on ↦ rw on (refl, refl, refl)
  ]

  figures_end :
      (e : Event) (es : List Event)
      → ends decode source e ≡ true
      → figures decode source (e ∷ es) ≡ []
  unfolding figures
  figures_end e es h = rw (before_end, h) refl

  figures_step :
      (e : Event) (es : List Event)
      → ends decode source e ≡ false
      → figures decode source (e ∷ es) ≡ figure decode source e ∷ figures decode source es
  unfolding figures
  figures_step e es h = rw (before_end, h) refl

  set_timers_none : set_timers source.ping [] ≡ []
  unfolding set_timers
  set_timers_none = ground arith

  set_timers_cons :
      (w : ℕ) (ws : List ℕ)
      → set_timers source.ping (w ∷ []) ++ set_timers source.ping ws
        ≡ set_timers source.ping (w ∷ ws)
  unfolding set_timers
  set_timers_cons w ws = elim (Bool-cases (stall_window source.ping == 0)) [
    | inl off ↦ rw off refl
    | inr on ↦ rw on refl
  ]

  Account-end :
      (e : Event) (es : List Event) (p : Pinged) (ending : Ending) (acts : List (Act C))
      → Told decode source e p (err ending, acts)
      → Account (e ∷ es) p acts
  unfolding Told Account
  Account-end e es p ending acts (over, told, quiet, still) = (
    told ∙ rw over (sym (append-nil (change_of decode source e))),
    quiet ∙ rw (figures_end e es over) refl,
    still ∙ rw (figures_end e es over) (sym set_timers_none),
  )

  Account-append :
      (e : Event) (es : List Event) (p p' : Pinged) (acts : List (Act C))
      → Told decode source e p (ok p', acts)
      → Account es p' (take_all decode source es p')
      → Account (e ∷ es) p (acts ++ (rearm decode source p' ++ take_all decode source es p'))
  unfolding Told Account
  Account-append e es p p' acts (on, told, moved, news, still) (cs, rs, ts) =
      let later = take_all decode source es p' in
      let (qc, qr, qt) = rearmed p' later in
      (
        changes-append acts (rearm decode source p' ++ later) ∙ rw (on, told, qc, cs) refl,
        reports-append acts (rearm decode source p' ++ later)
            ∙ ap (λ z. reports acts ++ z) (qr ∙ rs)
            ∙ sym (news (figures decode source es))
            ∙ rw (figures_step e es on) refl,
        timers-append acts (rearm decode source p' ++ later)
            ∙ rw (still, qt, ts) refl
            ∙ set_timers_cons p'.window (windows p'.window (figures decode source es))
            ∙ rw
                (
                  figures_step e es on,
                  windows_step p.window (figure decode source e) (figures decode source es),
                  moved,
                )
                refl,
      )

  Account-take_all : (es : List Event) (p : Pinged) → Account es p (take_all decode source es p)
  unfolding Account take_all
  Account-take_all [] p = (refl, refl, sym set_timers_none)
  Account-take_all (e ∷ es) p =
      let told = Told-take_event decode source e p in
      let acts = (take_event decode source e p).1 in
      elim (Result-cases (take_event decode source e p).0) [
        | inr (ending, t) ↦
            rw (take_all, t)
              (Account-end e es p ending acts
                (subst (λ q. Told decode source e p (q, acts)) t told))
        | inl (p', t) ↦
            rw (take_all, t)
              (Account-append e es p p' acts (subst (λ q. Told decode source e p (q, acts)) t told)
                (Account-take_all es p'))
      ]

  -- Over any connection, whatever its events hold, where the cadence asked for fits 63 bits: every
  -- decoded state change is passed on, in order, up to the event that ends the connection and with it;
  -- a usable ping whose figure is above the cadence held to is reported exactly where its figure is
  -- not the one reported last, on this connection or an earlier one; and the stall timer, where one
  -- was asked for, is set at the start and again after every event that does not end the connection,
  -- to the window of the last usable ping, which is above zero and at most twice the cadence asked
  -- for or 30 seconds, however large a figure a ping reports and without wrapping.
  pub consume_lem :
      (broken : Option Err) (last_id : Bytes) (reported : ℕ) (lines : List Bytes)
      → source.ping ≤ max_int64
      → let acts = (consume decode source broken last_id reported lines).3 in
        let es = body_events last_id lines in
        let window = stall_window source.ping in
        (changes acts ≡ changes_of decode source es)
        × (reports acts ≡ new_reports reported (figures decode source es))
        × (timers acts
            ≡ set_timers source.ping (window ∷ windows window (figures decode source es)))
        × Sane source.ping reported acts
  unfolding consume
  consume_lem broken last_id reported lines h =
      let es = body_events last_id lines in
      let window = stall_window source.ping in
      let p : Pinged = record { window = window; clamped = reported } in
      let r : EventReader = record { started = false; id_buffer = last_id; last_id = last_id } in
      let more = (consume_from decode source (suc (length lines)) broken p r lines).3 in
      let same : more ≡ take_all decode source es p =
        acts_lem decode source (suc (length lines)) broken p r lines in
      let (cs, rs, ts) : Account es p more =
        subst (λ z. Account es p z) (sym same) (Account-take_all es p) in
      let (qc, qr, qt) = rearmed p more in
      (
        qc ∙ cs,
        qr ∙ rs,
        qt ∙ rw ts refl ∙ set_timers_cons window (windows window (figures decode source es)),
        consume-Sane decode source h broken last_id reported lines,
      )
