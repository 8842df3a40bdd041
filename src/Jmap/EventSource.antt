-- ===== src/Jmap/EventSource.antt =====
-- jmap/eventsource.go: one open connection of Listen, the liveness window that its pings set, and the
-- schedule of reconnects. A Duration is its nanoseconds, an int64; one below zero, and an interval
-- below zero, is 0 here, which the code treats alike. JSON is a parameter.
pub mod Window
pub mod Timer
pub mod Fuel
pub mod Told
use beautiful_aerc.Prelude.{
  ℕ, zero, suc, ◌+◌, ◌*◌, ◌/◌, ◌%◌, ◌^◌, ◌-◌, min, max, List, [], ◌∷◌, ◌++◌, length, Option, none,
  some, Result, ok, err, Bool, true, false, not, ◌&&◌, ◌||◌, ltb, leb, ◌==◌, nat_eq, if◌then◌else◌,
  ◌>>=◌,
}
use beautiful_aerc.Uerr.{Err, plain, wrapped}
use beautiful_aerc.Jmap.Events.{Bytes}
use beautiful_aerc.Jmap.Events.Reader.{
  Event, EventReader, Next, dispatched, event_too_long, ended, same_bytes, next,
}

abbrev pub second : ℕ
second = 1000000000

abbrev pub max_int64 : ℕ
max_int64 = 2 ^ 63 - 1

-- a product of two int64 that are not below zero; the sign of what wraps does not matter here
abbrev pub times : ℕ → ℕ → ℕ
times a b = (a * b) % 2 ^ 64

abbrev pub ping_minimum_ceiling : ℕ
ping_minimum_ceiling = times 30 second

-- ping.cadence, `none` where it is not usable
unfoldable pub cadence : ℕ → ℕ → Option ℕ
cadence interval requested =
    if (interval == 0) || ltb (max_int64 / second) interval
    then none
    else some (min (times interval second) (max requested ping_minimum_ceiling))

unfoldable pub stall_window : ℕ → ℕ
stall_window cadence =
    if cadence == 0 then 0 else if ltb (max_int64 / 2) cadence then max_int64 else times 2 cadence

abbrev pub reconnect_min : ℕ
reconnect_min = 250000000

abbrev pub reconnect_max : ℕ
reconnect_max = times 30 second

-- the loop of backoff.bound
abbrev pub doubled : ℕ → ℕ
doubled zero = reconnect_min
doubled (suc n) = min (times (doubled n) 2) reconnect_max

-- the delay's bound, and the attempt that the schedule goes on from
unfoldable pub bound : ℕ → ℕ → ℕ × ℕ
bound attempt connected_for =
    let a = if leb reconnect_max connected_for then 0 else attempt in (doubled a, suc a)

-- "state" and "ping"
abbrev pub state_event : Bytes
state_event = 115 ∷ 116 ∷ 97 ∷ 116 ∷ 101 ∷ []

abbrev pub ping_event : Bytes
ping_event = 112 ∷ 105 ∷ 110 ∷ 103 ∷ []

-- json.Unmarshal of a StateChange, and of a ping
pub record Decoder (C : Type 0) : Type 0 where
  pub state : Bytes → Result Err C
  pub ping : Bytes → Result Err ℕ

pub record EventSource : Type 0 where
  pub ping : ℕ
  pub close_after_state : Bool

-- OnChange, OnPingClamped with what was reported and what is in force, and the stall timer set
pub data Act (C : Type 0) : Type 0 where
  changed : C → Act C
  clamped : ℕ → ℕ → Act C
  armed : ℕ → Act C

-- the variables of `consume` beside the reader: the window, and the listener's last clamped report
pub record Pinged : Type 0 where
  pub window : ℕ
  pub clamped : ℕ

pub record Ending : Type 0 where
  pub retry : Bool
  pub error : Option Err

abbrev pub over_bound : Err
over_bound = plain "event data too long"

module _ {C : Type 0} (decode : Decoder C) (source : EventSource) where
  -- a ping's figure: its report, if it is clamped to another one than before, and the window
  unfoldable pub take_ping : ℕ → Pinged → Pinged × List (Act C)
  unfolding cadence stall_window
  take_ping interval p = elim (cadence interval source.ping) [
    | none ↦ (p, [])
    | some c ↦
        let reported = times interval second in
        if ltb c reported && not (reported == p.clamped)
        then (record { window = stall_window c; clamped = reported }, clamped reported c ∷ [])
        else (record p { window = stall_window c }, [])
  ]

  -- an event: the end of the connection, or what the loop goes on with
  unfoldable pub take_event : Event → Pinged → Result Ending Pinged × List (Act C)
  unfolding take_ping
  take_event e p =
      if same_bytes e.name state_event
      then (elim (decode.state e.payload) [
        | err x ↦ (err (record { retry = true; error = some (plain "decode state event") }), [])
        | ok c ↦ (
          if source.close_after_state then err (record { retry = false; error = none }) else ok p,
          changed c ∷ [],
        )
      ])
      else if same_bytes e.name ping_event
      then (elim (decode.ping e.payload) [
        | err x ↦ (err (record { retry = true; error = some (plain "decode ping event") }), [])
        | ok interval ↦ let (p', acts) = take_ping interval p in (ok p', acts)
      ])
      else (ok p, [])

  -- `stall.Reset`, where there is a timer at all
  abbrev pub rearm : Pinged → List (Act C)
  rearm p = if stall_window source.ping == 0 then [] else armed p.window ∷ []

  -- The loop, over the lines of the body and what the read of it ends with. Each event takes a line
  -- at least.
  unfoldable pub consume_from :
      ℕ
      → Option Err
      → Pinged
      → EventReader
      → List Bytes
      → Ending × Pinged × EventReader × List (Act C)
  unfolding take_event next
  consume_from zero broken p r lines = (record { retry = true; error = broken }, p, r, [])
  consume_from (suc fuel) broken p r lines =
      let (n, r', rest) = next r lines in
      elim n [
        | ended ↦ (record { retry = true; error = broken }, p, r', [])
        | event_too_long ↦ (record { retry = true; error = some over_bound }, p, r', [])
        | dispatched e ↦
            let (q, acts) = take_event e p in
            elim q [
              | err ending ↦ (ending, p, r', acts)
              | ok p' ↦
                  let (ending, p'', r'', more) = consume_from fuel broken p' r' rest in
                  (ending, p'', r'', acts ++ (rearm p' ++ more))
            ]
      ]

  -- `consume`, with the listener's last id and last clamped report before and after
  unfoldable pub consume : Option Err → Bytes → ℕ → List Bytes → Ending × Bytes × ℕ × List (Act C)
  unfolding consume_from stall_window
  consume broken last_id reported lines =
      let p : Pinged = record { window = stall_window source.ping; clamped = reported } in
      let r : EventReader = record { started = false; id_buffer = last_id; last_id = last_id } in
      let (ending, p', r', acts) = consume_from (suc (length lines)) broken p r lines in
      (ending, r'.last_id, p'.clamped, rearm p ++ acts)
