-- ===== src/Sync/Push.antt =====
-- internal/sync/push.go: pushState, which decides when the push transport's failures are reported.
pub mod Streaks
pub mod Views
use beautiful_aerc.Prelude.{
  ℕ, suc, ◌+◌, String, List, [], ◌∷◌, ◌++◌, Bool, true, false, not, ◌&&◌, ◌||◌, leb, if◌then◌else◌,
}
use beautiful_aerc.Uerr.{
  Class, connection, auth, Err, plain, failure, is, canceled, classify_err, LogLine, same_class,
}

-- surfaceable, of an error that is not nil
unfoldable pub surfaceable : Err → Bool
surfaceable e = not (is canceled e)

-- classifyErr
abbrev pub classify : Err → Class × Err
classify e = classify_err e connection

-- `class` is read only where `failing` is set
pub record PushState : Type 0 where
  pub failing : Bool
  pub class : Class
  pub attempt : ℕ
  pub unproved : ℕ
  pub just_proved : Bool

abbrev pub fresh : PushState
fresh = record { failing = false; class = auth; attempt = 0; unproved = 0; just_proved = false }

abbrev pub listen_line : Class × Err → LogLine
listen_line (class, cause) = record {
  op = "sync.push.listen";
  ids = [];
  class = class;
  cause = cause;
}

-- the last `if` of `fail`
unfoldable pub enter : Class × Err → PushState → PushState × List LogLine
enter (class, cause) s =
    if not s.failing || not (same_class class s.class)
    then (record s { failing = true; class = class }, listen_line (class, cause) ∷ [])
    else (s, [])

unfoldable pub fail : Err → PushState → PushState × List LogLine
unfolding enter surfaceable
fail e s = if surfaceable e then enter (classify e) (record s { unproved = 0 }) else (s, [])

abbrev pub unproved_stops : ℕ
unproved_stops = 2

abbrev pub stream_never_proved : Err
stream_never_proved = failure connection (
    plain
      "sync: the push stream keeps opening and stopping before it can prove the connection is healthy")

-- `stopped` by its `justProved`
stopped_by : Bool → PushState → PushState × List LogLine
unfolding fail
stopped_by true s = (record s { just_proved = false; unproved = 0 }, [])
stopped_by false s =
    let s' = record s { unproved = s.unproved + 1; attempt = s.attempt + 1 } in
    if leb unproved_stops (s.unproved + 1) then fail stream_never_proved s' else (s', [])

unfoldable pub stopped : PushState → PushState × List LogLine
unfolding stopped_by
stopped s = stopped_by s.just_proved s

unfoldable pub proved : PushState → PushState
proved s = record s { failing = false; attempt = 0; unproved = 0; just_proved = true }
