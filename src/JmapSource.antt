-- ===== src/JmapSource.antt =====
-- internal/backend/jmapsource/errors.go, and do of session.go around it: how a failure of a call is
-- classified, and the episode that has a standing failure logged once.
pub mod Episodes
pub mod SetErrors
use beautiful_aerc.Prelude.{
  ℕ, String, List, [], ◌∷◌, Option, none, some, Bool, true, false, not, ◌&&◌, ◌||◌, any, ◌==◌,
  nat_eq, leb, if◌then◌else◌,
}
use beautiful_aerc.Uerr.{Class, auth, not_found, connection, server, throttled, same_class}

-- What the code can tell of one error in a chain. `closed` is io.EOF, io.ErrClosedPipe,
-- io.ErrUnexpectedEOF or net.ErrClosed; the flag of the three network errors is Timeout().
pub data Layer : Type 0 where
  request_error http_error : ℕ → Layer
  closed other : Layer
  net_error op_error url_error : Bool → Layer

-- An error, and what it unwraps to, the outermost first.
abbrev pub Chain : Type 0
Chain = List Layer

abbrev request_status : Chain → Option ℕ
request_status [] = none
request_status (request_error status ∷ es) = some status
request_status (_ ∷ es) = request_status es

abbrev http_status : Chain → Option ℕ
http_status [] = none
http_status (http_error status ∷ es) = some status
http_status (_ ∷ es) = http_status es

abbrev or_else : Option ℕ → Option ℕ → Option ℕ
or_else (some a) b = some a
or_else none b = b

unfoldable pub status_of : Chain → Option ℕ
status_of err = or_else (request_status err) (http_status err)

unfoldable pub classify_status_class : ℕ → Option Class
classify_status_class status =
    if (status == 401) || (status == 403)
    then some auth
    else if status == 404
    then some not_found
    else if status == 429
    then some throttled
    else if leb 400 status
    then some server
    else none

abbrev is_closed : Layer → Bool
is_closed closed = true
is_closed _ = false

abbrev is_op_error : Layer → Bool
is_op_error (op_error timeout) = true
is_op_error _ = false

-- the first net.Error of the chain
abbrev times_out : Chain → Bool
times_out [] = false
times_out (net_error timeout ∷ es) = timeout
times_out (op_error timeout ∷ es) = timeout
times_out (url_error timeout ∷ es) = timeout
times_out (_ ∷ es) = times_out es

abbrev dead_itself : Chain → Bool
dead_itself err = any is_closed err || times_out err || any is_op_error err

-- the call on what the first url.Error of the chain holds
abbrev dead_inside : Chain → Bool
dead_inside [] = false
dead_inside (url_error timeout ∷ es) = dead_itself es || dead_inside es
dead_inside (_ ∷ es) = dead_inside es

unfoldable pub is_connection_dead : Chain → Bool
is_connection_dead err = dead_itself err || dead_inside err

-- backend.Failure, or the error untouched
pub data Retried : Type 0 where
  failure : Class → Chain → Retried
  untouched : Chain → Retried

abbrev pub unless_dead : Chain → Retried
unfolding is_connection_dead
unless_dead err = if is_connection_dead err then failure connection err else untouched err

abbrev pub retried_as : Chain → Option Class → Retried
unfolding unless_dead
retried_as err none = unless_dead err
retried_as err (some class) = failure class err

abbrev pub retried_status : Chain → Option ℕ → Retried
unfolding classify_status_class retried_as
retried_status err none = unless_dead err
retried_status err (some status) = retried_as err (classify_status_class status)

unfoldable pub classify_retried : Chain → Retried
unfolding status_of retried_status
classify_retried err = retried_status err (status_of err)

-- the uerr.Error of a failure, which uerr.New logs
pub record Logged : Type 0 where
  pub op : String
  pub class : Class
  pub cause : Chain

pub record Episode : Type 0 where
  pub active : Bool
  pub class : Class
  pub logged : Logged

-- the lines that a call writes, with its result
unfoldable pub report : String → Class → Chain → Episode → Logged × Episode × List Logged
report op class cause e =
    if not e.active || not (same_class e.class class)
    then (let logged : Logged = record { op = op; class = class; cause = cause } in
        (logged, record { active = true; class = class; logged = logged }, logged ∷ []))
    else (e.logged, e, [])

unfoldable pub clear : Episode → Episode
clear e = record e { active = false }

pub data Answer : Type 0 where
  success : Answer
  surfaced : Logged → Answer
  raw : Chain → Answer

abbrev pub surface : Logged × Episode × List Logged → Answer × Episode × List Logged
surface (l, e, ls) = (surfaced l, e, ls)

abbrev pub classify_dead : String → Chain → Episode → Answer × Episode × List Logged
unfolding is_connection_dead report
classify_dead op err e =
    if is_connection_dead err then surface (report op connection err e) else (raw err, e, [])

abbrev pub classify_as : String → Chain → Episode → Option Class → Answer × Episode × List Logged
unfolding report classify_dead
classify_as op err e none = classify_dead op err e
classify_as op err e (some class) = surface (report op class err e)

-- classifyStatus where there is a status
abbrev pub classify_status : String → Chain → Episode → Option ℕ → Answer × Episode × List Logged
unfolding classify_status_class classify_as
classify_status op err e none = classify_dead op err e
classify_status op err e (some status) = classify_as op err e (classify_status_class status)

unfoldable pub classify : String → Chain → Episode → Answer × Episode × List Logged
unfolding status_of classify_status
classify op err e = classify_status op err e (status_of err)

-- what client.Do answers, put through the session's do
unfoldable pub do_call : Option Chain → Episode → Answer × Episode × List Logged
unfolding clear classify
do_call none e = (success, clear e, [])
do_call (some err) e = classify "jmapsource.do" err e
