-- ===== src/Tests/Sessions.antt =====
-- The failures of a session at concrete values.
use beautiful_aerc.Prelude.{List, [], ◌∷◌, Option, none, some, true, false, map, ◌≡◌, refl}
use beautiful_aerc.Uerr.{auth, throttled}
use beautiful_aerc.JmapSource.{
  Chain, do_call, surfaced, http_error, url_error, op_error, closed, request_error, other, Episode,
  is_connection_dead, status_of,
}
use beautiful_aerc.JmapSource.SetErrors.{mutation_class}
use beautiful_aerc.JmapSource.Episodes.{do_calls, call_class, answer_class, changes, do_calls_lem}

-- a rejected credential twice, an answer, the credential again, and a dead connection
abbrev calls : List (Option Chain)
calls =
    some (http_error 401 ∷ [])
    ∷ some (request_error 403 ∷ [])
    ∷ none
    ∷ some (other ∷ http_error 401 ∷ [])
    ∷ some (closed ∷ [])
    ∷ []

-- a credential that stands as rejected
abbrev rejected : Episode
rejected = record {
  active = true;
  class = auth;
  logged = record { op = "jmapsource.do"; class = auth; cause = [] };
}

do_calls_lem_example :
    (map answer_class (do_calls calls rejected).0 ≡ map call_class calls)
    × (map (λ l. l.class) (do_calls calls rejected).1 ≡ changes (some auth) calls)
do_calls_lem_example = do_calls_lem calls rejected (λ a. refl)

-- nothing more is logged
stands : do_call (some (request_error 403 ∷ [])) rejected ≡ (surfaced rejected.logged, rejected, [])
unfolding do_call
stands = refl

dead_inside_url : is_connection_dead (url_error false ∷ op_error true ∷ []) ≡ true
unfolding is_connection_dead
dead_inside_url = refl

request_first : status_of (http_error 500 ∷ request_error 404 ∷ []) ≡ some 404
unfolding status_of
request_first = refl

rate_limited : mutation_class "rateLimit" ≡ throttled
unfolding mutation_class
rate_limited = refl
