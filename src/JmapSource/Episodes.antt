-- ===== src/JmapSource/Episodes.antt =====
-- The log lines of a session's calls, over a whole run of them.
use mathlib.Core.Bool.{false≢true}
use mathlib.Core.List.{map-append}
use beautiful_aerc.Prelude.{
  ℕ, String, List, [], ◌∷◌, ◌++◌, map, Option, none, some, Bool, true, false, ◌≡◌, refl, ap, ◌∙◌,
  Bool-cases, inl, inr, ◌⊎◌, if◌then◌else◌, nat_eq,
}
use beautiful_aerc.Uerr.{Class, same_class}
use beautiful_aerc.Uerr.Classes.{same_class→≡}
use beautiful_aerc.JmapSource.{
  Chain, Logged, Episode, Answer, success, surfaced, raw, Retried, failure, untouched, classify,
  classify_retried, report, clear, do_call, is_connection_dead, classify_status_class, status_of,
  unless_dead, retried_status, surface, classify_dead, classify_as, retried_as, classify_status,
}

-- the calls of a session in order: what they answer, and the lines that they write
abbrev pub do_calls : List (Option Chain) → Episode → List Answer × List Logged
unfolding do_call
do_calls [] e = ([], [])
do_calls (call ∷ calls) e =
    let (answer, e', lines) = do_call call e in
    let (answers, more) = do_calls calls e' in (answer ∷ answers, lines ++ more)

-- the class that a failure is given where its caller retries it
abbrev class_of : Retried → Option Class
class_of (failure class cause) = some class
class_of (untouched cause) = none

abbrev pub call_class : Option Chain → Option Class
unfolding classify_retried
call_class none = none
call_class (some err) = class_of (classify_retried err)

abbrev pub answer_class : Answer → Option Class
answer_class success = none
answer_class (surfaced l) = some l.class
answer_class (raw err) = none

abbrev stands_as : Option Class → Class → Bool
stands_as none class = false
stands_as (some c) class = same_class c class

-- the class that a failure brings, where another one or none stands
abbrev entered : Option Class → Option Class → List Class
entered standing none = []
entered standing (some class) = if stands_as standing class then [] else class ∷ []

-- a failure without a class leaves what stands
abbrev left_standing : Option Class → Option Class → Option Class
left_standing standing none = standing
left_standing standing (some class) = if stands_as standing class then standing else some class

-- a call that succeeds ends what stands
abbrev after_call : Option Class → Option Chain → Option Class
unfolding call_class
after_call standing none = none
after_call standing (some err) = left_standing standing (call_class (some err))

-- the classes that come to stand, from the one that stands before
abbrev pub changes : Option Class → List (Option Chain) → List Class
unfolding call_class after_call
changes standing [] = []
changes standing (call ∷ calls) =
    entered standing (call_class call) ++ changes (after_call standing call) calls

abbrev standing_of : Episode → Option Class
standing_of e = if e.active then some e.class else none

abbrev by_class : String → Chain → Episode → Option Class → Answer × Episode × List Logged
unfolding report
by_class op err e none = (raw err, e, [])
by_class op err e (some class) = surface (report op class err e)

classify_dead_lem :
    (op : String) (err : Chain) (e : Episode)
    → classify_dead op err e ≡ by_class op err e (class_of (unless_dead err))
unfolding classify_dead unless_dead by_class
classify_dead_lem op err e = elim (Bool-cases (is_connection_dead err)) [
  | inl dead ↦ rw dead refl
  | inr alive ↦ rw alive refl
]

classify_as_lem :
    (op : String) (err : Chain) (e : Episode) (o : Option Class)
    → classify_as op err e o ≡ by_class op err e (class_of (retried_as err o))
unfolding classify_as retried_as by_class
classify_as_lem op err e none = classify_dead_lem op err e
classify_as_lem op err e (some class) = refl

classify_status_lem :
    (op : String) (err : Chain) (e : Episode) (o : Option ℕ)
    → classify_status op err e o ≡ by_class op err e (class_of (retried_status err o))
unfolding classify_status retried_status by_class
classify_status_lem op err e none = classify_dead_lem op err e
classify_status_lem op err e (some status) = classify_as_lem op err e (classify_status_class status)

classify_lem :
    (op : String) (err : Chain) (e : Episode)
    → classify op err e ≡ by_class op err e (call_class (some err))
unfolding classify classify_retried call_class
classify_lem op err e = classify_status_lem op err e (status_of err)

-- an active episode is of the class of the error it hands out
abbrev pub Kept : Episode → Type 0
Kept e = (e.active ≡ true) → e.logged.class ≡ e.class

report-Reports :
    (op : String) (class : Class) (err : Chain) (e : Episode) (kept : Kept e)
    → let (l, e', lines) = report op class err e in
      (l.class ≡ class)
      × Kept e'
      × (((stands_as (standing_of e) class ≡ true)
            × (standing_of e' ≡ standing_of e)
            × (lines ≡ []))
          ⊎ ((stands_as (standing_of e) class ≡ false)
              × (standing_of e' ≡ some class)
              × (lines ≡ l ∷ [])))
unfolding report
report-Reports op class err e kept = elim (Bool-cases e.active) [
  | inr idle ↦ rw idle (refl, (λ a. refl), inr (refl, refl, refl))
  | inl live ↦ elim (Bool-cases (same_class e.class class)) [
    | inl same ↦ rw live (
        rw same
          (kept live ∙ same_class→≡ e.class class same, (λ a. kept live), inl (refl, refl, refl)))
    | inr other ↦ rw live (rw other (refl, (λ a. refl), inr (refl, refl, refl)))
  ]
]

abbrev CallReports :
    Option Class → Option Class → Option Class → Answer × Episode × List Logged → Type 0
CallReports class standing after (answer, e, lines) =
    (answer_class answer ≡ class)
    × Kept e
    × (standing_of e ≡ after)
    × (map (λ l. l.class) lines ≡ entered standing class)

by_class-CallReports :
    (op : String) (err : Chain) (e : Episode) (class : Option Class) (kept : Kept e)
    → CallReports class
        (standing_of e)
        (left_standing (standing_of e) class)
        (by_class op err e class)
unfolding by_class
by_class-CallReports op err e none kept = (refl, kept, refl, refl)
by_class-CallReports op err e (some class) kept =
    let (same, kept', how) = report-Reports op class err e kept in
    elim how [
      | inl (s, stays, quiet) ↦ (ap some same, kept', rw s stays, rw (s, quiet) refl)
      | inr (s, moves, line) ↦
          (ap some same, kept', rw s moves, rw (s, line) (ap (λ c. c ∷ []) same))
    ]

do_call-CallReports :
    (call : Option Chain) (e : Episode) (kept : Kept e)
    → CallReports
        (call_class call)
        (standing_of e)
        (after_call (standing_of e) call)
        (do_call call e)
unfolding do_call clear call_class after_call
do_call-CallReports none e kept = (refl, (λ a. absurd (false≢true a)), refl, refl)
do_call-CallReports (some err) e kept =
    rw (classify_lem "jmapsource.do" err e)
      (by_class-CallReports "jmapsource.do" err e (call_class (some err)) kept)

-- Over any run of calls each failure is answered under the class that a retried call's failure gets,
-- and the classes of the lines logged are those that come to stand: a line is written where a class
-- other than the standing one is reported, and a call that succeeds ends what stands. The start is an
-- episode that is ended, or active under the class of the error it hands out.
pub do_calls_lem :
    (calls : List (Option Chain)) (e : Episode) (kept : Kept e)
    → (map answer_class (do_calls calls e).0 ≡ map call_class calls)
      × (map (λ l. l.class) (do_calls calls e).1 ≡ changes (standing_of e) calls)
unfolding do_calls changes
do_calls_lem [] e kept = (refl, refl)
do_calls_lem (call ∷ calls) e kept =
    let (same, kept', stands, lines) = do_call-CallReports call e kept in
    let (answers, more) = do_calls_lem calls (do_call call e).1 kept' in
    (
      rw (same, answers) refl,
      map-append (λ l. l.class) (do_call call e).2 (do_calls calls (do_call call e).1).1
          ∙ rw (lines, more, stands) refl,
    )
