-- ===== src/Outbox/Failure.antt =====
-- internal/outbox/dispatch.go: the class of a failure, what a class means, and the retry delay.
pub mod Backoff
use beautiful_aerc.Prelude.{
  ℕ, ◌*◌, ◌^◌, ◌%◌, String, none, some, Bool, true, false, not, ◌||◌, leb, ltb, ◌==◌, nat_eq,
  string_eq, if◌then◌else◌,
}
use beautiful_aerc.Uerr.{Class, not_found, throttled, server, Err, error_text, peel, class_string}
use beautiful_aerc.Outbox.Payload.{second}

unfoldable pub is_retriable : Class → Bool
is_retriable not_found = false
is_retriable _ = true

unfoldable pub is_warn : Class → Bool
is_warn throttled = true
is_warn _ = false

-- An int64 in two's complement: 2 ^ 63 and above stand for negative numbers.
abbrev pub int64_mod : ℕ
int64_mod = 2 ^ 64

abbrev not_positive : ℕ → Bool
not_positive d = d == 0 || leb (2 ^ 63) d

abbrev pub max_delay : ℕ
max_delay = 30 * second

unfoldable pub backoff : ℕ → ℕ
backoff attempt =
    let d = (second * 2 ^ attempt) % int64_mod in
    if not_positive d || ltb max_delay d then max_delay else d

unfoldable pub classify_failure : Err → Class × String
unfolding error_text peel
classify_failure e = elim (peel e) [ none ↦ (server, error_text e) | some c ↦ (c.class, c.text) ]

unfoldable pub should_log_failure : String → Class → Bool → Bool
unfolding class_string
should_log_failure last_class class retry = not retry || not (last_class == class_string class)
