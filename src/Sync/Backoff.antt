-- ===== src/Sync/Backoff.antt =====
-- internal/sync/push.go: backoffDelay and sleepBackoff. A duration is an int64; `draw n` is what
-- `rand.Int64N(n)` gives.
pub mod Bounds
pub mod Sleep
use beautiful_aerc.Prelude.{
  ℕ, zero, suc, ◌*◌, ◌%◌, ◌^◌, ltb, leb, ◌==◌, nat_eq, ◌||◌, Bool, if◌then◌else◌,
}

-- the top bit of an int64
abbrev pub sign : ℕ
sign = 2 ^ 63

-- `min` of two int64 values in two's complement, of which the second is not negative
unfoldable pub min_signed : ℕ → ℕ → ℕ
min_signed a b = if leb sign a then a else if ltb b a then b else a

-- `bound * 2`, wrapped
unfoldable pub double : ℕ → ℕ
double bound = (bound * 2) % 2 ^ 64

-- the loop over the attempts
unfoldable pub bound_after : ℕ → ℕ → ℕ → ℕ
unfolding min_signed double
bound_after zero bound max_delay = bound
bound_after (suc attempt) bound max_delay =
    bound_after attempt (min_signed (double bound) max_delay) max_delay

module _ (draw : ℕ → ℕ) where
  unfoldable pub backoff_delay : ℕ → ℕ → ℕ → ℕ
  unfolding bound_after min_signed
  backoff_delay attempt min_delay max_delay =
      let bound = bound_after attempt (min_signed min_delay max_delay) max_delay in
      if bound == 0 || leb sign bound then 0 else draw bound
