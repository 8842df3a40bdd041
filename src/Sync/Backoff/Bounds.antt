-- ===== src/Sync/Backoff/Bounds.antt =====
-- The delay of backoffDelay in internal/sync/push.go, against its description without words.
use native.Mathlib.Nat.{pow-suc}
use beautiful_aerc.Prelude.{
  ℕ, zero, suc, ◌*◌, ◌^◌, ◌<◌, ◌≤◌, ◌≡◌, refl, ◌∙◌, ap, min, arith, Bool-cases, inl, inr, leb, ◌==◌,
  nat_eq, if◌then◌else◌, false, ◌||◌, ◌⊎◌,
}
use beautiful_aerc.Sync.Backoff.{sign, min_signed, double, bound_after, backoff_delay}

-- one round keeps the bound at the power of two, or at the cap
round_bound :
    (bound max_delay : ℕ)
    → bound ≤ max_delay
    → max_delay < 2 ^ 62
    → min_signed (double bound) max_delay ≡ min (bound * 2) max_delay
unfolding min_signed double
round_bound bound max_delay h small = ground arith

-- a bound that was capped once stays at the cap
min-scaled : (x m k : ℕ) → 1 ≤ k → min (min x m * k) m ≡ min (x * k) m
min-scaled x m k h = elim (Bool-cases (leb x m)) [
  | inl below ↦ let e : min x m ≡ x = ground arith in rw e refl
  | inr above ↦
      let e : min x m ≡ m = ground arith in
      let p : m ≤ m * k = grind arith in
      let q : m ≤ x * k = grind arith in rw e (omega (arith, p, q))
]

one-le-pow : (a : ℕ) → 1 ≤ 2 ^ a
one-le-pow zero = omega arith
one-le-pow (suc a) = rw (pow-suc 2 a) (omega (arith, one-le-pow a))

bound-eq-min :
    (attempt bound max_delay : ℕ)
    → bound ≤ max_delay
    → max_delay < 2 ^ 62
    → bound_after attempt bound max_delay ≡ min (bound * 2 ^ attempt) max_delay
unfolding bound_after
bound-eq-min zero bound max_delay h small = omega arith
bound-eq-min (suc attempt) bound max_delay h small =
    let scaled : bound * 2 * 2 ^ attempt ≡ bound * 2 ^ suc attempt =
      rw (pow-suc 2 attempt) (grind arith) in
    ap (λ b. bound_after attempt b max_delay) (round_bound bound max_delay h small)
    ∙ bound-eq-min attempt (min (bound * 2) max_delay) max_delay (omega arith) small
    ∙ min-scaled (bound * 2) max_delay (2 ^ attempt) (one-le-pow attempt)
    ∙ ap (λ b. min b max_delay) scaled

module _ (draw : ℕ → ℕ) (drawn : (n : ℕ) → 0 < n → draw n < n) where
  chosen :
      (range : ℕ)
      → range < 2 ^ 62
      → let d = if range == 0 || leb sign range then 0 else draw range in
        ((range ≡ 0) × (d ≡ 0)) ⊎ ((d ≡ draw range) × (d < range))
  chosen range h = elim (Bool-cases (range == 0)) [
    | inl empty ↦ rw empty (inl (ground arith, refl))
    | inr some ↦
        let fits : leb sign range ≡ false = ground arith in
        rw (some, fits) (inr (refl, drawn range (ground arith)))
  ]

  -- The delay before a retry is below the doubled minimum and below the cap, at every attempt: it is
  -- drawn from that range, and is 0 where the range is empty. This is for a minimum and a cap below
  -- 2 ^ 62, given that a draw from below a positive bound is below it.
  pub backoff_delay_bounds :
      (attempt min_delay max_delay : ℕ)
      → min_delay < 2 ^ 62
      → max_delay < 2 ^ 62
      → let range = min (min min_delay max_delay * 2 ^ attempt) max_delay in
        ((range ≡ 0) × (backoff_delay draw attempt min_delay max_delay ≡ 0))
        ⊎ ((backoff_delay draw attempt min_delay max_delay ≡ draw range)
            × (backoff_delay draw attempt min_delay max_delay < range))
  unfolding backoff_delay
  backoff_delay_bounds attempt min_delay max_delay p q =
      let first : min_signed min_delay max_delay ≡ min min_delay max_delay =
        unfold min_signed in ground arith in
      let e = bound-eq-min attempt (min min_delay max_delay) max_delay (omega arith) q in
      let range = min (min min_delay max_delay * 2 ^ attempt) max_delay in
      rw (first, e) (chosen range (omega arith))
