-- ===== src/Outbox/Failure/Backoff.antt =====
-- `backoff` of internal/outbox/dispatch.go over every attempt, the wrap-around of its shift included.
use mathlib.Core.Bool.{false≢true}
use native.Mathlib.Nat.{pow-suc, suc-add}
use beautiful_aerc.Prelude.{
  ℕ, zero, suc, ◌+◌, ◌-◌, ◌*◌, ◌^◌, ◌%◌, ◌<◌, ◌≡◌, refl, sym, Bool, true, false, ltb, ◌==◌, nat_eq,
  if◌then◌else◌, arith, Bool-cases, inl, inr, ==→≡, subst,
}
use beautiful_aerc.Outbox.Payload.{second}
use beautiful_aerc.Outbox.Failure.{backoff, max_delay, int64_mod}

-- The delay without machine words.
abbrev pub delay : ℕ → ℕ
delay attempt = if ltb attempt 5 then second * 2 ^ attempt else max_delay

-- the first `n` delays agree
agree : ℕ → Bool
agree zero = true
agree (suc k) = if backoff k == delay k then agree k else false

agree_at : (n k : ℕ) → k < n → agree n ≡ true → backoff k ≡ delay k
unfolding agree
agree_at zero k small h = absurd (omega (arith, small))
agree_at (suc n) k small h = elim (Bool-cases (backoff n == delay n)) [
  | inr differ ↦ absurd (false≢true (rw differ at h))
  | inl same ↦ elim (Bool-cases (k == n)) [
    | inl here ↦ subst (λ m. backoff m ≡ delay m) (sym (==→≡ k n here)) (==→≡ _ _ same)
    | inr before ↦ agree_at n k (ground arith) (rw same at h)
  ]
]

agree_64 : agree 64 ≡ true
unfolding agree backoff
agree_64 = refl

-- From 64 bits on the shifted second is a multiple of the modulus.
shifted_out : (k : ℕ) → (second * 2 ^ (k + 64)) % int64_mod ≡ 0
shifted_out zero = refl
shifted_out (suc k) = rw (suc-add, pow-suc 2 (k + 64)) (omega (arith, shifted_out k))

backoff_far : (k : ℕ) → backoff (k + 64) ≡ delay (k + 64)
unfolding backoff
backoff_far k = rw (shifted_out k) (ground arith)

-- A retry waits 1, 2, 4, 8 and 16 seconds, and 30 seconds from the sixth attempt on, at every
-- attempt count: where the int64 shift overflows, the delay is 30 seconds too.
pub backoff-eq-delay : (attempt : ℕ) → backoff attempt ≡ delay attempt
backoff-eq-delay attempt = elim (Bool-cases (ltb attempt 64)) [
  | inl small ↦ agree_at 64 attempt (ground arith) agree_64
  | inr large ↦
      let back : attempt - 64 + 64 ≡ attempt = ground arith in
      subst (λ n. backoff n ≡ delay n) back (backoff_far (attempt - 64))
]
