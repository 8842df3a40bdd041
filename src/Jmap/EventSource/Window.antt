-- ===== src/Jmap/EventSource/Window.antt =====
-- The cadence and the stall window of jmap/eventsource.go.
use beautiful_aerc.Prelude.{
  ℕ, ◌*◌, ◌/◌, ◌≤◌, ◌<◌, min, max, Option, none, some, false, ◌||◌, ltb, ◌==◌, nat_eq, ◌≡◌, arith,
  Bool-cases, inl, inr,
}
use beautiful_aerc.Jmap.EventSource.{second, max_int64, times, cadence, stall_window}

-- the longest cadence that a server can bring about, and the longest window
abbrev pub slowest : ℕ → ℕ
slowest requested = max requested (30 * second)

abbrev pub limit : ℕ → ℕ
limit requested = min (2 * slowest requested) max_int64

abbrev pub Usable : ℕ → Option ℕ → Type 0
Usable requested none = Unit
Usable requested (some c) = (0 < c) × (c ≤ slowest requested) × (c ≤ max_int64)

-- the interval in nanoseconds does not wrap
unwrapped :
    (interval : ℕ)
    → ((interval == 0) || ltb (max_int64 / second) interval) ≡ false
    → (0 < times interval second) × (times interval second ≤ max_int64)
unwrapped interval h =
    let small : interval ≤ 9223372036 = ground (arith, h) in
    let positive : 0 < interval = ground (arith, h) in
    (omega (arith, small, positive), omega (arith, small, positive))

pub Usable-cadence : (interval requested : ℕ) → Usable requested (cadence interval requested)
unfolding cadence
Usable-cadence interval requested =
    elim (Bool-cases ((interval == 0) || ltb (max_int64 / second) interval)) [
      | inl useless ↦ rw (cadence, useless) tt
      | inr useful ↦
          let (positive, fits) = unwrapped interval useful in
          rw (cadence, useful)
            (omega (arith, positive), omega (arith, positive), omega (arith, fits))
    ]

pub stall_window-le :
    (c requested : ℕ)
    → 0 < c
    → c ≤ slowest requested
    → c ≤ max_int64
    → (0 < stall_window c) × (stall_window c ≤ limit requested)
unfolding stall_window
stall_window-le c requested h k m = elim (Bool-cases (ltb (max_int64 / 2) c)) [
  | inl long ↦
      let past : 4611686018427387903 < c = ground (arith, long) in
      let some' : (c == 0) ≡ false = ground (arith, h) in
      rw (stall_window, some', long) (omega arith, omega (arith, past, k))
  | inr short ↦
      let inside : c ≤ 4611686018427387903 = ground (arith, short) in
      let some' : (c == 0) ≡ false = ground (arith, h) in
      rw (stall_window, some', short) (omega (arith, inside, h), omega (arith, inside, k))
]
