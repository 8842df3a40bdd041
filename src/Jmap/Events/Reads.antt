-- ===== src/Jmap/Events/Reads.antt =====
-- The scanner of jmap/eventstream.go over a stream that arrives piece by piece.
use mathlib.Core.List.{append_assoc, append-nil}
use beautiful_aerc.Prelude.{
  ℕ, zero, suc, ◌≤◌, ◌<◌, List, [], ◌∷◌, ◌++◌, length, drop, none, some, Bool, true, false, ◌==◌,
  nat_eq, ◌≡◌, refl, sym, ap, ◌∙◌, arith, Bool-cases, inl, inr, length-append,
}
use beautiful_aerc.Jmap.Events.{Bytes, Split, scan_event_lines, scan_by, scan, scan_reads}
use beautiful_aerc.Jmap.Events.Lines.{further, after_cr, first_line, scan_event_lines-first_line}

abbrev pub joined : List Bytes → Bytes
joined [] = []
joined (r ∷ rs) = r ++ joined rs

-- a line that is found stays the first line, whatever else arrives
abbrev Stable : Split → Split → Type 0
Stable (n, none) t = Unit
Stable (n, some l) t = t ≡ (n, some l)

Stable-further : (x : ℕ) (s t : Split) → Stable s t → Stable (further x s) (further x t)
Stable-further x (n, none) t h = tt
Stable-further x (n, some l) t h = ap (further x) h

Stable-after_cr : (r more : Bytes) (e : Bool) → Stable (after_cr r false) (after_cr (r ++ more) e)
Stable-after_cr [] more e = tt
Stable-after_cr (y ∷ r) more e = elim (Bool-cases (y == 10)) [
  | inl feed ↦ rw feed refl
  | inr other ↦ rw other refl
]

Stable-first_line :
    (bs more : Bytes) (e : Bool) → Stable (first_line bs false) (first_line (bs ++ more) e)
Stable-first_line [] more e = tt
Stable-first_line (x ∷ r) more e = elim (Bool-cases (x == 10)) [
  | inl feed ↦ rw feed refl
  | inr no_feed ↦ elim (Bool-cases (x == 13)) [
    | inl return ↦ rw (no_feed, return) (Stable-after_cr r more e)
    | inr no_return ↦
        rw (no_feed, no_return)
          (Stable-further x (first_line r false) (first_line (r ++ more) e)
            (Stable-first_line r more e))
  ]
]

-- a line takes a byte at least, and no more than there are
abbrev Fits : ℕ → Split → Type 0
Fits k (n, none) = Unit
Fits k (n, some l) = (0 < n) × (n ≤ k)

Fits-further : (k x : ℕ) (s : Split) → Fits k s → Fits (suc k) (further x s)
Fits-further k x (n, none) h = tt
Fits-further k x (n, some l) h = (omega arith, omega (arith, h.1))

Fits-after_cr : (r : Bytes) (e : Bool) → Fits (suc (length r)) (after_cr r e)
Fits-after_cr [] true = (omega arith, omega arith)
Fits-after_cr [] false = tt
Fits-after_cr (y ∷ r) e = elim (Bool-cases (y == 10)) [
  | inl feed ↦ rw feed (omega arith, omega arith)
  | inr other ↦ rw other (omega arith, omega arith)
]

Fits-first_line : (bs : Bytes) (e : Bool) → Fits (length bs) (first_line bs e)
Fits-first_line [] e = tt
Fits-first_line (x ∷ r) e = elim (Bool-cases (x == 10)) [
  | inl feed ↦ rw feed (omega arith, omega arith)
  | inr no_feed ↦ elim (Bool-cases (x == 13)) [
    | inl return ↦ rw (no_feed, return) (Fits-after_cr r e)
    | inr no_return ↦
        rw (no_feed, no_return) (Fits-further (length r) x (first_line r e) (Fits-first_line r e))
  ]
]

length-drop : (n : ℕ) (bs : Bytes) → 0 < n → 0 < length bs → length (drop n bs) < length bs
length-drop zero bs h k = ground arith
length-drop (suc n) [] h k = ground arith
length-drop (suc zero) (b ∷ bs) h k = omega arith
length-drop (suc (suc n)) (b ∷ []) h k = omega arith
length-drop (suc (suc n)) (b ∷ c ∷ bs) h k =
    omega (arith, length-drop (suc n) (c ∷ bs) (omega arith) (omega arith))

drop-append : (n : ℕ) (bs more : Bytes) → n ≤ length bs → drop n (bs ++ more) ≡ drop n bs ++ more
drop-append zero bs more h = refl
drop-append (suc n) [] more h = ground arith
drop-append (suc n) (b ∷ bs) more h = drop-append n bs more (omega (arith, h))

-- the line that a split gives, taken off
abbrev turn : Split → Bytes → List Bytes × Bytes → List Bytes × Bytes
turn (n, none) bs later = ([], bs)
turn (n, some l) bs (lines, rest) = (l ∷ lines, rest)

turned :
    (s : Split) (fuel : ℕ) (bs : Bytes) (e : Bool)
    → (elim s.1 [
      | none ↦ ([], bs)
      | some l ↦ (l ∷ (scan_by fuel (drop s.0 bs) e).0, (scan_by fuel (drop s.0 bs) e).1)
    ])
      ≡ turn s bs (scan_by fuel (drop s.0 bs) e)
turned (n, none) fuel bs e = refl
turned (n, some l) fuel bs e = refl

scan_by-turn :
    (fuel : ℕ) (bs : Bytes) (e : Bool)
    → scan_by (suc fuel) bs e
      ≡ turn (first_line bs e) bs (scan_by fuel (drop (first_line bs e).0 bs) e)
scan_by-turn fuel bs e =
    rw⁻¹ (scan_event_lines-first_line bs e) (turned (scan_event_lines bs e) fuel bs e)

scan_nil : (fuel : ℕ) (e : Bool) → scan_by fuel [] e ≡ ([], [])
scan_nil zero e = refl
scan_nil (suc fuel) e = scan_by-turn fuel [] e

same_turn :
    (s : Split) (f g : ℕ) (bs : Bytes) (e : Bool)
    → Fits (length bs) s
    → ((n : ℕ) → 0 < n → n ≤ length bs → scan_by f (drop n bs) e ≡ scan_by g (drop n bs) e)
    → turn s bs (scan_by f (drop s.0 bs) e) ≡ turn s bs (scan_by g (drop s.0 bs) e)
same_turn (n, none) f g bs e fits h = refl
same_turn (n, some l) f g bs e fits h = ap (turn (n, some l) bs) (h n fits.0 fits.1)

-- any fuel from the number of bytes on is enough
fuel_free :
    (f g : ℕ) (bs : Bytes) (e : Bool)
    → length bs ≤ f
    → length bs ≤ g
    → scan_by f bs e ≡ scan_by g bs e
fuel_free f g [] e h k = scan_nil f e ∙ sym (scan_nil g e)
fuel_free zero g (b ∷ bs) e h k = ground arith
fuel_free (suc f) zero (b ∷ bs) e h k = ground arith
fuel_free (suc f) (suc g) (b ∷ bs) e h k =
    let all = b ∷ bs in
    scan_by-turn f all e
    ∙ same_turn (first_line all e) f g all e (Fits-first_line all e) (λ n i j.
      let less = length-drop n all i (omega arith) in
      fuel_free f g (drop n all) e (omega (arith, less, h)) (omega (arith, less, k)))
    ∙ sym (scan_by-turn g all e)

scan-eq-turn :
    (bs : Bytes) (e : Bool) (n : ℕ) (l : Bytes)
    → first_line bs e ≡ (n, some l)
    → 0 < n
    → n ≤ length bs
    → scan bs e ≡ turn (n, some l) bs (scan (drop n bs) e)
unfolding scan
scan-eq-turn [] e n l q i j = ground arith
scan-eq-turn (b ∷ bs) e n l q i j =
    let all = b ∷ bs in
    let less = length-drop n all i (omega arith) in
    scan_by-turn (length bs) all e
    ∙ ap (λ s. turn s all (scan_by (length bs) (drop s.0 all) e)) q
    ∙ ap (turn (n, some l) all) (
        fuel_free (length bs) (length (drop n all)) (drop n all) e (omega (arith, less))
          (omega arith))

-- the lines found so far, and those of what is held and what is still to come
abbrev Goes : Bytes → Bytes → List Bytes × Bytes → Type 0
Goes bs more (ls, rest) = (scan (bs ++ more) true).0 ≡ ls ++ (scan (rest ++ more) true).0

Goes-turn :
    (s : Split) (bs more : Bytes) (later : List Bytes × Bytes)
    → Fits (length bs) s
    → Stable s (first_line (bs ++ more) true)
    → Goes (drop s.0 bs) more later
    → Goes bs more (turn s bs later)
Goes-turn (n, none) bs more later fits stable h = refl
Goes-turn (n, some l) bs more later fits stable h =
    ap (λ r. r.0)
      (scan-eq-turn (bs ++ more) true n l stable fits.0
        (omega (arith, fits.1, length-append bs more)))
    ∙ ap (λ t. l ∷ (scan t true).0) (drop-append n bs more fits.1)
    ∙ ap (λ t. l ∷ t) h

goes : (fuel : ℕ) (bs more : Bytes) → Goes bs more (scan_by fuel bs false)
goes zero bs more = refl
goes (suc fuel) bs more = rw (scan_by-turn fuel bs false) (
    Goes-turn (first_line bs false) bs more (scan_by fuel (drop (first_line bs false).0 bs) false)
      (Fits-first_line bs false) (Stable-first_line bs more true)
      (goes fuel (drop (first_line bs false).0 bs) more))

-- The lines of an event stream do not depend on the reads that it arrives in: over any cut of it
-- into reads, a carriage return at the edge of one and its line feed at the start of the next
-- included, the scanner gives the lines that it gives on the whole stream at once.
pub scan_reads_lem :
    (reads : List Bytes) (held : Bytes)
    → scan_reads reads held ≡ (scan (held ++ joined reads) true).0
unfolding scan_reads scan
scan_reads_lem [] held = ap (λ t. (scan t true).0) (sym (append-nil held))
scan_reads_lem (r ∷ rs) held =
    let (ls, rest) = scan (held ++ r) false in
    ap (λ t. ls ++ t) (scan_reads_lem rs rest)
    ∙ sym (goes (length (held ++ r)) (held ++ r) (joined rs))
    ∙ ap (λ t. (scan t true).0) (append_assoc held r (joined rs))
