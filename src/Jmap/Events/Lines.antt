-- ===== src/Jmap/Events/Lines.antt =====
-- scanEventLines of jmap/eventstream.go and the first line of a stream, told byte by byte.
use beautiful_aerc.Prelude.{
  ℕ, suc, ◌<◌, [], ◌∷◌, length, Option, none, some, Bool, true, false, ◌==◌, nat_eq, if◌then◌else◌,
  ◌≡◌, refl, ap, ◌∙◌, arith, Bool-cases, inl, inr,
}
use beautiful_aerc.Jmap.Events.{
  Bytes, lf, cr, next_index, index_byte, Split, no_line, split_at, scan_event_lines,
}

abbrev pub further : ℕ → Split → Split
further x (n, none) = no_line
further x (n, some l) = (suc n, some (x ∷ l))

-- a carriage return, and what follows it
abbrev pub after_cr : Bytes → Bool → Split
after_cr [] at_eof = if at_eof then (1, some []) else no_line
after_cr (y ∷ r) at_eof = if y == 10 then (2, some []) else (1, some [])

-- a line ends at a line feed, at a carriage return, or at the two together
abbrev pub first_line : Bytes → Bool → Split
first_line [] at_eof = no_line
first_line (x ∷ r) at_eof =
    let later = further x (first_line r at_eof) in
    if x == 10 then (1, some []) else if x == 13 then after_cr r at_eof else later

abbrev Within : ℕ → Option ℕ → Type 0
Within n none = Unit
Within n (some i) = i < n

Within-next_index : (n : ℕ) (o : Option ℕ) → Within n o → Within (suc n) (next_index o)
Within-next_index n none h = tt
Within-next_index n (some i) h = omega (arith, h)

within : (b : ℕ) (xs : Bytes) → Within (length xs) (index_byte b xs)
within b [] = tt
within b (x ∷ xs) = elim (Bool-cases (x == b)) [
  | inl found ↦ rw found (omega arith)
  | inr later ↦ rw later (Within-next_index (length xs) (index_byte b xs) (within b xs))
]

further_split :
    (l c : Option ℕ) (x : ℕ) (xs : Bytes) (at_eof : Bool)
    → Within (length xs) c
    → split_at (next_index l) (next_index c) (x ∷ xs) at_eof ≡ further x (split_at l c xs at_eof)
further_split none none x xs at_eof h = refl
further_split (some l) none x xs at_eof h = refl
further_split none (some c) x xs at_eof h = ground arith
further_split (some l) (some c) x xs at_eof h = ground arith

at_lf :
    (c : Option ℕ) (x : ℕ) (xs : Bytes) (at_eof : Bool)
    → split_at (some 0) (next_index c) (x ∷ xs) at_eof ≡ (1, some [])
at_lf none x xs at_eof = refl
at_lf (some c) x xs at_eof = ground arith

at_cr :
    (x : ℕ) (xs : Bytes) (at_eof : Bool)
    → split_at (next_index (index_byte lf xs)) (some 0) (x ∷ xs) at_eof ≡ after_cr xs at_eof
at_cr x [] at_eof = ground arith
at_cr x (y ∷ ys) at_eof = elim (Bool-cases (y == 10)) [
  | inl feed ↦ rw feed (ground arith)
  | inr other ↦ rw other (past (index_byte lf ys))
]
  where
    past :
        (l : Option ℕ)
        → split_at (next_index (next_index l)) (some 0) (x ∷ y ∷ ys) at_eof ≡ (1, some [])
    past none = ground arith
    past (some l) = ground arith

pub scan_event_lines-first_line :
    (bs : Bytes) (at_eof : Bool) → scan_event_lines bs at_eof ≡ first_line bs at_eof
unfolding scan_event_lines
scan_event_lines-first_line [] at_eof = refl
scan_event_lines-first_line (x ∷ xs) at_eof =
    let fed : (x == 10) ≡ true → (x == 13) ≡ false = λ h. ground arith in
    elim (Bool-cases (x == 10)) [
      | inl feed ↦ rw (feed, fed feed) (at_lf (index_byte cr xs) x xs at_eof)
      | inr no_feed ↦ elim (Bool-cases (x == 13)) [
        | inl return ↦ rw (no_feed, return) (at_cr x xs at_eof)
        | inr no_return ↦
            rw (no_feed, no_return)
              (further_split (index_byte lf xs) (index_byte cr xs) x xs at_eof (within cr xs)
                ∙ ap (further x) (scan_event_lines-first_line xs at_eof))
      ]
    ]
