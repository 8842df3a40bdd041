-- ===== src/Jmap/Events.antt =====
-- jmap/eventstream.go: the lines of a server's event stream, and the events that they make. Text is the
-- list of its bytes. The scanner is the standard library's: it holds what was read and not yet split
-- off, and asks for the next line after each read; that it refuses a line above its bound is left out.
pub mod Lines
pub mod Reads
pub mod Reader
use beautiful_aerc.Prelude.{
  ℕ, zero, suc, ◌+◌, ◌-◌, ◌^◌, List, [], ◌∷◌, ◌++◌, length, take, drop, Option, none, some, Option,
  Bool, true, false, not, ◌&&◌, ltb, ◌==◌, nat_eq, if◌then◌else◌,
}

abbrev pub Bytes : Type 0
Bytes = List ℕ

abbrev pub lf : ℕ
lf = 10

abbrev pub cr : ℕ
cr = 13

abbrev pub next_index : Option ℕ → Option ℕ
next_index none = none
next_index (some i) = some (suc i)

-- bytes.IndexByte
abbrev pub index_byte : ℕ → Bytes → Option ℕ
index_byte b [] = none
index_byte b (x ∷ xs) = let later = next_index (index_byte b xs) in if x == b then some 0 else later

-- what a split function answers: how far to advance, and the line
abbrev pub Split : Type 0
Split = ℕ × Option Bytes

abbrev pub no_line : Split
no_line = (0, none)

-- the last byte is the carriage return, and more may come
abbrev pub at_edge : ℕ → Bytes → Bool → Bool
at_edge c bytes at_eof = (c == length bytes - 1) && not at_eof

abbrev pub split_at : Option ℕ → Option ℕ → Bytes → Bool → Split
split_at none none bytes at_eof = no_line
split_at (some l) none bytes at_eof = (suc l, some (take l bytes))
split_at none (some c) bytes at_eof =
    if at_edge c bytes at_eof then no_line else (suc c, some (take c bytes))
split_at (some l) (some c) bytes at_eof =
    if ltb l c
    then (suc l, some (take l bytes))
    else if at_edge c bytes at_eof
    then no_line
    else if l == suc c
    then (suc (suc c), some (take c bytes))
    else (suc c, some (take c bytes))

unfoldable pub scan_event_lines : Bytes → Bool → Split
scan_event_lines bytes at_eof = split_at (index_byte lf bytes) (index_byte cr bytes) bytes at_eof

-- The lines that the scanner splits off the bytes that it holds, and what it still holds. Each line
-- takes a byte at least.
abbrev pub scan_by : ℕ → Bytes → Bool → List Bytes × Bytes
scan_by zero bytes at_eof = ([], bytes)
scan_by (suc fuel) bytes at_eof =
    let (n, line) = scan_event_lines bytes at_eof in
    let (lines, rest) = scan_by fuel (drop n bytes) at_eof in
    elim line [ none ↦ ([], bytes) | some l ↦ (l ∷ lines, rest) ]

unfoldable pub scan : Bytes → Bool → List Bytes × Bytes
unfolding scan_event_lines
scan bytes at_eof = scan_by (length bytes) bytes at_eof

-- the lines of a stream that arrives in these reads
unfoldable pub scan_reads : List Bytes → Bytes → List Bytes
unfolding scan
scan_reads [] held = (scan held true).0
scan_reads (r ∷ rs) held = let (lines, rest) = scan (held ++ r) false in lines ++ scan_reads rs rest
