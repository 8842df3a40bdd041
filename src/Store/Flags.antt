-- ===== src/Store/Flags.antt =====
-- internal/store/flags.go: a message's keywords as bits and the rest. A flag is one bit, so its
-- conjunction with a set is a quotient by it that is odd.
pub mod Keywords
use beautiful_aerc.Prelude.{
  ℕ, ◌+◌, ◌/◌, ◌%◌, String, List, [], ◌∷◌, ◌++◌, map, Option, none, some, Bool, true, false, ◌==◌,
  nat_eq, string_eq, Map, lookup, filter, if◌then◌else◌,
}

abbrev pub flag_seen : ℕ
flag_seen = 1

abbrev pub flag_answered : ℕ
flag_answered = 2

abbrev pub flag_flagged : ℕ
flag_flagged = 4

abbrev pub flag_draft : ℕ
flag_draft = 8

abbrev pub flag_forwarded : ℕ
flag_forwarded = 16

abbrev pub flag_keyword : Map ℕ String
flag_keyword =
    (flag_seen, "$seen")
    ∷ (flag_answered, "$answered")
    ∷ (flag_flagged, "$flagged")
    ∷ (flag_draft, "$draft")
    ∷ (flag_forwarded, "$forwarded")
    ∷ []

abbrev pub named_flag : Map String ℕ
named_flag = map (λ (bit, kw). (kw, bit)) flag_keyword

-- `bits&bit != 0`
abbrev pub has_flag : ℕ → ℕ → Bool
has_flag bit bits = (bits / bit) % 2 == 1

-- `bits | bit`
abbrev pub or_flag : ℕ → ℕ → ℕ
or_flag bit bits = if has_flag bit bits then bits else bits + bit

-- the loop of EncodeFlags, for what one keyword is found to name
abbrev pub encode_one : Option ℕ → String → ℕ × List String → ℕ × List String
encode_one none kw (bits, overflow) = (bits, overflow ++ kw ∷ [])
encode_one (some bit) kw (bits, overflow) = (or_flag bit bits, overflow)

abbrev pub encode_from : List String → ℕ × List String → ℕ × List String
encode_from [] done = done
encode_from (kw ∷ kws) done = encode_from kws (encode_one (lookup kw named_flag) kw done)

unfoldable pub encode_flags : List String → ℕ × List String
encode_flags keywords = encode_from keywords (0, [])

-- the keywords of the bits, in the order of a table of them
abbrev pub named_in : Map ℕ String → ℕ → List String
named_in [] bits = []
named_in ((bit, kw) ∷ flags) bits =
    let rest = named_in flags bits in if has_flag bit bits then kw ∷ rest else rest

unfoldable pub decode_flags : ℕ → List String → List String
decode_flags bits overflow = overflow ++ named_in flag_keyword bits
