-- ===== src/Jmap/Pointer.antt =====
-- jmap/patch.go: Pointer, which builds the JSON pointer of a leaf. A string is the list of its
-- bytes.
pub mod RoundTrip
use beautiful_aerc.Prelude.{
  ℕ, List, [], ◌∷◌, ◌++◌, ◌==◌, nat_eq, Bool, true, false, if◌then◌else◌, map,
}

abbrev pub tilde : ℕ
tilde = 126

abbrev pub slash : ℕ
slash = 47

abbrev pub zero_digit : ℕ
zero_digit = 48

abbrev pub one_digit : ℕ
one_digit = 49

-- one byte under `pointerEscaper`
abbrev pub escape_byte : ℕ → List ℕ
escape_byte b =
    if b == tilde
    then tilde ∷ zero_digit ∷ []
    else if b == slash
    then tilde ∷ one_digit ∷ []
    else b ∷ []

-- `pointerEscaper.Replace`
unfoldable pub escape : List ℕ → List ℕ
escape [] = []
escape (b ∷ bs) = escape_byte b ++ escape bs

-- `strings.Join` by "/"
unfoldable pub join : List (List ℕ) → List ℕ
join [] = []
join (s ∷ []) = s
join (s ∷ t ∷ rest) = s ++ slash ∷ join (t ∷ rest)

unfoldable pub pointer : List (List ℕ) → List ℕ
unfolding escape join
pointer segments = join (map escape segments)
