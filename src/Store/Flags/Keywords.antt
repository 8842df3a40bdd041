-- ===== src/Store/Flags/Keywords.antt =====
-- EncodeFlags and DecodeFlags of internal/store/flags.go, as sets of keywords.
use beautiful_aerc.Prelude.{
  ℕ, String, List, [], ◌∷◌, Option, none, some, Bool, ◌&&◌, ◌||◌, ◌≡◌, refl, ap, subst, ◌∙◌, sym,
  arith, ◌==◌, ==→≡, nat_eq, string_eq, Map, lookup, All, any, Bool-cases, inl, inr,
}
use beautiful_aerc.Prelude.Rows.{any-append}
use beautiful_aerc.Store.Flags.{
  flag_keyword, named_flag, has_flag, or_flag, encode_one, encode_from, encode_flags, named_in,
  decode_flags,
}

abbrev pub holds_keyword : String → List String → Bool
holds_keyword kw kws = any (λ k. k == kw) kws

-- what a state of the loop stands for
abbrev decoded : String → ℕ × List String → Bool
decoded kw (bits, overflow) =
    holds_keyword kw overflow || holds_keyword kw (named_in flag_keyword bits)

-- writing one bit changes no other
abbrev Writes : ℕ → ℕ → Type 0
Writes a bits =
    All (λ e. has_flag e.0 (or_flag a bits) ≡ (has_flag e.0 bits || (a == e.0))) flag_keyword

writes : (bits : ℕ) → All (λ e. Writes e.1 bits) named_flag
writes bits = (
  (ground arith, (ground arith, (ground arith, (ground arith, (ground arith, tt))))),
  (
    (ground arith, (ground arith, (ground arith, (ground arith, (ground arith, tt))))),
    (
      (ground arith, (ground arith, (ground arith, (ground arith, (ground arith, tt))))),
      (
        (ground arith, (ground arith, (ground arith, (ground arith, (ground arith, tt))))),
        ((ground arith, (ground arith, (ground arith, (ground arith, (ground arith, tt))))), tt),
      ),
    ),
  ),
)

holds-named_in :
    (kw : String) (m : Map ℕ String) (bits : ℕ)
    → holds_keyword kw (named_in m bits) ≡ any (λ e. has_flag e.0 bits && (e.1 == kw)) m
holds-named_in kw [] bits = refl
holds-named_in kw ((b, k) ∷ m) bits = ground (arith, holds-named_in kw m bits)

any-write :
    (kw : String) (a bits bits' : ℕ) (m : Map ℕ String)
    → All (λ e. has_flag e.0 bits' ≡ (has_flag e.0 bits || (a == e.0))) m
    → any (λ e. has_flag e.0 bits' && (e.1 == kw)) m
      ≡ (any (λ e. has_flag e.0 bits && (e.1 == kw)) m || any (λ e. (a == e.0) && (e.1 == kw)) m)
any-write kw a bits bits' [] h = refl
any-write kw a bits bits' ((b, k) ∷ m) h = ground (arith, h.0, any-write kw a bits bits' m h.1)

-- the keyword of a bit, among the table's
abbrev Names : String → ℕ → Type 0
Names k a = (kw : String) → any (λ e. (a == e.0) && (e.1 == kw)) flag_keyword ≡ (k == kw)

Names-all : All (λ e. Names e.0 e.1) named_flag
Names-all = (
  λ kw. ground arith,
  (λ kw. ground arith, (λ kw. ground arith, (λ kw. ground arith, (λ kw. ground arith, tt)))),
)

All-lookup :
    (P : String → ℕ → Type 0) (k : String) (m : Map String ℕ) (v : ℕ)
    → All (λ e. P e.0 e.1) m
    → lookup k m ≡ some v
    → P k v
All-lookup P k [] v h e = ground arith
All-lookup P k ((j, w) ∷ m) v h e = elim (Bool-cases (j == k)) [
  | inl here ↦
      subst (P k) (ap (λ o. elim o [ none ↦ w | some x ↦ x ]) (rw here at e))
        (subst (λ t. P t w) (==→≡ j k here) h.0)
  | inr later ↦ All-lookup P k m v h.1 (rw later at e)
]

or_assoc : (a b c : Bool) → (a || (b || c)) ≡ ((a || b) || c)
or_assoc a b c = ground arith

decoded-encode_one :
    (kw k : String) (o : Option ℕ) (done : ℕ × List String)
    → lookup k named_flag ≡ o
    → decoded kw (encode_one o k done) ≡ (decoded kw done || (k == kw))
decoded-encode_one kw k none (bits, overflow) e =
    ground (arith, any-append (λ t. t == kw) overflow (k ∷ []))
decoded-encode_one kw k (some a) (bits, overflow) e =
    let own = All-lookup Names k named_flag a Names-all e in
    let write = All-lookup (λ t b. Writes b bits) k named_flag a (writes bits) e in
    rw
      (
        holds-named_in kw flag_keyword (or_flag a bits),
        any-write kw a bits (or_flag a bits) flag_keyword write,
        own kw,
        holds-named_in kw flag_keyword bits,
      )
      (or_assoc (holds_keyword kw overflow)
        (any (λ e. has_flag e.0 bits && (e.1 == kw)) flag_keyword) (k == kw))

decoded-encode_from :
    (kw : String) (kws : List String) (done : ℕ × List String)
    → decoded kw (encode_from kws done) ≡ (decoded kw done || holds_keyword kw kws)
decoded-encode_from kw [] done = ground arith
decoded-encode_from kw (k ∷ kws) done =
    decoded-encode_from kw kws (encode_one (lookup k named_flag) k done)
    ∙ ap (λ b. b || holds_keyword kw kws) (decoded-encode_one kw k (lookup k named_flag) done refl)
    ∙ sym (or_assoc (decoded kw done) (k == kw) (holds_keyword kw kws))

-- Encoding keywords as bits and the rest and decoding them again gives the same set of keywords: each
-- keyword is there exactly if it was there before.
pub decode_flags-encode_flags :
    (kw : String) (keywords : List String)
    → let (bits, overflow) = encode_flags keywords in
      holds_keyword kw (decode_flags bits overflow) ≡ holds_keyword kw keywords
unfolding encode_flags decode_flags
decode_flags-encode_flags kw keywords =
    let (bits, overflow) = encode_from keywords (0, []) in
    any-append (λ t. t == kw) overflow (named_in flag_keyword bits)
    ∙ decoded-encode_from kw keywords (0, [])
