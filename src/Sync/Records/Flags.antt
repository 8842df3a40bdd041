-- ===== src/Sync/Records/Flags.antt =====
-- storeFlags of internal/sync/apply.go: the flags of the backend in the numbering of the store.
use beautiful_aerc.Prelude.{
  ℕ, zero, suc, String, List, [], ◌∷◌, Bool, false, ◌≡◌, ap, arith, nat_eq, string_eq,
  if◌then◌else◌,
}
use beautiful_aerc.Store.Flags.{
  encode_flags, has_flag, flag_seen, flag_answered, flag_flagged, flag_draft, flag_forwarded,
}
use beautiful_aerc.Sync.Records.{store_flags}

-- the keywords of five marks
abbrev picked : Bool → Bool → Bool → Bool → Bool → List String
picked a b c d e =
    let k5 : List String = if e then "$forwarded" ∷ [] else [] in
    let k4 = if d then "$draft" ∷ k5 else k5 in
    let k3 = if c then "$answered" ∷ k4 else k4 in
    let k2 = if b then "$flagged" ∷ k3 else k3 in if a then "$seen" ∷ k2 else k2

abbrev marks : ℕ → List Bool
marks bits =
    has_flag flag_seen bits
    ∷ has_flag flag_flagged bits
    ∷ has_flag flag_answered bits
    ∷ has_flag flag_draft bits
    ∷ has_flag flag_forwarded bits
    ∷ []

abbrev Kept : Bool → Bool → Bool → Bool → Bool → Type 0
Kept a b c d e = marks (encode_flags (picked a b c d e)).0 ≡ a ∷ b ∷ c ∷ d ∷ e ∷ []

kept : (a b c d e : Bool) → Kept a b c d e
unfolding encode_flags
kept a b c d e = ground arith

-- storeFlags sets each flag of the store exactly where the backend's set has the flag of that name,
-- though the two number their bits apart.
pub store_flags_lem :
    (set : ℕ)
    → let bits = store_flags set in
      (has_flag flag_seen bits ≡ has_flag 1 set)
      × ((has_flag flag_flagged bits ≡ has_flag 2 set)
          × ((has_flag flag_answered bits ≡ has_flag 4 set)
              × ((has_flag flag_draft bits ≡ has_flag 8 set)
                  × (has_flag flag_forwarded bits ≡ has_flag 16 set))))
unfolding store_flags
store_flags_lem set =
    let all =
      kept (has_flag 1 set) (has_flag 2 set) (has_flag 4 set) (has_flag 8 set) (has_flag 16 set) in
    (ap (nth 0) all, (ap (nth 1) all, (ap (nth 2) all, (ap (nth 3) all, ap (nth 4) all))))
  where
    nth : ℕ → List Bool → Bool
    nth n [] = false
    nth zero (b ∷ bs) = b
    nth (suc n) (b ∷ bs) = nth n bs
