-- ===== src/Store/Mail/Role/Winner.antt =====
-- The order of the claimants of a role in internal/store/mailbox_role.go, and its least.
use beautiful_aerc.Prelude.{
  List, [], ◌∷◌, true, false, ◌≡◌, refl, arith, nat_eq, All, if◌then◌else◌,
}
use beautiful_aerc.Store.Mail.Role.{Candidate, before, min_of}

before-other : (a b c : Candidate) → before a b ≡ true → before a c ≡ false → before b c ≡ false
before-other a b c h k = ground arith

not_before_trans :
    (a b c : Candidate) → before a b ≡ false → before b c ≡ false → before a c ≡ false
not_before_trans a b c h k = ground arith

-- neither before the other: the ids are one
pub before-same : (a b : Candidate) → before a b ≡ false → before b a ≡ false → a.id ≡ b.id
before-same a b h k = ground arith

pub before_irrefl : (a : Candidate) → before a a ≡ false
before_irrefl a = ground arith

pub min_of-All {κ} :
    (P : Candidate → Type κ) (c : Candidate) (ds : List Candidate)
    → P c
    → All P ds
    → P (min_of c ds)
min_of-All P c [] p h = p
min_of-All P c (d ∷ ds) p h = min_of-All P (if before d c then d else c) ds chosen h.1
  where
    chosen : P (if before d c then d else c)
    chosen = elim (before d c) as (λ b. P (if b then d else c)) [ true ↦ h.0 | false ↦ p ]

-- no claimant is before the least
pub min_of-least :
    (c : Candidate) (ds : List Candidate) → All (λ d. before d (min_of c ds) ≡ false) (c ∷ ds)
min_of-least c [] = (before_irrefl c, tt)
min_of-least c (d ∷ ds) =
    elim (before d c)
        as (λ b.
          before d c ≡ b
          → All (λ e. before e (min_of (if b then d else c) ds) ≡ false) (c ∷ d ∷ ds)) [
            | true ↦ λ sooner.
                let (here, rest) = min_of-least d ds in
                (before-other d c (min_of d ds) sooner here, (here, rest))
            | false ↦ λ later.
                let (here, rest) = min_of-least c ds in
                (here, (not_before_trans d c (min_of c ds) later here, rest))
          ]
      refl
